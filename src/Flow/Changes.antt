-- ===== src/Flow/Changes.antt =====
-- The ways in which a setup or a flow may change the entries, and what they all leave alone.
use ha_wattpilot.Base.{
  ◌≡◌, refl, ap, sym, ◌∙◌, Bool, true, false, ◌||◌, Option, none, some, List, [], ◌∷◌, ◌++◌,
  is_some, arith, Text, text_eq, text_eq_sound, Bool-cases, ◌⊎◌, inl, inr, codes,
}
use ha_wattpilot.Json.{Value, text, get}
use ha_wattpilot.Entries.{ConfigEntry, has_unique_id, awaits_serial, serial_taken_by_other_entry}
use ha_wattpilot.Setup.{update_entry, with_serial, entry_of}
use ha_wattpilot.Setup.Serials.{
  shares, are_apart, text_eq_sym, entry_of-update_entry, update_entry-absent,
  update_entry-are_apart,
}

-- The address of an entry.
abbrev pub host_of : ConfigEntry → Option Value
host_of e = get (codes "host") e.options

-- An entry stays at its address, or is moved to one that the charger with its serial is vouched to be
-- at, if it knows its serial.
abbrev pub Moves : (Text → Text → Type 0) → ConfigEntry → ConfigEntry → Type 0
Moves V e e' =
    (host_of e' ≡ host_of e)
    ⊎ ((host : Text) × (host_of e' ≡ some (text host))
        × ((serial : Text) → e.unique_id ≡ some serial → awaits_serial e ≡ false → V serial host))

-- One change of the entries: an entry that awaits its serial gets one that is free; an entry is
-- rewritten, but keeps its serial and goes on to await one if it did; or a new entry comes last.
pub data Change (V : Text → Text → Type 0) (es : List ConfigEntry) : List ConfigEntry → Type 0 where
  unchanged : Change V es es
  adopted :
      (e : ConfigEntry) (serial : Text)
      → entry_of e.entry_id es ≡ some e
      → awaits_serial e ≡ true
      → serial_taken_by_other_entry e serial es ≡ false
      → Change V es (update_entry (with_serial serial e) es)
  rewritten :
      (e e' : ConfigEntry)
      → entry_of e.entry_id es ≡ some e
      → e'.entry_id ≡ e.entry_id
      → e'.unique_id ≡ e.unique_id
      → awaits_serial e' ≡ awaits_serial e
      → Moves V e e'
      → Change V es (update_entry e' es)
  added : (e : ConfigEntry) → shares e es ≡ false → Change V es (es ++ e ∷ [])

shares_key :
    (o x y : ConfigEntry) (es : List ConfigEntry)
    → y.entry_id ≡ x.entry_id
    → y.unique_id ≡ x.unique_id
    → shares o (y ∷ es) ≡ shares o (x ∷ es)
unfolding shares has_unique_id
shares_key o x y es i u = ground (arith, i, u)

shares_of_key :
    (x y : ConfigEntry) (es : List ConfigEntry)
    → y.entry_id ≡ x.entry_id
    → y.unique_id ≡ x.unique_id
    → shares y es ≡ shares x es
unfolding shares has_unique_id
shares_of_key x y [] i u = refl
shares_of_key x y (o ∷ es) i u = ground (arith, shares_of_key x y es i u, i, u)

shares_cons :
    (o x : ConfigEntry) (es fs : List ConfigEntry)
    → shares o es ≡ shares o fs
    → shares o (x ∷ es) ≡ shares o (x ∷ fs)
unfolding shares
shares_cons o x es fs h = ground (arith, h)

module _ (e e' : ConfigEntry) (i : e'.entry_id ≡ e.entry_id) (u : e'.unique_id ≡ e.unique_id) where
  update_first :
      (x : ConfigEntry) (es : List ConfigEntry)
      → text_eq x.entry_id e.entry_id ≡ true
      → shares x es ≡ false
      → update_entry e' (x ∷ es) ≡ e' ∷ es
  unfolding update_entry
  update_first x es first alone =
      let here : text_eq x.entry_id e'.entry_id ≡ true = rw i first in
      rw (here, update_entry-absent e' x es here alone) refl

  update_later :
      (x : ConfigEntry) (es : List ConfigEntry)
      → text_eq x.entry_id e.entry_id ≡ false
      → update_entry e' (x ∷ es) ≡ x ∷ update_entry e' es
  unfolding update_entry
  update_later x es later =
      let there : text_eq x.entry_id e'.entry_id ≡ false = rw i later in rw there refl

module _ (e e' : ConfigEntry) (i : e'.entry_id ≡ e.entry_id) (u : e'.unique_id ≡ e.unique_id) where
  shares-rewritten :
      (o : ConfigEntry) (es : List ConfigEntry)
      → entry_of e.entry_id es ≡ some e
      → are_apart es ≡ true
      → shares o (update_entry e' es) ≡ shares o es
  unfolding entry_of are_apart
  shares-rewritten o [] found apart = cc
  shares-rewritten o (x ∷ es) found apart = elim (Bool-cases (text_eq x.entry_id e.entry_id)) [
    | inl first ↦
        let x_is_e : x ≡ e = ground (arith, found, first) in
        ap (shares o) (update_first e e' i u x es first (ground (arith, apart)))
        ∙ shares_key o e e' es i u
        ∙ ap (λ z. shares o (z ∷ es)) (sym x_is_e)
    | inr later ↦
        let rest = shares-rewritten o es (ground (arith, found, later)) (ground (arith, apart)) in
        ap (shares o) (update_later e e' i u x es later)
        ∙ shares_cons o x (update_entry e' es) es rest
  ]

  are_apart-rewritten :
      (es : List ConfigEntry)
      → entry_of e.entry_id es ≡ some e
      → are_apart es ≡ true
      → are_apart (update_entry e' es) ≡ true
  unfolding entry_of are_apart
  are_apart-rewritten [] found apart = cc
  are_apart-rewritten (x ∷ es) found apart = elim (Bool-cases (text_eq x.entry_id e.entry_id)) [
    | inl first ↦
        let x_is_e : x ≡ e = ground (arith, found, first) in
        let alone : shares e' es ≡ false =
          shares_of_key e e' es i u ∙ ap (λ z. shares z es) (sym x_is_e) ∙ ground (arith, apart) in
        rw (update_first e e' i u x es first (ground (arith, apart))) (ground (arith, alone, apart))
    | inr later ↦
        let known : entry_of e.entry_id es ≡ some e = ground (arith, found, later) in
        let rest = are_apart-rewritten es known (ground (arith, apart)) in
        let alone = shares-rewritten x es known (ground (arith, apart)) in
        rw (update_later e e' i u x es later) (ground (arith, alone, rest, apart))
  ]

-- `s is not None and s == t`
abbrev same_serial : Option Text → Option Text → Bool
same_serial s t = elim s [
  | none ↦ false
  | some u ↦ (elim t [ none ↦ false | some v ↦ text_eq v u ])
]

same_serial_sym : (s t : Option Text) → same_serial s t ≡ same_serial t s
same_serial_sym none none = refl
same_serial_sym none (some t) = refl
same_serial_sym (some s) none = refl
same_serial_sym (some s) (some t) = text_eq_sym t s

shares_sym : (o n : ConfigEntry) → shares o (n ∷ []) ≡ shares n (o ∷ [])
unfolding shares has_unique_id
shares_sym o n =
    ap (λ b. (b || same_serial o.unique_id n.unique_id) || false)
      (text_eq_sym n.entry_id o.entry_id)
    ∙ ap (λ b. (text_eq o.entry_id n.entry_id || b) || false)
        (same_serial_sym o.unique_id n.unique_id)

shares-append :
    (o n : ConfigEntry) (es : List ConfigEntry)
    → shares o es ≡ false
    → shares n (o ∷ []) ≡ false
    → shares o (es ++ n ∷ []) ≡ false
unfolding shares has_unique_id
shares-append o n [] h k = shares_sym o n ∙ k
shares-append o n (x ∷ es) h k = ground (arith, h, shares-append o n es, k)

are_apart-append :
    (n : ConfigEntry) (es : List ConfigEntry)
    → are_apart es ≡ true
    → shares n es ≡ false
    → are_apart (es ++ n ∷ []) ≡ true
unfolding are_apart shares
are_apart-append n [] h k = refl
are_apart-append n (x ∷ es) h k =
    let alone = shares-append x n es (ground (arith, h)) (ground (arith, k)) in
    rw alone (are_apart-append n es (ground (arith, h)) (ground (arith, k)))

-- Entries with ids and serials of their own keep to them through every change.
pub Change-are_apart :
    {V : Text → Text → Type 0} {es es' : List ConfigEntry}
    → Change V es es'
    → are_apart es ≡ true
    → are_apart es' ≡ true
Change-are_apart unchanged apart = apart
Change-are_apart {es} (adopted e serial found awaits free) apart =
    update_entry-are_apart serial e es free apart
Change-are_apart {es} (rewritten e e' found i u w moves) apart =
    are_apart-rewritten e e' i u es found apart
Change-are_apart {es} (added e alone) apart = are_apart-append e es apart alone

-- The entry with this id knows its serial, and it is this one.
pub record Knows (id serial : Text) (es : List ConfigEntry) : Type 0 where
  pub keeper : ConfigEntry
  pub found : entry_of id es ≡ some keeper
  pub serial_known : keeper.unique_id ≡ some serial
  pub settled : awaits_serial keeper ≡ false

pub entry_of-update_entry_same :
    (id : Text) (e : ConfigEntry) (es : List ConfigEntry)
    → text_eq e.entry_id id ≡ true
    → is_some (entry_of id es) ≡ true
    → entry_of id (update_entry e es) ≡ some e
unfolding entry_of update_entry
entry_of-update_entry_same id e [] same there = cc
entry_of-update_entry_same id e (o ∷ es) same there =
    let i = text_eq_sound e.entry_id id same in
    elim (Bool-cases (text_eq o.entry_id e.entry_id)) [
      | inl first ↦ rw (first, same) refl
      | inr later ↦
          let passed : text_eq o.entry_id id ≡ false = rw (sym i) later in
          rw (later, passed)
            (entry_of-update_entry_same id e es same (ground (arith, there, passed)))
    ]

pub entry_of-append :
    (id : Text) (e n : ConfigEntry) (es : List ConfigEntry)
    → entry_of id es ≡ some e
    → entry_of id (es ++ n ∷ []) ≡ some e
unfolding entry_of
entry_of-append id e n [] h = cc
entry_of-append id e n (o ∷ es) h = ground (arith, h, entry_of-append id e n es)

-- An entry that knows its serial knows it after every change.
pub Change-Knows :
    {V : Text → Text → Type 0} (id serial : Text) {es es' : List ConfigEntry}
    → Change V es es'
    → Knows id serial es
    → Knows id serial es'
unfolding with_serial
Change-Knows id serial unchanged k = k
Change-Knows id serial {es} (adopted e s found awaits free) k =
    let there = k.found in
    let settled = k.settled in
    elim (Bool-cases (text_eq e.entry_id id)) [
      | inl same ↦
          let both : some e ≡ some k.keeper =
            sym found ∙ ap (λ t. entry_of t es) (text_eq_sound e.entry_id id same) ∙ there in
          cc
      | inr other ↦ record {
        keeper = k.keeper;
        found = entry_of-update_entry id (with_serial s e) es other ∙ there;
        serial_known = k.serial_known;
        settled = k.settled;
      }
    ]
Change-Knows id serial {es} (rewritten e e' found i u w moves) k =
    elim (Bool-cases (text_eq e.entry_id id)) [
      | inl same ↦
          let j = text_eq_sound e.entry_id id same in
          let both : some e ≡ some k.keeper = sym found ∙ ap (λ t. entry_of t es) j ∙ k.found in
          let is_e : e ≡ k.keeper = cc in
          record {
            keeper = e';
            found = entry_of-update_entry_same id e' es (rw i same) (ap is_some (k.found));
            serial_known = u ∙ ap (λ (x : ConfigEntry). x.unique_id) is_e ∙ k.serial_known;
            settled = w ∙ ap awaits_serial is_e ∙ k.settled;
          }
      | inr other ↦ record {
        keeper = k.keeper;
        found = entry_of-update_entry id e' es (rw i other) ∙ k.found;
        serial_known = k.serial_known;
        settled = k.settled;
      }
    ]
Change-Knows id serial {es} (added e alone) k = record {
  keeper = k.keeper;
  found = entry_of-append id k.keeper e es k.found;
  serial_known = k.serial_known;
  settled = k.settled;
}
