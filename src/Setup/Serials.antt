-- ===== src/Setup/Serials.antt =====
-- That an entry keeps to its charger, and that no two entries get the same one.
use ha_wattpilot.Base.{
  ◌≡◌, refl, ap, sym, ◌∙◌, Bool, true, false, not, ◌&&◌, ◌||◌, Option, none, some, List, [], ◌∷◌,
  arith, Text, text_eq, text_eq_sound, Bool-cases, Option-cases, ◌⊎◌, inl, inr,
}
use ha_wattpilot.Entries.{ConfigEntry, has_unique_id, awaits_serial, serial_taken_by_other_entry}
use ha_wattpilot.Setup.Adopt.{
  Installation, update_entry, with_serial, adopt_serial, check_identity, entry_of, setup_run,
}

pub entry_of-entry_id :
    (id : Text) (es : List ConfigEntry) (e : ConfigEntry)
    → entry_of id es ≡ some e
    → text_eq e.entry_id id ≡ true
unfolding entry_of
entry_of-entry_id id [] e h = cc
entry_of-entry_id id (o ∷ es) e h = elim (Bool-cases (text_eq o.entry_id id)) [
  | inl same ↦ grind (arith, same)
  | inr other ↦ grind (arith, entry_of-entry_id id es e)
]

pub entry_of-update_entry :
    (id : Text) (e : ConfigEntry) (es : List ConfigEntry)
    → text_eq e.entry_id id ≡ false
    → entry_of id (update_entry e es) ≡ entry_of id es
unfolding entry_of update_entry
entry_of-update_entry id e [] h = refl
entry_of-update_entry id e (o ∷ es) h = elim (Bool-cases (text_eq o.entry_id e.entry_id)) [
  | inl same ↦
      let i = text_eq_sound o.entry_id e.entry_id same in
      let passed : text_eq o.entry_id id ≡ false = rw i h in
      rw (same, h, passed) (entry_of-update_entry id e es h)
  | inr other ↦ rw other (ground (arith, entry_of-update_entry id e es h))
]

pub text_eq_sym : (s t : Text) → text_eq s t ≡ text_eq t s
unfolding text_eq
text_eq_sym [] [] = refl
text_eq_sym [] (_ ∷ _) = refl
text_eq_sym (_ ∷ _) [] = refl
text_eq_sym (a ∷ s) (b ∷ t) = ground (arith, text_eq_sym s t)

other_serial :
    (serial : Text) (u : Option Text)
    → (elim u [ some v ↦ text_eq v serial | none ↦ false ]) ≡ false
    → (elim u [ some v ↦ text_eq serial v | none ↦ false ]) ≡ false
other_serial serial none h = h
other_serial serial (some v) h = rw (text_eq_sym serial v) h

-- An entry that shares its id or its serial with one of these.
unfoldable pub shares : ConfigEntry → List ConfigEntry → Bool
shares e [] = false
shares e (o ∷ es) =
    (text_eq o.entry_id e.entry_id
      || (elim e.unique_id [ some u ↦ has_unique_id u o | none ↦ false ]))
    || shares e es

-- Entries that differ in their ids, and in their serials as far as they have one.
unfoldable pub are_apart : List ConfigEntry → Bool
are_apart [] = true
are_apart (e ∷ es) = not (shares e es) && are_apart es

pub update_entry-absent :
    (e o : ConfigEntry) (es : List ConfigEntry)
    → text_eq o.entry_id e.entry_id ≡ true
    → shares o es ≡ false
    → update_entry e es ≡ es
unfolding update_entry shares
update_entry-absent e o [] same h = refl
update_entry-absent e o (p ∷ es) same h =
    let i = text_eq_sound o.entry_id e.entry_id same in
    let apart : text_eq p.entry_id e.entry_id ≡ false = rw (sym i) (ground (arith, h)) in
    rw apart
      (ap (λ (ps : List ConfigEntry). p ∷ ps) (update_entry-absent e o es same (ground (arith, h))))

shares-with_serial :
    (serial : Text) (e o : ConfigEntry) (es : List ConfigEntry)
    → text_eq o.entry_id e.entry_id ≡ true
    → shares o es ≡ false
    → serial_taken_by_other_entry e serial es ≡ false
    → shares (with_serial serial e) es ≡ false
unfolding shares serial_taken_by_other_entry with_serial
shares-with_serial serial e o [] same h free = refl
shares-with_serial serial e o (p ∷ es) same h free =
    let i = text_eq_sound o.entry_id e.entry_id same in
    let apart : text_eq p.entry_id e.entry_id ≡ false = rw (sym i) (ground (arith, h)) in
    ground (arith, apart, shares-with_serial serial e o es same)

shares-update_entry :
    (serial : Text) (e o : ConfigEntry) (es : List ConfigEntry)
    → text_eq o.entry_id e.entry_id ≡ false
    → has_unique_id serial o ≡ false
    → shares o es ≡ false
    → shares o (update_entry (with_serial serial e) es) ≡ false
unfolding shares update_entry with_serial has_unique_id
shares-update_entry serial e o [] other free h = refl
shares-update_entry serial e o (p ∷ es) other free h =
    let rest = shares-update_entry serial e o es other free (ground (arith, h)) in
    let ids : text_eq e.entry_id o.entry_id ≡ false =
      rw (text_eq_sym e.entry_id o.entry_id) other in
    let serials = other_serial serial o.unique_id free in
    elim (Bool-cases (text_eq p.entry_id e.entry_id)) [
      | inl same ↦ rw same (ground (arith, ids, serials, rest))
      | inr apart ↦ rw apart (ground (arith, h, rest))
    ]

pub update_entry-are_apart :
    (serial : Text) (e : ConfigEntry) (es : List ConfigEntry)
    → serial_taken_by_other_entry e serial es ≡ false
    → are_apart es ≡ true
    → are_apart (update_entry (with_serial serial e) es) ≡ true
unfolding are_apart update_entry serial_taken_by_other_entry with_serial
update_entry-are_apart serial e [] free h = refl
update_entry-are_apart serial e (o ∷ es) free h =
    let alone : shares o es ≡ false = ground (arith, h) in
    let apart : are_apart es ≡ true = ground (arith, h) in
    let later : serial_taken_by_other_entry e serial es ≡ false = ground (arith, free) in
    elim (Bool-cases (text_eq o.entry_id e.entry_id)) [
      | inl same ↦
          let unchanged = update_entry-absent (with_serial serial e) o es same alone in
          let shared = shares-with_serial serial e o es same alone later in
          rw (same, unchanged, shared, apart) refl
      | inr other ↦
          let unlike : has_unique_id serial o ≡ false = ground (arith, free, other) in
          let shared = shares-update_entry serial e o es other unlike alone in
          rw (other, shared, update_entry-are_apart serial e es later apart) refl
    ]

-- A setup leaves the entries as they are, or gives an entry that awaits a serial one that is free.
pub check_identity-cases :
    (e : ConfigEntry) (serial : Text) (h : Installation)
    → ((check_identity e serial h).1.entries ≡ h.entries)
      ⊎ ((awaits_serial e ≡ true)
          × (serial_taken_by_other_entry e serial h.entries ≡ false)
          × ((check_identity e serial h).1.entries ≡ update_entry (with_serial serial e) h.entries))
unfolding check_identity adopt_serial
check_identity-cases e serial h =
    elim (Bool-cases (not (has_unique_id serial e) || awaits_serial e)) [
      | inr settled ↦ inl (rw (check_identity, settled) refl)
      | inl asks ↦ elim (Bool-cases (awaits_serial e)) [
        | inr known ↦ inl (rw (check_identity, asks, adopt_serial, known) refl)
        | inl awaits ↦ elim (Bool-cases (serial_taken_by_other_entry e serial h.entries)) [
          | inl taken ↦ inl (rw (check_identity, asks, adopt_serial, awaits, taken) refl)
          | inr free ↦
              inr (awaits, free, rw (check_identity, asks, adopt_serial, awaits, free) refl)
        ]
      ]
    ]

module _ (id serial : Text) (setups : List (Text × Text)) (h : Installation) where
  pub setup_run-missing :
      entry_of id h.entries ≡ none → setup_run ((id, serial) ∷ setups) h ≡ setup_run setups h
  unfolding setup_run
  setup_run-missing missing = rw (setup_run, missing) refl

  pub setup_run-found :
      (e : ConfigEntry)
      → entry_of id h.entries ≡ some e
      → setup_run ((id, serial) ∷ setups) h ≡ setup_run setups (check_identity e serial h).1
  unfolding setup_run
  setup_run-found e found = rw (setup_run, found) refl

-- However setups of entries follow each other, and whatever serials their chargers report, entries that
-- differ in their serials go on to differ in them, adopted ones included.
setup_run-are_apart :
    (setups : List (Text × Text)) (h : Installation)
    → are_apart h.entries ≡ true
    → are_apart (setup_run setups h).entries ≡ true
unfolding setup_run
setup_run-are_apart [] h apart = apart
setup_run-are_apart ((id, serial) ∷ setups) h apart = elim (Option-cases (entry_of id h.entries)) [
  | inl missing ↦
      rw (setup_run-missing id serial setups h missing) (setup_run-are_apart setups h apart)
  | inr (e, found) ↦ rw (setup_run-found id serial setups h e found) (
      setup_run-are_apart setups (check_identity e serial h).1
        (elim (check_identity-cases e serial h) [
          | inl same ↦ rw same apart
          | inr (awaits, free, updated) ↦
              rw updated (update_entry-are_apart serial e h.entries free apart)
        ]))
]

check_identity-known :
    (id : Text) (e o : ConfigEntry) (serial : Text) (h : Installation)
    → entry_of id h.entries ≡ some e
    → awaits_serial e ≡ false
    → (other : Text) → entry_of other h.entries ≡ some o
    → entry_of id (check_identity o serial h).1.entries ≡ some e
unfolding with_serial
check_identity-known id e o serial h found known other found_o =
    elim (check_identity-cases o serial h) [
      | inl same ↦ rw same found
      | inr (awaits, free, updated) ↦ elim (Bool-cases (text_eq o.entry_id id)) [
        | inl same ↦
            let i = text_eq_sound o.entry_id id same in
            let j = text_eq_sound o.entry_id other (entry_of-entry_id other h.entries o found_o) in
            let both : some e ≡ some o =
              sym found ∙ ap (λ t. entry_of t h.entries) (sym i ∙ j) ∙ found_o in
            cc
        | inr apart ↦
            rw updated (entry_of-update_entry id (with_serial serial o) h.entries apart ∙ found)
      ]
    ]

-- An entry that knows its serial keeps it, with all that it holds, through any setups of it and of the
-- other entries, whatever serials the chargers report.
setup_run-known :
    (id : Text) (e : ConfigEntry) (setups : List (Text × Text)) (h : Installation)
    → entry_of id h.entries ≡ some e
    → awaits_serial e ≡ false
    → entry_of id (setup_run setups h).entries ≡ some e
unfolding setup_run
setup_run-known id e [] h found known = found
setup_run-known id e ((other, serial) ∷ setups) h found known =
    elim (Option-cases (entry_of other h.entries)) [
      | inl missing ↦
          rw (setup_run-missing other serial setups h missing)
            (setup_run-known id e setups h found known)
      | inr (o, found_o) ↦ rw (setup_run-found other serial setups h o found_o) (
          setup_run-known id e setups (check_identity o serial h).1
            (check_identity-known id e o serial h found known other found_o) known)
    ]
