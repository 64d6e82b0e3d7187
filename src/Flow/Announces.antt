-- ===== src/Flow/Announces.antt =====
-- That an announcement changes the entries in the ways of Flow/Changes.antt.
use ha_wattpilot.Base.{
  ◌≡◌, refl, ap, sym, ◌∙◌, Bool, true, false, not, ◌&&◌, Option, none, some, List, [], ◌∷◌, arith,
  is_some, Text, codes, text_eq, text_eq_refl, Bool-cases, Option-cases, inl, inr,
}
use ha_wattpilot.Json.{text, null, get_else, Dict, get-insert_self}
use ha_wattpilot.Entries.{ConfigEntry, has_unique_id, awaits_serial, is_value}
use ha_wattpilot.Setup.{update_entry, entry_of}
use ha_wattpilot.Setup.Serials.{shares, are_apart, text_eq_sym}
use ha_wattpilot.Flow.State.{Home, Manager, entries, entry_with, with_host}
use ha_wattpilot.Flow.Steps.{set_entries, schedule_reload, abort_if_awaiting_entry_at}
use ha_wattpilot.Flow.Discovery.{
  Address, announced_ipv4, address_update, reload_failed_entry, announced_serial, take_updates,
  announce, step_zeroconf, has_failed,
}
use ha_wattpilot.Flow.Changes.{Change, host_of, unchanged, rewritten, entry_of-update_entry_same}
use ha_wattpilot.Flow.Refines.{unique_id_of, awaits_serial-with_host}

pub entry_with-has_unique_id :
    (serial : Text) (e : ConfigEntry) (es : List ConfigEntry)
    → entry_with serial es ≡ some e
    → has_unique_id serial e ≡ true
unfolding entry_with
entry_with-has_unique_id serial e [] found = cc
entry_with-has_unique_id serial e (o ∷ es) found = elim (Bool-cases (has_unique_id serial o)) [
  | inl own ↦
      let o_is_e : o ≡ e = ground (arith, found, own) in
      ap (has_unique_id serial) (sym o_is_e) ∙ own
  | inr other ↦ entry_with-has_unique_id serial e es (ground (arith, found, other))
]

-- An entry that is found shares its id with the rest only if it is the first with it.
entry_with-shares :
    (o e : ConfigEntry) (serial : Text) (es : List ConfigEntry)
    → entry_with serial es ≡ some e
    → shares o es ≡ false
    → text_eq o.entry_id e.entry_id ≡ false
unfolding entry_with shares
entry_with-shares o e serial [] found alone = cc
entry_with-shares o e serial (x ∷ es) found alone = elim (Bool-cases (has_unique_id serial x)) [
  | inl here ↦
      let x_is_e : x ≡ e = ground (arith, found, here) in
      ap (text_eq o.entry_id) (ap (λ (z : ConfigEntry). z.entry_id) (sym x_is_e))
      ∙ text_eq_sym o.entry_id x.entry_id
      ∙ ground (arith, alone)
  | inr later ↦
      entry_with-shares o e serial es (ground (arith, found, later)) (ground (arith, alone))
]

entry_of-entry_with :
    (serial : Text) (e : ConfigEntry) (es : List ConfigEntry)
    → are_apart es ≡ true
    → entry_with serial es ≡ some e
    → entry_of e.entry_id es ≡ some e
unfolding entry_with entry_of are_apart
entry_of-entry_with serial e [] apart found = cc
entry_of-entry_with serial e (x ∷ es) apart found = elim (Bool-cases (has_unique_id serial x)) [
  | inl here ↦
      let x_is_e : x ≡ e = ground (arith, found, here) in
      let itself : text_eq x.entry_id e.entry_id ≡ true = rw x_is_e (text_eq_refl e.entry_id) in
      rw itself (ap some x_is_e)
  | inr later ↦
      let there : entry_with serial es ≡ some e = ground (arith, found, later) in
      let other = entry_with-shares x e serial es there (ground (arith, apart)) in
      rw other (entry_of-entry_with serial e es (ground (arith, apart)) there)
]

host_of-with_host : (host : Text) (e : ConfigEntry) → host_of (with_host host e) ≡ some (text host)
unfolding with_host
host_of-with_host host e = get-insert_self (codes "host") (text host) e.options

address_update-host :
    (e : ConfigEntry) (host host' : Text) (h : Home)
    → address_update (some e) host h ≡ some host'
    → host ≡ host'
unfolding address_update
address_update-host e host host' h taken = ground (arith, taken)

-- An entry with this id that has the serial of e, and awaits one if e does.
record Alike (e : ConfigEntry) (es : List ConfigEntry) : Type 0 where
  twin : ConfigEntry
  found : entry_of e.entry_id es ≡ some twin
  same_id : twin.entry_id ≡ e.entry_id
  same_serial : twin.unique_id ≡ e.unique_id
  same_wait : awaits_serial twin ≡ awaits_serial e

-- The charger of the entry is vouched to be at this address.
abbrev Vouched : (Text → Text → Type 0) → ConfigEntry → Text → Type 0
Vouched V e host = (serial : Text) → e.unique_id ≡ some serial → V serial host

-- The entry takes the host where it is.
take_host :
    {V : Text → Text → Type 0} (e : ConfigEntry) (host : Text) (es : List ConfigEntry)
    → Vouched V e host
    → Alike e es
    → Change V es (update_entry (with_host host e) es)
unfolding with_host
take_host e host es v a =
    rewritten a.twin (with_host host e) (ap (λ t. entry_of t es) a.same_id ∙ a.found)
      (sym a.same_id) (sym a.same_serial) (awaits_serial-with_host host e ∙ sym a.same_wait)
      (inr (
        host,
        host_of-with_host host e,
        λ serial known settled. v serial (sym a.same_serial ∙ known),
      ))

Alike-with_host :
    (e : ConfigEntry) (host : Text) (es : List ConfigEntry)
    → entry_of e.entry_id es ≡ some e
    → Alike e (update_entry (with_host host e) es)
unfolding with_host
Alike-with_host e host es found = record {
  twin = with_host host e;
  found =
      entry_of-update_entry_same e.entry_id (with_host host e) es (text_eq_refl e.entry_id)
        (ap is_some found);
  same_id = refl;
  same_serial = refl;
  same_wait = awaits_serial-with_host host e;
}

found-Alike :
    (e : ConfigEntry) (es : List ConfigEntry) → entry_of e.entry_id es ≡ some e → Alike e es
found-Alike e es found = record {
  twin = e;
  found = found;
  same_id = refl;
  same_serial = refl;
  same_wait = refl;
}

module _ {V : Text → Text → Type 0} (e : ConfigEntry) (host : Text) (h : Home)
    (v : Vouched V e host) where
  reload_failed_entry-Change :
      entry_of e.entry_id (entries h) ≡ some e
      → Change V (entries h) (entries (reload_failed_entry (some e) (some host) h))
        × Alike e (entries (reload_failed_entry (some e) (some host) h))
  unfolding set_entries schedule_reload reload_failed_entry
  reload_failed_entry-Change found =
      elim (Bool-cases (
        has_failed (h.state e.entry_id)
        && not (is_value host (get_else (codes "host") null e.options)))) [
          | inl moves ↦
              rw (moves, reload_failed_entry)
                (
                  take_host e host (entries h) v (found-Alike e (entries h) found),
                  Alike-with_host e host (entries h) found,
                )
          | inr stays ↦ rw (stays, reload_failed_entry) (unchanged, found-Alike e (entries h) found)
        ]

pub abort_if_awaiting_entry_at-entries :
    (host : Text) (h : Home) → entries (abort_if_awaiting_entry_at host h).1 ≡ entries h
unfolding abort_if_awaiting_entry_at schedule_reload
abort_if_awaiting_entry_at-entries host h = ground (arith)

-- Two changes, of which either may leave the entries as they are.
abbrev pub Changes : (Text → Text → Type 0) → List ConfigEntry → List ConfigEntry → Type 0
Changes V es es' = (between : List ConfigEntry) × Change V es between × Change V between es'

-- The address that an announcement gives an entry is vouched for the serial it was found by.
Vouched-entry_with :
    (V : Text → Text → Type 0) (serial host : Text) (e : ConfigEntry) (host' : Text) (h : Home)
    → entry_with serial (entries h) ≡ some e
    → address_update (entry_with serial (entries h)) host h ≡ some host'
    → V serial host
    → Vouched V e host'
Vouched-entry_with V serial host e host' h found taken v s known =
    let own = unique_id_of serial e (entry_with-has_unique_id serial e (entries h) found) in
    let one : some serial ≡ some s = sym own ∙ known in
    let s_is : serial ≡ s = cc in
    let host_is : host ≡ host' =
      address_update-host e host host' h (ap (λ k. address_update k host h) (sym found) ∙ taken) in
    rw (sym s_is, sym host_is) v

module _ (m : Manager) where
  pub take_updates-entries :
      (e : ConfigEntry) (host : Text) (h : Home)
      → entries (take_updates m (some e) (some host) h)
        ≡ update_entry (with_host host e) (entries h)
  unfolding take_updates schedule_reload
  take_updates-entries e host h = elim (Bool-cases (m.reloads_for e host (h.state e.entry_id))) [
    | inl again ↦ rw (take_updates, again) (m.take_lem e host h.installation)
    | inr stays ↦ rw (take_updates, stays) (m.take_lem e host h.installation)
  ]

module _ {V : Text → Text → Type 0} (m : Manager) where
  take_updates-Change :
      (e : ConfigEntry) (host : Text) (h : Home)
      → Vouched V e host
      → Alike e (entries h)
      → Change V (entries h) (entries (take_updates m (some e) (some host) h))
  take_updates-Change e host h v a =
      rw (take_updates-entries m e host h) (take_host e host (entries h) v a)

  reload-take :
      (known : Option ConfigEntry) (updates : Option Text) (h : Home)
      → ((e : ConfigEntry) → known ≡ some e → entry_of e.entry_id (entries h) ≡ some e)
      → ((e : ConfigEntry) (host : Text) → known ≡ some e → updates ≡ some host → Vouched V e host)
      → let h' = reload_failed_entry known updates h in
        Change V (entries h) (entries h')
        × Change V (entries h') (entries (take_updates m known updates h'))
  unfolding reload_failed_entry take_updates
  reload-take none updates h there v = (unchanged, unchanged)
  reload-take (some e) none h there v = (unchanged, unchanged)
  reload-take (some e) (some host) h there v =
      let (moved, a) = reload_failed_entry-Change e host h (v e host refl refl) (there e refl) in
      (
        moved,
        take_updates-Change e host (reload_failed_entry (some e) (some host) h) (v e host refl refl)
            a,
      )

  announce-Changes :
      (serial host : Text) (h : Home)
      → V serial host
      → are_apart (entries h) ≡ true
      → Changes V (entries h) (entries (announce m serial host h).1)
  unfolding announce
  announce-Changes serial host h v apart =
      let known = entry_with serial (entries h) in
      let updates = address_update known host h in
      let h' = reload_failed_entry known updates h in
      let both =
        reload-take known updates h
          (λ e found. entry_of-entry_with serial e (entries h) apart found)
          (λ e host' found taken. Vouched-entry_with V serial host e host' h found taken v) in
      elim (Bool-cases (m.configured false serial h'.installation)) [
        | inl taken ↦ (entries h', both.0, rw (announce, taken) both.1)
        | inr free ↦ (
          entries h',
          both.0,
          elim (Bool-cases (abort_if_awaiting_entry_at host h').0) [
            | inl waits ↦
                rw (announce, free, waits, abort_if_awaiting_entry_at-entries host h') unchanged
            | inr card ↦
                rw (announce, free, card, abort_if_awaiting_entry_at-entries host h') unchanged
          ],
        )
      ]

module _ (m : Manager) where
  pub step_zeroconf-Changes :
      (in_progress : Bool) (addresses : List Address) (properties : Dict) (h : Home)
      → are_apart (entries h) ≡ true
      → Changes
          (λ s t. (announced_serial properties ≡ some s) × (announced_ipv4 addresses ≡ some t))
          (entries h)
          (entries (step_zeroconf m in_progress addresses properties h).1)
  unfolding step_zeroconf
  step_zeroconf-Changes in_progress addresses properties h apart =
      elim (Option-cases (announced_ipv4 addresses)) [
        | inl missing ↦ rw (step_zeroconf, missing) (entries h, unchanged, unchanged)
        | inr (host, usable) ↦ elim (Option-cases (announced_serial properties)) [
          | inl missing ↦ rw (step_zeroconf, usable, missing) (entries h, unchanged, unchanged)
          | inr (serial, given) ↦ elim (Bool-cases in_progress) [
            | inl busy ↦ rw (step_zeroconf, usable, given, busy) (entries h, unchanged, unchanged)
            | inr alone ↦
                rw (step_zeroconf, usable, given, alone)
                  (announce-Changes m serial host h (refl, refl) apart)
          ]
        ]
      ]
