-- ===== src/Flow/Agreement.antt =====
-- That the flows for an entry and the setup after them agree on the charger that it may take.
use ha_wattpilot.Base.{
  ◌≡◌, refl, ap, sym, ◌∙◌, Bool, true, false, not, ◌&&◌, ◌||◌, Option, none, some, List, [], ◌∷◌,
  arith, Text, codes, text_eq, text_eq_refl, Bool-cases, inl, inr, if◌then◌else◌,
}
use ha_wattpilot.Entries.{ConfigEntry, has_unique_id, awaits_serial, serial_taken_by_other_entry}
use ha_wattpilot.Setup.{
  SetupError, wrong_charger, duplicate_device, Installation, adopt_serial, check_identity,
  update_entry, entry_of,
}
use ha_wattpilot.Setup.Serials.{shares, are_apart}
use ha_wattpilot.Flow.State.{Home, entries, FlowResult, updated, show_form}
use ha_wattpilot.Flow.Probe.{no_errors, identity_error, validate_for}
use ha_wattpilot.Flow.Steps.{
  reconfigured, with_password, finish, finish_for, update_and_reload, reconfigure, reauth_confirm,
  set_entries, schedule_reload,
}
use ha_wattpilot.Flow.Refines.{
  unique_id_of, awaits_serial-reconfigured, awaits_serial-with_password,
}

-- How a form puts what the setup refuses.
abbrev pub form_key : Option SetupError → Option Text
form_key none = none
form_key (some (wrong_charger _ _)) = some (codes "wrong_device")
form_key (some (duplicate_device _)) = some (codes "charger_has_entry")

-- A serial is free for an entry that shares it with none of these.
taken_of_shares :
    (serial : Text) (e : ConfigEntry) (es : List ConfigEntry)
    → e.unique_id ≡ some serial
    → shares e es ≡ false
    → serial_taken_by_other_entry e serial es ≡ false
unfolding serial_taken_by_other_entry shares
taken_of_shares serial e [] u alone = refl
taken_of_shares serial e (o ∷ es) u alone = ground (arith, u, alone, taken_of_shares serial e es u)

shares_of_found :
    (id serial : Text) (x e : ConfigEntry) (es : List ConfigEntry)
    → entry_of id es ≡ some e
    → has_unique_id serial e ≡ true
    → x.unique_id ≡ some serial
    → shares x es ≡ true
unfolding entry_of shares
shares_of_found id serial x e [] found own u = cc
shares_of_found id serial x e (o ∷ es) found own u = elim (Bool-cases (text_eq o.entry_id id)) [
  | inl here ↦
      let o_is_e : o ≡ e = ground (arith, found, here) in
      let shared : has_unique_id serial o ≡ true = ap (has_unique_id serial) o_is_e ∙ own in
      ground (arith, u, shared)
  | inr later ↦
      ground (arith, shares_of_found id serial x e es (ground (arith, found, later)) own u)
]

-- An entry that is found by its id is alone with its serial, among entries that are apart.
pub not_taken :
    (id serial : Text) (e : ConfigEntry) (es : List ConfigEntry)
    → entry_of id es ≡ some e
    → are_apart es ≡ true
    → has_unique_id serial e ≡ true
    → serial_taken_by_other_entry e serial es ≡ false
unfolding entry_of are_apart serial_taken_by_other_entry
not_taken id serial e [] found apart own = cc
not_taken id serial e (x ∷ es) found apart own = elim (Bool-cases (text_eq x.entry_id id)) [
  | inl here ↦
      let x_is_e : x ≡ e = ground (arith, found, here) in
      let alone : shares e es ≡ false =
        ap (λ z. shares z es) (sym x_is_e) ∙ ground (arith, apart) in
      let itself : text_eq x.entry_id e.entry_id ≡ true = rw x_is_e (text_eq_refl e.entry_id) in
      rw itself (taken_of_shares serial e es (unique_id_of serial e own) alone)
  | inr later ↦
      let found' : entry_of id es ≡ some e = ground (arith, found, later) in
      let unlike : has_unique_id serial x ≡ false = elim (Bool-cases (has_unique_id serial x)) [
        | inr other ↦ other
        | inl equal ↦
            let shared =
              shares_of_found id serial x e es found' own (unique_id_of serial x equal) in
            ground (arith, shared, apart)
      ] in
      ground (arith, unlike, not_taken id serial e es found' (ground (arith, apart)) own)
]

-- The branches of `check_identity`, by their tests.
abbrev setup_answer :
    Bool
    → Bool
    → Bool
    → Text
    → Text
    → Text
    → Installation
    → Installation
    → Option SetupError × Installation
setup_answer own awaits taken wrong found twice h h' =
    if not own || awaits
    then if not awaits
      then (some (wrong_charger wrong found), h)
      else if taken
      then (some (duplicate_device twice), h)
      else (none, h')
    else (none, h)

refusals :
    (own awaits taken : Bool) (wrong found twice : Text) (h h' : Installation)
    → (own ≡ true → taken ≡ false)
    → (if not awaits && not own
        then some (codes "wrong_device")
        else if taken
        then some (codes "charger_has_entry")
        else none)
      ≡ form_key (setup_answer own awaits taken wrong found twice h h').0
refusals true awaits true wrong found twice h h' single = cc (single refl)
refusals true true false wrong found twice h h' single = refl
refusals true false false wrong found twice h h' single = refl
refusals false true true wrong found twice h h' single = refl
refusals false true false wrong found twice h h' single = refl
refusals false false taken wrong found twice h h' single = refl

-- Unless its charger has another entry besides, the form and the setup refuse the entry alike.
identity_error-check_identity :
    (serial : Text) (e : ConfigEntry) (h : Installation)
    → (has_unique_id serial e ≡ true → serial_taken_by_other_entry e serial h.entries ≡ false)
    → identity_error e serial h.entries ≡ form_key (check_identity e serial h).0
unfolding check_identity adopt_serial identity_error
identity_error-check_identity serial e h single =
    refusals (has_unique_id serial e) (awaits_serial e)
      (serial_taken_by_other_entry e serial h.entries) _ _ _ h _ single

taken-update_entry :
    (e e' : ConfigEntry) (serial : Text) (es : List ConfigEntry)
    → e'.entry_id ≡ e.entry_id
    → serial_taken_by_other_entry e' serial (update_entry e' es)
      ≡ serial_taken_by_other_entry e serial es
unfolding serial_taken_by_other_entry update_entry
taken-update_entry e e' serial [] i = refl
taken-update_entry e e' serial (o ∷ es) i =
    let rest = taken-update_entry e e' serial es i in
    elim (Bool-cases (text_eq o.entry_id e'.entry_id)) [
      | inl same ↦
          let counted : text_eq o.entry_id e.entry_id ≡ true = rw (sym i) same in
          rw (same, text_eq_refl, counted) rest
      | inr other ↦
          let counted : text_eq o.entry_id e.entry_id ≡ false = rw (sym i) other in
          rw (other, other, counted) (ap (λ b. has_unique_id serial o || b) rest)
    ]

-- The home in which an entry has been rewritten.
abbrev pub with_entry : ConfigEntry → Home → Home
with_entry e' h = set_entries (update_entry e' h.installation.entries) h

-- What a form for an entry answers: it rewrites the entry, or shows itself again.
abbrev pub answer_by : Option Text → Text → ConfigEntry → Home → FlowResult × Home
answer_by none step e' h = (updated e', schedule_reload e'.entry_id (with_entry e' h))
answer_by (some key) step e' h = (show_form step (some (codes "base", key)), h)

-- The answer that follows the setup of the rewritten entry.
unfoldable pub setup_decides : Text → ConfigEntry → Text → Home → FlowResult × Home
setup_decides step e' serial h =
    answer_by (form_key (check_identity e' serial (with_entry e' h).installation).0) step e' h

-- The branches of `_identity_error`, by their tests.
abbrev refusal_key : Bool → Bool → Bool → Option Text
refusal_key awaits own taken =
    if not awaits && not own
    then some (codes "wrong_device")
    else if taken
    then some (codes "charger_has_entry")
    else none

has_unique_id_same :
    (serial : Text) (e e' : ConfigEntry)
    → e'.unique_id ≡ e.unique_id
    → has_unique_id serial e' ≡ has_unique_id serial e
unfolding has_unique_id
has_unique_id_same serial e e' u =
    ap (λ (o : Option Text). elim o [ some v ↦ text_eq v serial | none ↦ false ]) u

identity_error-with_entry :
    (e e' : ConfigEntry) (serial : Text) (h : Home)
    → e'.entry_id ≡ e.entry_id
    → e'.unique_id ≡ e.unique_id
    → awaits_serial e' ≡ awaits_serial e
    → identity_error e' serial (entries (with_entry e' h)) ≡ identity_error e serial (entries h)
unfolding identity_error set_entries
identity_error-with_entry e e' serial h i u w =
    ap
      (λ a.
        refusal_key a (has_unique_id serial e')
          (serial_taken_by_other_entry e' serial (update_entry e' (entries h))))
      w
    ∙ ap
        (λ o.
          refusal_key (awaits_serial e) o
            (serial_taken_by_other_entry e' serial (update_entry e' (entries h))))
        (has_unique_id_same serial e e' u)
    ∙ ap (refusal_key (awaits_serial e) (has_unique_id serial e))
        (taken-update_entry e e' serial (entries h) i)

module _ (step : Text) (change : ConfigEntry → ConfigEntry) (id serial : Text) (e : ConfigEntry)
    (h : Home) where
  refusal-finish_for :
      (refusal : Option SetupError)
      → entry_of id (entries h) ≡ some e
      → identity_error e serial (entries h) ≡ form_key refusal
      → finish_for step change id (no_errors serial) h
        ≡ answer_by (form_key refusal) step (change e) h
  unfolding finish_for validate_for finish update_and_reload
  refusal-finish_for none found agreed = rw (finish_for, found, validate_for, agreed) refl
  refusal-finish_for (some (wrong_charger _ _)) found agreed =
      rw (finish_for, found, validate_for, agreed) refl
  refusal-finish_for (some (duplicate_device _)) found agreed =
      rw (finish_for, found, validate_for, agreed) refl

  pub finish_for_lem :
      entry_of id (entries h) ≡ some e
      → are_apart (entries h) ≡ true
      → (change e).entry_id ≡ e.entry_id
      → (change e).unique_id ≡ e.unique_id
      → awaits_serial (change e) ≡ awaits_serial e
      → finish_for step change id (no_errors serial) h ≡ setup_decides step (change e) serial h
  unfolding setup_decides set_entries
  finish_for_lem found apart i u w =
      let same = identity_error-with_entry e (change e) serial h i u w in
      let single = λ (own : has_unique_id serial (change e) ≡ true).
        taken-update_entry e (change e) serial (entries h) i
        ∙ not_taken id serial e (entries h) found apart
            (sym (has_unique_id_same serial e (change e) u) ∙ own) in
      refusal-finish_for (check_identity (change e) serial (with_entry (change e) h).installation).0
        found
        (sym same
          ∙ identity_error-check_identity serial (change e) (with_entry (change e) h).installation
              single)

-- Whatever serial the probe reports, the form for a new address and the form for a new password accept
-- the charger, and rewrite and reload the entry, exactly if the setup of the entry as it is rewritten
-- takes that charger; otherwise they show that setup's refusal, of another charger or of one that has
-- an entry, and change nothing; given entries with ids and serials of their own.
pub reconfigure-check_identity :
    (id host password serial : Text) (e : ConfigEntry) (h : Home)
    → entry_of id (entries h) ≡ some e
    → are_apart (entries h) ≡ true
    → (reconfigure id host password (no_errors serial) h
        ≡ setup_decides (codes "reconfigure") (reconfigured host password e) serial h)
      × (reauth_confirm id password (no_errors serial) h
          ≡ setup_decides (codes "reauth_confirm") (with_password password e) serial h)
unfolding reconfigure reauth_confirm reconfigured with_password
reconfigure-check_identity id host password serial e h found apart = (
  finish_for_lem (codes "reconfigure") (reconfigured host password) id serial e h found apart refl
      refl (awaits_serial-reconfigured host password e),
  finish_for_lem (codes "reauth_confirm") (with_password password) id serial e h found apart refl
      refl (awaits_serial-with_password password e),
)
