-- ===== src/Flow/Refines.antt =====
-- That a setup and each step of a flow changes the entries in the ways of Flow/Changes.antt.
use ha_wattpilot.Base.{
  ◌≡◌, refl, ap, sym, ◌∙◌, List, true, false, none, some, [], ◌∷◌, arith, is_some, if◌then◌else◌,
  Text, codes, text_eq, text_eq_sound, Bool-cases, Option-cases, inl, inr,
}
use ha_wattpilot.Json.{text, bool, truthy, get, insert, get-insert}
use ha_wattpilot.Entries.{ConfigEntry, has_unique_id, awaits_serial, is_value}
use ha_wattpilot.Setup.{Installation, entry_of, setup_run}
use ha_wattpilot.Setup.Serials.{
  setup_run-missing, setup_run-found, entry_of-entry_id, check_identity-cases,
}
use ha_wattpilot.Flow.State.{Home, entries, with_host}
use ha_wattpilot.Flow.Probe.{Checked, no_errors, form_error, escaped, validate_for, identity_error}
use ha_wattpilot.Flow.Steps.{local_entry_data, with_password, reconfigured, finish, finish_for}
use ha_wattpilot.Flow.Changes.{Change, Moves, host_of, unchanged, adopted, rewritten}

awaits_serial-insert :
    (k : Text) (s : Text) (e : ConfigEntry)
    → text_eq k (codes "awaiting_serial") ≡ false
    → text_eq k (codes "connection_type") ≡ false
    → awaits_serial (record e { options = insert k (text s) e.options }) ≡ awaits_serial e
unfolding awaits_serial
awaits_serial-insert k s e a c = simp (get-insert, a, c) refl

pub awaits_serial-with_host :
    (host : Text) (e : ConfigEntry) → awaits_serial (with_host host e) ≡ awaits_serial e
unfolding with_host text_eq
awaits_serial-with_host host e = awaits_serial-insert (codes "host") host e refl refl

pub awaits_serial-with_password :
    (password : Text) (e : ConfigEntry) → awaits_serial (with_password password e) ≡ awaits_serial e
unfolding with_password text_eq
awaits_serial-with_password password e =
    awaits_serial-insert (codes "password") password e refl refl

module _ (host password : Text) (e : ConfigEntry) where
  get-local_entry_data :
      (get (codes "awaiting_serial") (local_entry_data e host password)
        ≡ (if awaits_serial e then some (bool true) else none))
      × (get (codes "connection_type") (local_entry_data e host password)
          ≡ some (text (codes "local")))
  unfolding local_entry_data get insert text_eq
  get-local_entry_data = ground (arith)

  is_some-unique_id : awaits_serial e ≡ false → is_some e.unique_id ≡ true
  unfolding awaits_serial
  is_some-unique_id h = ground (arith, h)

  pub awaits_serial-reconfigured : awaits_serial (reconfigured host password e) ≡ awaits_serial e
  unfolding reconfigured text_eq truthy is_value
  awaits_serial-reconfigured = elim (Bool-cases (awaits_serial e)) [
    | inl awaits ↦
        rw (awaits_serial, get-local_entry_data.0, get-local_entry_data.1, awaits) (ground (arith))
    | inr known ↦
        rw
          (
            awaits_serial,
            get-local_entry_data.0,
            get-local_entry_data.1,
            known,
            is_some-unique_id known,
          )
          refl
  ]

module _ {V : Text → Text → Type 0} where
  pub setup_run-Change :
      (id serial : Text) (h : Installation)
      → Change V h.entries (setup_run ((id, serial) ∷ []) h).entries
  unfolding setup_run
  setup_run-Change id serial h = elim (Option-cases (entry_of id h.entries)) [
    | inl missing ↦ rw (setup_run-missing id serial [] h missing) unchanged
    | inr (e, found) ↦
        rw (setup_run-found id serial [] h e found) (elim (check_identity-cases e serial h) [
          | inl same ↦ rw same unchanged
          | inr (awaits, free, updated) ↦
              let i = text_eq_sound e.entry_id id (entry_of-entry_id id h.entries e found) in
              rw updated (adopted e serial (ap (λ t. entry_of t h.entries) i ∙ found) awaits free)
        ])
  ]

module _ {V : Text → Text → Type 0} (step : Text) (change : ConfigEntry → ConfigEntry) (id : Text)
    (h : Home) where
  -- What the two forms for an entry do to it.
  pub finish_for-Change :
      (checked : Checked)
      → ((e : ConfigEntry) → (change e).entry_id ≡ e.entry_id)
      → ((e : ConfigEntry) → (change e).unique_id ≡ e.unique_id)
      → ((e : ConfigEntry) → awaits_serial (change e) ≡ awaits_serial e)
      → ((e : ConfigEntry) (serial : Text)
          → checked ≡ no_errors serial
          → identity_error e serial (entries h) ≡ none
          → Moves V e (change e))
      → Change V (entries h) (entries (finish_for step change id checked h).1)
  unfolding finish finish_for validate_for
  finish_for-Change checked i u w v = elim (Option-cases (entry_of id (entries h))) [
    | inl missing ↦ rw (finish_for, missing) unchanged
    | inr (e, found) ↦ rw (finish_for, found) (after e found checked refl)
  ]
    where
      after :
          (e : ConfigEntry)
          → entry_of id (entries h) ≡ some e
          → (c : Checked) → checked ≡ c
          → Change V
              (entries h)
              (entries (finish step (change e) (validate_for e c (entries h)) h).1)
      after e found (no_errors serial) ended =
          elim (Option-cases (identity_error e serial (entries h))) [
            | inr (key, refused) ↦ rw (validate_for, refused) unchanged
            | inl accepted ↦
                let j = text_eq_sound e.entry_id id (entry_of-entry_id id (entries h) e found) in
                let there = ap (λ t. entry_of t (entries h)) j ∙ found in
                rw (validate_for, accepted)
                  (rewritten e (change e) there (i e) (u e) (w e) (v e serial ended accepted))
          ]
      after e found (form_error field key) ended = unchanged
      after e found (escaped x) ended = unchanged

pub unique_id_of :
    (serial : Text) (e : ConfigEntry) → has_unique_id serial e ≡ true → e.unique_id ≡ some serial
unfolding has_unique_id
unique_id_of serial e own = elim (Option-cases e.unique_id) [
  | inl missing ↦ ground (arith, own, missing)
  | inr (u, given) ↦
      let equal : text_eq u serial ≡ true = ground (arith, own, given) in
      given ∙ ap some (text_eq_sound u serial equal)
]

-- An entry that knows its serial and is accepted has the serial that the probe found.
has_unique_id-accepted :
    (e : ConfigEntry) (serial : Text) (es : List ConfigEntry)
    → identity_error e serial es ≡ none
    → awaits_serial e ≡ false
    → has_unique_id serial e ≡ true
unfolding identity_error
has_unique_id-accepted e serial es accepted settled = ground (arith, accepted, settled)

host_of-reconfigured :
    (host password : Text) (e : ConfigEntry)
    → host_of (reconfigured host password e) ≡ some (text host)
unfolding reconfigured local_entry_data get insert text_eq
host_of-reconfigured host password e = ground (arith)

pub Moves-with_password :
    {V : Text → Text → Type 0} (password : Text) (e : ConfigEntry)
    → Moves V e (with_password password e)
unfolding with_password text_eq
Moves-with_password password e =
    inl (get-insert (codes "password") (codes "host") (text password) e.options)

pub Moves-reconfigured :
    (host password : Text) (checked : Checked) (e : ConfigEntry) (serial : Text)
    (es : List ConfigEntry)
    → checked ≡ no_errors serial
    → identity_error e serial es ≡ none
    → Moves (λ s t. (checked ≡ no_errors s) × (t ≡ host)) e (reconfigured host password e)
Moves-reconfigured host password checked e serial es ended accepted = inr (
  host,
  host_of-reconfigured host password e,
  λ s known settled.
      let own = unique_id_of serial e (has_unique_id-accepted e serial es accepted settled) in
      let both : some serial ≡ some s = sym own ∙ known in
      let one : serial ≡ s = cc in (ended ∙ ap no_errors one, refl),
)
