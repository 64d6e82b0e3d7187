-- ===== src/Flow/Adding.antt =====
-- What becomes of a charger that is added by hand or from its card.
use ha_wattpilot.Base.{
  ◌≡◌, if◌then◌else◌, codes, refl, true, false, none, some, List, [], ◌∷◌, ◌++◌, arith, Text,
  text_eq, text_eq_refl,
}
use ha_wattpilot.Json.{get, truthy}
use ha_wattpilot.Entries.{ConfigEntry, has_unique_id, awaits_serial, is_in, names_taken, is_value}
use ha_wattpilot.Entries.Names.{new_device_name_free}
use ha_wattpilot.Setup.{Installation, entry_of, check_identity}
use ha_wattpilot.Flow.State.{Home, Manager, entries, FlowResult, created, aborted, entry_with}
use ha_wattpilot.Flow.Probe.{no_errors}
use ha_wattpilot.Flow.Steps.{new_entry, create_local_entry, step_zeroconf_confirm, in_retry}
use ha_wattpilot.Flow.Changes.{Knows}
use ha_wattpilot.Flow.Creates.{shares-new, entry_with-configured}

entry_of-last :
    (id : Text) (e : ConfigEntry) (es : List ConfigEntry)
    → entry_of id es ≡ none
    → text_eq e.entry_id id ≡ true
    → entry_of id (es ++ e ∷ []) ≡ some e
unfolding entry_of
entry_of-last id e [] missing itself = rw itself refl
entry_of-last id e (o ∷ es) missing itself = ground (arith, missing, entry_of-last id e es)

-- A flow has ended with an entry for this charger at this address: it has a name that no other entry
-- has, knows the serial among the entries from then on, and its first setup accepts the charger.
pub record IsAdded (id serial host password : Text) (before : Home) (result : FlowResult) (h : Home)
    : Type 0 where
  pub name : Text
  pub ended : result ≡ created (new_entry id serial name host password)
  pub unused : is_in name (names_taken none (entries before)) ≡ false
  pub knows : Knows id serial (entries h)
  pub set_up :
      check_identity (new_entry id serial name host password) serial h.installation
      ≡ (none, h.installation)

module _ (id serial name host password : Text) where
  new_entry-settled : awaits_serial (new_entry id serial name host password) ≡ false
  unfolding awaits_serial new_entry get text_eq truthy is_value
  new_entry-settled = refl

  check_identity-new_entry :
      (h : Installation)
      → check_identity (new_entry id serial name host password) serial h ≡ (none, h)
  unfolding has_unique_id new_entry check_identity
  check_identity-new_entry h =
      let own : has_unique_id serial (new_entry id serial name host password) ≡ true =
        text_eq_refl serial in
      rw (check_identity, own, new_entry-settled) refl

module _ (m : Manager) (id serial host password : Text) (h : Home) where
  create_local_entry-IsAdded :
      entry_of id (entries h) ≡ none
      → entry_with serial (entries h) ≡ none
      → IsAdded id serial host password h
          (create_local_entry m id serial host password h).0
          (create_local_entry m id serial host password h).1
  unfolding new_entry create_local_entry
  create_local_entry-IsAdded new free =
      let (name, named, unused, _) = new_device_name_free none none (entries h) in
      let e = new_entry id serial name host password in
      let alone = shares-new e serial (entries h) refl new free in
      let later = m.add_lem e h.installation alone in
      rw (create_local_entry, named)
        (record {
          name = name;
          ended = refl;
          unused = unused;
          knows = record {
            keeper = e;
            found = rw later (entry_of-last id e (entries h) new (text_eq_refl id));
            serial_known = refl;
            settled = new_entry-settled id serial name host password;
          };
          set_up = check_identity-new_entry id serial name host password (m.add e h.installation);
        })

  step_zeroconf_confirm-IsAdded :
      entry_of id (entries h) ≡ none
      → m.configured false serial h.installation ≡ false
      → IsAdded id serial host password h
          (step_zeroconf_confirm m serial host id password (no_errors serial) h).0
          (step_zeroconf_confirm m serial host id password (no_errors serial) h).1
  unfolding step_zeroconf_confirm
  step_zeroconf_confirm-IsAdded new free =
      rw (text_eq_refl serial, free)
        (create_local_entry-IsAdded new (entry_with-configured m false serial h.installation free))

-- The flow has ended for an entry that awaits its serial at this address: it is reloaded now if it was
-- waiting for a retry, and nothing else changes.
pub record IsLeftTo (e : ConfigEntry) (before : Home) (result : FlowResult) (h : Home)
    : Type 0 where
  pub ended : result ≡ aborted (codes "already_configured")
  pub kept : entries h ≡ entries before
  pub reloaded :
      h.reloads
      ≡ (if in_retry (before.state e.entry_id) then e.entry_id ∷ before.reloads else before.reloads)
