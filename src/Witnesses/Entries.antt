-- ===== src/Witnesses/Entries.antt =====
-- Concrete inputs for the theorems on the hub, the entries and the registry.
use ha_wattpilot.Base.{
  ℕ, ◌≡◌, refl, Bool, true, false, Option, none, some, List, [], ◌∷◌, ◌⊎◌, ◌↔◌, ltb, text_eq, Text,
  codes, All, length, pos, ◌==◌, ◌≤◌,
}
use ha_wattpilot.Json.{Value, list, nil, cons, int, text, end, entry}
use ha_wattpilot.Api.Connection.{new_connection}
use ha_wattpilot.Api.Client.{Wattpilot, new_client}
use ha_wattpilot.Hub.{
  asks_for_password, asks_to_retry, connect_error, Hub, HubEvent, new_hub, start_dispatch, hub_run,
  flush_pending, shutdown_begin, is_available, pushed, flush_due, check_due, connecting_began,
  connecting_ended, reconnecting_began, disconnecting_ended,
}
use ha_wattpilot.Hub.Announce.{IsAnnounced, new_hub-run-IsAnnounced}
use ha_wattpilot.Hub.Deliver.{
  IsForwarding, heard, current, last_pushed, tears_down, hub_run-flush_pending-heard,
}
use ha_wattpilot.Hub.Retire.{IsRetired, sets_up, shutdown_begin-run-IsRetired}
use ha_wattpilot.Update.{Versions, UpdateEvent, added, versions_pushed, installed_pushed}
use ha_wattpilot.Entries.{
  ConfigEntry, SuffixMap, RegistryEntry, new_device_name, names_taken, is_in, match_legacy_suffix,
  migrate_legacy_unique_ids, ids_in_use,
}
use ha_wattpilot.Entries.Names.{IsNamed, new_device_name_free}
use ha_wattpilot.Entries.Suffixes.{
  AreFresh, fits, names_of, match_legacy_suffix_longest, migrate_legacy_unique_ids_fresh,
}

abbrev charger : Wattpilot
charger = new_connection true 10 600 (new_client (codes "secret") none)

-- A hub that holds pushes back for five seconds.
abbrev forwarding : Hub
forwarding = start_dispatch (new_hub 5)

forwarding-IsForwarding : IsForwarding forwarding
unfolding start_dispatch new_hub ha_wattpilot.Hub.Deliver.is_distinct
forwarding-IsForwarding = record { forwards = refl; distinct = refl; direct = λ e. refl }

-- The current rises while the hub waits, and the charger goes away meanwhile.
abbrev pushes : List HubEvent
pushes =
    connecting_ended true
    ∷ pushed charger (codes "amp") (int (pos 6))
    ∷ pushed charger (codes "amp") (int (pos 16))
    ∷ check_due true charger
    ∷ reconnecting_began
    ∷ []

pushes_going : All (λ e. tears_down e ≡ false) pushes
pushes_going = (refl, (refl, (refl, (refl, (refl, tt)))))

hub_run-flush_pending-heard_example :
    heard (codes "amp") (flush_pending (hub_run pushes forwarding)).signals
    ≡ last_pushed (codes "amp") pushes (current (codes "amp") forwarding)
hub_run-flush_pending-heard_example =
    hub_run-flush_pending-heard (codes "amp") pushes forwarding pushes_going forwarding-IsForwarding

new_hub-run-IsAnnounced_example : IsAnnounced (hub_run pushes (new_hub 0))
new_hub-run-IsAnnounced_example = new_hub-run-IsAnnounced 0 pushes

pushes_late : All (λ e. sets_up e ≡ false) pushes
pushes_late = (refl, (refl, (refl, (refl, (refl, tt)))))

shutdown_begin-run-IsRetired_example :
    IsRetired (λ k. heard k forwarding.signals) (hub_run pushes (shutdown_begin forwarding))
    × (is_available charger (hub_run pushes (shutdown_begin forwarding)) ≡ false)
shutdown_begin-run-IsRetired_example =
    shutdown_begin-run-IsRetired pushes forwarding charger pushes_late

abbrev suffixes : SuffixMap
suffixes =
    (codes "amp", codes "amp")
    ∷ (codes "AccessState", codes "access_state")
    ∷ (codes "box-amp", codes "box_amp")
    ∷ []

match_legacy_suffix_longest_example :
    ((s : Text)
      → match_legacy_suffix (codes "My-box-amp") suffixes ≡ some s
      → (fits (codes "My-box-amp") (names_of suffixes) s ≡ true)
        × ((u : Text)
            → fits (codes "My-box-amp") (names_of suffixes) u ≡ true
            → length u ≤ length s))
    × (match_legacy_suffix (codes "My-box-amp") suffixes ≡ none
        → (u : Text) → fits (codes "My-box-amp") (names_of suffixes) u ≡ false)
match_legacy_suffix_longest_example = match_legacy_suffix_longest (codes "My-box-amp") suffixes

-- A run: the longer suffix wins.
longer_wins : match_legacy_suffix (codes "My-box-amp") suffixes ≡ some (codes "box-amp")
unfolding match_legacy_suffix ha_wattpilot.Entries.sort_by_length ha_wattpilot.Entries.first_suffix
    ha_wattpilot.Entries.ends_with ha_wattpilot.Base.text_eq
longer_wins = refl

abbrev entities : List RegistryEntry
entities =
    record { entity_id = codes "number.a"; domain = codes "number"; unique_id = codes "Box-amp" }
    ∷ record { entity_id = codes "number.b"; domain = codes "number"; unique_id = codes "Car-amp" }
    ∷ []

migrate_legacy_unique_ids_fresh_example :
    AreFresh
      (migrate_legacy_unique_ids (codes "91012345") suffixes entities).0
      (ids_in_use entities)
migrate_legacy_unique_ids_fresh_example =
    migrate_legacy_unique_ids_fresh (codes "91012345") suffixes entities

abbrev neighbours : List ConfigEntry
neighbours =
    record {
      entry_id = codes "a";
      unique_id = some (codes "91012345");
      title = codes "Wattpilot";
      options = entry (codes "name") (text (codes "Wattpilot 2")) end;
    }
    ∷ []

new_device_name_free_example :
    (name : Text) × (new_device_name (some (codes "Wattpilot")) none neighbours ≡ some name)
    × (is_in name (names_taken none neighbours) ≡ false)
    × IsNamed (some (codes "Wattpilot")) (names_taken none neighbours) name
new_device_name_free_example = new_device_name_free (some (codes "Wattpilot")) none neighbours

-- A library that reads a version as the length of its text.
abbrev by_length : Versions ℕ
by_length = record { parse = λ s. some (length s); is_older = ltb }

abbrev offer : Value
offer = list (cons (text (codes "42.5")) (cons (text (codes "43.5.1")) nil))

-- The entity is added before the charger has sent anything, and the charger then reports both.
abbrev versions_come : List UpdateEvent
versions_come =
    added none none
    ∷ installed_pushed (some (codes "42.5"))
    ∷ versions_pushed (some (codes "42.5")) offer
    ∷ []
