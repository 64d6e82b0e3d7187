-- ===== src/Setup/Migrate.antt =====
-- `async_migrate_entry`: the data of an entry of the fork, which had version 1.
use ha_wattpilot.Base.{ℕ, true, Option, none, some, List, Text, codes, ltb, ◌==◌, if◌then◌else◌}
use ha_wattpilot.Json.{Value, null, bool, text, Dict, end, entry, get, get_else}
use ha_wattpilot.Entries.{ConfigEntry, is_value, new_device_name}

-- An entry as it is after the migration, at version 2; or why there is none: a version from the
-- future, a KeyError, or no end to the search for a name.
pub data Migrated : Type 0 where
  migrated : ConfigEntry → Migrated
  unsupported missing_key unnamed : Migrated

-- `new_data` of a local entry, but for the name.
unfoldable pub local_data : Value → Value → Dict
local_data host password = entry (codes "connection_type") (text (codes "local")) (
    entry (codes "host") host
      (entry (codes "password") password (entry (codes "awaiting_serial") (bool true) end)))

-- `new_data` of a cloud entry, but for the name.
unfoldable pub cloud_data : Value → Value → Dict
cloud_data serial password =
    entry (codes "connection_type") (text (codes "cloud"))
      (entry (codes "serial") serial (entry (codes "password") password end))

-- The data with one more key at its end.
unfoldable pub and_name : Text → Dict → Dict
and_name name end = entry (codes "name") (text name) end
and_name name (entry k v d) = entry k v (and_name name d)

-- `old.get("friendly_name")`, which is a text in the fork's data.
unfoldable pub preferred_name : ConfigEntry → Option Text
preferred_name e = elim (get (codes "friendly_name") e.options) [
  | some (text s) ↦ some s
  | _ ↦ none
]

-- The last key of the new data, and the update of the entry.
unfoldable pub named_entry : ConfigEntry → List ConfigEntry → Dict → Migrated
unfolding and_name new_device_name preferred_name
named_entry e es new_data = elim (new_device_name (preferred_name e) (some e.entry_id) es) [
  | some name ↦ migrated (record e { options = and_name name new_data })
  | none ↦ unnamed
]

abbrev both : Option Value → Option Value → (Value → Value → Dict) → Option Dict
both (some a) (some b) f = some (f a b)
both _ _ f = none

-- `new_data`, unless a key is missing.
unfoldable pub new_data_of : Dict → Option Dict
unfolding local_data cloud_data
new_data_of old =
    if is_value (codes "cloud") (get_else (codes "connection") null old)
    then both (get (codes "serial") old) (get (codes "password") old) cloud_data
    else both (get (codes "ip_address") old) (get (codes "password") old) local_data

-- `async_migrate_entry`, of an entry with this version.
unfoldable pub migrate_entry : ℕ → ConfigEntry → List ConfigEntry → Migrated
unfolding new_data_of named_entry
migrate_entry version e es =
    if ltb 2 version
    then unsupported
    else if version == 1
    then (elim (new_data_of e.options) [
      | some new_data ↦ named_entry e es new_data
      | none ↦ missing_key
    ])
    else migrated e
