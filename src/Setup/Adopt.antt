-- ===== src/Setup/Adopt.antt =====
-- `_adopt_serial`, and the part of `_finish_setup` that decides on the identity of an entry.
use ha_wattpilot.Base.{
  not, ◌||◌, Option, none, some, List, [], ◌∷◌, Text, codes, text_eq, if◌then◌else◌,
}
use ha_wattpilot.Json.{Dict, end, entry}
use ha_wattpilot.Api.Errors.{mask_serial}
use ha_wattpilot.Entries.{ConfigEntry, has_unique_id, awaits_serial, serial_taken_by_other_entry}

-- What Home Assistant keeps of the integration: its entries, the unique ids of its ignored cards and
-- the serials that its open discovery cards offer.
pub record Installation : Type 0 where
  pub entries : List ConfigEntry
  pub ignored : List Text
  pub cards : List Text

pub data SetupError : Type 0 where
  wrong_charger : Text → Text → SetupError
  duplicate_device : Text → SetupError

-- `{key: value for key, value in data.items() if key != name}`
unfoldable pub without_key : Text → Dict → Dict
without_key name end = end
without_key name (entry k v d) =
    let rest = without_key name d in if text_eq k name then rest else entry k v rest

-- The serials but this one.
unfoldable pub without_serial : Text → List Text → List Text
without_serial serial [] = []
without_serial serial (s ∷ ss) =
    let rest = without_serial serial ss in if text_eq s serial then rest else s ∷ rest

-- `async_update_entry`
unfoldable pub update_entry : ConfigEntry → List ConfigEntry → List ConfigEntry
update_entry e [] = []
update_entry e (other ∷ es) =
    let rest = update_entry e es in
    if text_eq other.entry_id e.entry_id then e ∷ rest else other ∷ rest

unfoldable pub with_serial : Text → ConfigEntry → ConfigEntry
unfolding without_key
with_serial serial e = record e {
  unique_id = some serial;
  options = without_key (codes "awaiting_serial") e.options;
}

-- `_adopt_serial`: the error that ends the setup, or the entry's new identity.
unfoldable pub adopt_serial : ConfigEntry → Text → Installation → Option SetupError × Installation
unfolding awaits_serial serial_taken_by_other_entry update_entry with_serial without_serial
adopt_serial e serial h =
    if not (awaits_serial e)
    then (some (wrong_charger (mask_serial e.unique_id) (mask_serial (some serial))), h)
    else if serial_taken_by_other_entry e serial h.entries
    then (some (duplicate_device (mask_serial (some serial))), h)
    else (
      none,
      record {
        entries = update_entry (with_serial serial e) h.entries;
        ignored = without_serial serial h.ignored;
        cards = without_serial serial h.cards;
      },
    )

-- The start of `_finish_setup`, for a charger that reported this serial.
unfoldable pub check_identity : ConfigEntry → Text → Installation → Option SetupError × Installation
unfolding has_unique_id awaits_serial adopt_serial
check_identity e serial h =
    if not (has_unique_id serial e) || awaits_serial e then adopt_serial e serial h else (none, h)

unfoldable pub entry_of : Text → List ConfigEntry → Option ConfigEntry
entry_of id [] = none
entry_of id (e ∷ es) = if text_eq e.entry_id id then some e else entry_of id es

-- Setups one after another, each of the entry with this id, whose charger reported this serial.
unfoldable pub setup_run : List (Text × Text) → Installation → Installation
unfolding check_identity entry_of
setup_run [] h = h
setup_run ((id, serial) ∷ setups) h = elim (entry_of id h.entries) [
  | none ↦ setup_run setups h
  | some e ↦ setup_run setups (check_identity e serial h).1
]
