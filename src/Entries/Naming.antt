-- ===== src/Entries/Naming.antt =====
-- custom_components/wattpilot/const.py. The entries are those that `async_entries` gives, in its
-- order, without the ignored ones.
use ha_wattpilot.Base.{
  ℕ, zero, suc, Bool, false, not, ◌&&◌, ◌||◌, Option, none, some, List, [], ◌∷◌, ◌++◌, length, Text,
  codes, text_eq, if◌then◌else◌, is_some, show_nat, ◌==◌,
}
use ha_wattpilot.Json.{Value, null, text, Dict, get_else, truthy}

pub record ConfigEntry : Type 0 where
  pub entry_id : Text
  pub unique_id : Option Text
  pub title : Text
  -- `entry.data`
  pub options : Dict

-- `value == s` for a text s.
unfoldable pub is_value : Text → Value → Bool
is_value s (text t) = text_eq t s
is_value s _ = false

unfoldable pub has_unique_id : Text → ConfigEntry → Bool
has_unique_id serial e = elim e.unique_id [ some u ↦ text_eq u serial | none ↦ false ]

unfoldable pub awaits_serial : ConfigEntry → Bool
unfolding is_value
awaits_serial e =
    not (is_some e.unique_id)
    || (truthy (get_else (codes "awaiting_serial") null e.options)
        || is_value (codes "cloud") (get_else (codes "connection_type") null e.options))

-- `entry_awaiting_serial_at`
unfoldable pub entry_awaiting_serial_at : Text → List ConfigEntry → Option ConfigEntry
unfolding awaits_serial is_value
entry_awaiting_serial_at host [] = none
entry_awaiting_serial_at host (e ∷ es) =
    let rest = entry_awaiting_serial_at host es in
    if awaits_serial e && is_value host (get_else (codes "host") null e.options)
    then some e
    else rest

-- `serial_taken_by_other_entry`
unfoldable pub serial_taken_by_other_entry : ConfigEntry → Text → List ConfigEntry → Bool
unfolding has_unique_id
serial_taken_by_other_entry e serial [] = false
serial_taken_by_other_entry e serial (other ∷ es) =
    (not (text_eq other.entry_id e.entry_id) && has_unique_id serial other)
    || serial_taken_by_other_entry e serial es

unfoldable pub is_in : Text → List Text → Bool
is_in s [] = false
is_in s (t ∷ ts) = text_eq t s || is_in s ts

-- `_names_taken`. A name that is no text equals no text, and is left out.
unfoldable pub name_of : ConfigEntry → List Text
name_of e = elim (get_else (codes "name") null e.options) [ text n ↦ n ∷ [] | _ ↦ [] ]

unfoldable pub names_taken : Option Text → List ConfigEntry → List Text
unfolding name_of
names_taken exclude [] = []
names_taken exclude (e ∷ es) =
    let rest = names_taken exclude es in
    if elim exclude [ some x ↦ text_eq e.entry_id x | none ↦ false ]
    then rest
    else e.title ∷ (name_of e ++ rest)

-- The name with a number, which the first charger goes without.
unfoldable pub numbered : ℕ → Text
numbered n = if n == 1 then codes "Wattpilot" else codes "Wattpilot " ++ show_nat n

-- The `while` of `new_device_name`, on fuel.
unfoldable pub free_name : ℕ → ℕ → List Text → Option Text
unfolding numbered is_in
free_name zero n taken = none
free_name (suc fuel) n taken =
    let rest = free_name fuel (suc n) taken in
    if is_in (numbered n) taken then rest else some (numbered n)

-- `new_device_name`, with one round for every name taken and one more.
unfoldable pub new_device_name : Option Text → Option Text → List ConfigEntry → Option Text
unfolding names_taken free_name is_in
new_device_name preferred exclude es =
    let taken = names_taken exclude es in
    let counted = free_name (suc (length taken)) 1 taken in
    elim preferred [
      | some (c ∷ s) ↦ if is_in (c ∷ s) taken then counted else some (c ∷ s)
      | _ ↦ counted
    ]
