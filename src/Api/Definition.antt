-- ===== src/Api/Definition.antt =====
-- custom_components/wattpilot/api/definition.py: the check of the API definition, and its properties
-- by key.
pub mod Lookup
pub mod Writes
pub mod Loads
use ha_wattpilot.Base.{
  Bool, true, false, not, ◌&&◌, Option, none, some, List, [], ◌∷◌, Text, codes, if◌then◌else◌,
  is_some,
}
use ha_wattpilot.Json.{
  Value, null, bool, int, float, text, list, dict, namespace, Items, nil, cons, Dict, end, entry,
  get, has, insert,
}
use ha_wattpilot.Api.Client.{Raised, value_raised, Outcome, ok, raised}

-- `not isinstance(entry, dict) or "key" not in entry`, for none of them.
unfoldable pub all_keyed : Items → Bool
all_keyed nil = true
all_keyed (cons (dict d) vs) = has (codes "key") d && all_keyed vs
all_keyed (cons _ vs) = false

unfoldable pub list_at : Text → Dict → Option Items
list_at name config = elim (get name config) [ some (list vs) ↦ some vs | _ ↦ none ]

-- `validate_api_definition`, by the properties that the caller goes on with.
unfoldable pub validate_api_definition : Value → Outcome Items
unfolding all_keyed list_at
validate_api_definition (dict config) = elim (list_at (codes "messages") config) [
  | none ↦ raised (value_raised (codes "ValueError"))
  | some messages ↦ elim (list_at (codes "properties") config) [
    | none ↦ raised (value_raised (codes "ValueError"))
    | some properties ↦
        if all_keyed messages && all_keyed properties
        then ok properties
        else raised (value_raised (codes "ValueError"))
  ]
]
validate_api_definition _ = raised (value_raised (codes "TypeError"))

-- `_add_unique`
unfoldable pub add_unique : Text → Value → Dict → Dict
add_unique k v d = if has k d then d else insert k v d

-- Whether a value is no key of a dict.
abbrev pub is_unhashable : Value → Bool
is_unhashable (list _) = true
is_unhashable (dict _) = true
is_unhashable (namespace _) = true
is_unhashable _ = false

-- The loop of `load_api_definition`. A key that is no text is one that no property is looked up by.
unfoldable pub add_properties : Items → Dict → Outcome Dict
unfolding add_unique
add_properties nil d = ok d
add_properties (cons (dict p) vs) d = elim (get (codes "key") p) [
  | some (text k) ↦ add_properties vs (add_unique k (dict p) d)
  | some v ↦
      if is_unhashable v then raised (value_raised (codes "TypeError")) else add_properties vs d
  | none ↦ raised (value_raised (codes "KeyError"))
]
add_properties (cons _ vs) d = raised (value_raised (codes "TypeError"))

-- `load_api_definition`, from what the YAML file is parsed into.
unfoldable pub load_api_definition : Value → Outcome Dict
unfolding validate_api_definition add_properties
load_api_definition config = elim (validate_api_definition config) [
  | ok properties ↦ add_properties properties end
  | raised x ↦ raised x
]
