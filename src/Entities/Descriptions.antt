-- ===== src/Entities/Descriptions.antt =====
-- The description records of custom_components/wattpilot/descriptions.py, with the fields that the
-- code reads, and the filters that choose the entities of a charger.
use ha_wattpilot.Base.{
  Bool, true, false, not, ◌&&◌, Option, none, some, List, [], ◌∷◌, Text, codes, text_eq, take, drop,
  length, if◌then◌else◌,
}
use ha_wattpilot.Json.{Dict, has}

-- `WattpilotDescriptionMixin`, with the key that every description has.
pub record Description : Type 0 where
  pub key : Text
  pub charger_key : Text
  pub uid : Option Text
  pub firmware : Option Text
  pub variant : Option Text
  pub requires_property : Bool
  pub companion_key : Option Text

abbrev pub described : Text → Text → Description
described key charger_key = record {
  key = key;
  charger_key = charger_key;
  uid = none;
  firmware = none;
  variant = none;
  requires_property = true;
  companion_key = none;
}

-- `uid_suffix`: an empty `uid` counts as none.
unfoldable pub uid_suffix : Description → Text
uid_suffix d = elim d.uid [ some (c ∷ s) ↦ c ∷ s | _ ↦ d.charger_key ]

-- The operators of `_COMPARATORS`.
pub data Comparator : Type 0 where
  at_most at_least equal_to less_than more_than : Comparator

-- `packaging.version`: how a text is read, `none` being an InvalidVersion, and its comparisons.
pub record Packaging (V : Type 0) : Type 0 where
  pub parse : Text → Option V
  pub compares : Comparator → V → V → Bool

unfoldable pub starts_with : Text → Text → Bool
starts_with prefix s = text_eq (take (length prefix) s) prefix

-- The operators in the order of `_PREFIX_ORDER`, the longer ones first.
unfoldable pub prefix_order : List (Text × Comparator)
prefix_order =
    (codes "<=", at_most)
    ∷ (codes ">=", at_least)
    ∷ (codes "==", equal_to)
    ∷ (codes "<", less_than)
    ∷ (codes ">", more_than)
    ∷ []

-- The operator that a constraint starts with, and the rest of it.
unfoldable pub matched_operator : Text → List (Text × Comparator) → Option (Comparator × Text)
unfolding starts_with
matched_operator constraint [] = none
matched_operator constraint ((prefix, op) ∷ ops) =
    let rest = matched_operator constraint ops in
    if starts_with prefix constraint then some (op, drop (length prefix) constraint) else rest

unfoldable pub variant_supported : Option Text → Option Text → Bool
variant_supported current none = true
variant_supported none (some v) = false
variant_supported (some c) (some v) = text_eq c v

-- `_properties_present`
unfoldable pub properties_present : Description → Dict → Bool
properties_present d properties =
    if not d.requires_property
    then true
    else has d.charger_key properties
      && (elim d.companion_key [ some k ↦ has k properties | none ↦ true ])

module _ {V : Type 0} (py : Packaging V) where
  unfoldable pub firmware_supported : Option Text → Option Text → Bool
  unfolding matched_operator prefix_order
  firmware_supported current none = true
  firmware_supported none (some c) = false
  firmware_supported (some current) (some c) = elim (matched_operator c prefix_order) [
    | none ↦ false
    | some (op, version) ↦ elim (py.parse current) [
      | none ↦ false
      | some v ↦ elim (py.parse version) [ none ↦ false | some w ↦ py.compares op v w ]
    ]
  ]

  -- What a charger has to say for an entity to be made.
  unfoldable pub is_supported : Option Text → Option Text → Dict → Description → Bool
  unfolding firmware_supported variant_supported properties_present
  is_supported firmware variant properties d =
      firmware_supported firmware d.firmware
      && (variant_supported variant d.variant && properties_present d properties)

  -- `filter_supported`, on descriptions of any platform; the variant is `str` of what the charger
  -- reports, if it reports one.
  unfoldable pub filter_supported :
      {D : Type 0} → (D → Description) → Option Text → Option Text → Dict → List D → List D
  unfolding is_supported
  filter_supported common firmware variant properties [] = []
  filter_supported common firmware variant properties (d ∷ ds) =
      let rest = filter_supported common firmware variant properties ds in
      if is_supported firmware variant properties (common d) then d ∷ rest else rest
