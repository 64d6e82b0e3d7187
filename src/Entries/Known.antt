-- ===== src/Entries/Known.antt =====
-- `_known_suffixes` and `_flat_chip_suffixes` of custom_components/wattpilot/registry_migration.py.
use ha_wattpilot.Base.{
  ℕ, Bool, true, false, not, ◌&&◌, ◌||◌, Option, none, some, List, [], ◌∷◌, ◌++◌, map, Text, codes,
  text_eq, if◌then◌else◌, ◌==◌, is_some,
}
use ha_wattpilot.Json.{Dict, has}
use ha_wattpilot.Entities.{
  uid_suffix, SensorDescription, SwitchDescription, NumberDescription, SelectDescription,
  ButtonDescription, sensor_descriptions, switch_descriptions, number_descriptions,
  select_descriptions, button_descriptions, time_descriptions, update_descriptions,
}
use ha_wattpilot.Entries.Registry.{SuffixMap}

-- The uid suffixes of all the tables that have an old counterpart, in their order.
unfoldable pub uid_suffixes : List Text
unfolding uid_suffix sensor_descriptions switch_descriptions number_descriptions select_descriptions
    button_descriptions time_descriptions update_descriptions
uid_suffixes =
    map (λ (d : SensorDescription). uid_suffix d.common) sensor_descriptions
    ++ (map (λ (d : SwitchDescription). uid_suffix d.common) switch_descriptions
        ++ (map (λ (d : NumberDescription). uid_suffix d.common) number_descriptions
            ++ (map (λ (d : SelectDescription). uid_suffix d.common) select_descriptions
                ++ (map (λ (d : ButtonDescription). uid_suffix d.common) button_descriptions
                    ++ (map uid_suffix time_descriptions ++ map uid_suffix update_descriptions)))))

-- `d[k] = v` on a dict of texts.
unfoldable pub put : Text → Text → SuffixMap → SuffixMap
put k v [] = (k, v) ∷ []
put k v ((j, w) ∷ m) = let rest = put k v m in if text_eq j k then (j, v) ∷ m else (j, w) ∷ rest

-- `m | other`
unfoldable pub merge : SuffixMap → SuffixMap → SuffixMap
unfolding put
merge m [] = m
merge m ((k, v) ∷ other) = merge (put k v m) other

-- `{suffix: suffix for suffix in suffixes}`
unfoldable pub same_suffixes : List Text → SuffixMap
same_suffixes [] = []
same_suffixes (s ∷ ss) = (s, s) ∷ same_suffixes ss

unfoldable pub suffix_aliases : SuffixMap
suffix_aliases =
    (codes "AccessState", codes "access_state") ∷ (codes "carConnected", codes "car_connected") ∷ []

-- `_VARIANT_22_SUFFIXES`, for a charger of that variant.
unfoldable pub variant_suffixes : Text → SuffixMap
variant_suffixes variant =
    if text_eq variant (codes "22") then (codes "amp", codes "amp_22kw") ∷ [] else []

abbrev same_index : Option ℕ → Option ℕ → Bool
same_index none none = true
same_index (some i) (some j) = i == j
same_index _ _ = false

-- `_FROM_CARD_LIST.get(index)`: of several descriptions with one index the last counts.
unfoldable pub from_card_list : Option ℕ → List SensorDescription → Option SensorDescription
from_card_list index [] = none
from_card_list index (d ∷ ds) =
    let rest = from_card_list index ds in
    elim rest [
      | some later ↦ some later
      | none ↦ if is_some d.cards_index && same_index d.chip_index index then some d else none
    ]

-- Whether the charger reports a list that the chips of `_FROM_CARD_LIST` are read from.
unfoldable pub reports_cards : Dict → List SensorDescription → Bool
reports_cards properties [] = false
reports_cards properties (d ∷ ds) =
    (is_some d.cards_index && has d.common.charger_key properties) || reports_cards properties ds

-- The twins among these descriptions whose own key the charger reports.
unfoldable pub twin_suffixes : List SensorDescription → Dict → List SensorDescription → SuffixMap
unfolding from_card_list uid_suffix
twin_suffixes table properties [] = []
twin_suffixes table properties (d ∷ ds) =
    let rest = twin_suffixes table properties ds in
    elim (from_card_list d.chip_index table) [
      | none ↦ rest
      | some listed ↦
          if not (is_some d.cards_index) && has d.common.charger_key properties
          then (uid_suffix listed.common, uid_suffix d.common) ∷ rest
          else rest
    ]

unfoldable pub flat_chip_suffixes : Dict → SuffixMap
unfolding reports_cards twin_suffixes sensor_descriptions
flat_chip_suffixes properties =
    if reports_cards properties sensor_descriptions
    then []
    else twin_suffixes sensor_descriptions properties sensor_descriptions

-- `_known_suffixes`, given `str` of the variant.
unfoldable pub known_suffixes : Text → Dict → SuffixMap
unfolding merge same_suffixes uid_suffixes suffix_aliases variant_suffixes flat_chip_suffixes
known_suffixes variant properties =
    merge
      (merge (merge (merge [] (same_suffixes uid_suffixes)) suffix_aliases)
        (variant_suffixes variant))
      (flat_chip_suffixes properties)
