-- ===== src/Controls/Select.antt =====
-- The selects: their options, what is shown of a value, and what a choice writes.
use ha_wattpilot.Base.{
  Bool, true, false, not, ◌&&◌, ◌||◌, Option, none, some, List, [], ◌∷◌, ◌++◌, Text, codes, text_eq,
  if◌then◌else◌, ℤ, show_int, leb_ℤ, int_eq,
}
use ha_wattpilot.Json.{Value, null, int, text, list, items_to_list, Dict, get_else}
use ha_wattpilot.Entities.{
  Labels, NumberDescription, number_descriptions, SelectDescription, variant_supported,
}
use ha_wattpilot.Readings.{matching_label}

-- `_current_range`: the bounds of the first number of this property that fits the variant.
unfoldable pub current_range : Option Text → Text → List NumberDescription → Option (ℤ × ℤ)
unfolding variant_supported
current_range variant key [] = none
current_range variant key (d ∷ ds) =
    let rest = current_range variant key ds in
    if text_eq d.common.charger_key key && variant_supported variant d.common.variant
    then some (d.native_min_value, d.native_max_value)
    else rest

unfoldable pub is_preset : Option (ℤ × ℤ) → Value → Bool
is_preset (some (lowest, highest)) (int z) = leb_ℤ lowest z && leb_ℤ z highest
is_preset _ _ = false

-- Whether a key of these options is this number.
unfoldable pub offers : ℤ → Labels → Bool
offers z [] = false
offers z ((int y, label) ∷ options) = int_eq y z || offers z options
offers z (_ ∷ options) = offers z options

-- `{value: f"{value} A" for value in allowed if _is_preset(value, limits)}`; a repeated value keeps
-- its place and its label.
unfoldable pub presets : Option (ℤ × ℤ) → Labels → List Value → Labels
unfolding is_preset offers
presets limits options [] = options
presets limits options (int z ∷ vs) =
    presets limits
      (if is_preset limits (int z) && not (offers z options)
        then options ++ (int z, show_int z ++ codes " A") ∷ []
        else options)
      vs
presets limits options (_ ∷ vs) = presets limits options vs

-- `_wire_options`
unfoldable pub wire_options : SelectDescription → Option Text → Dict → Labels
unfolding presets current_range number_descriptions
wire_options d variant properties = elim d.common.companion_key [
  | none ↦ d.select_options
  | some key ↦ elim (get_else key null properties) [
    | list allowed ↦
        presets (current_range variant d.common.charger_key number_descriptions) []
          (items_to_list allowed)
    | _ ↦ []
  ]
]

-- `value == ""`
abbrev pub is_empty : Value → Bool
is_empty (text []) = true
is_empty _ = false

-- The option that `_apply_value` shows.
unfoldable pub current_option : SelectDescription → Option Text → Dict → Value → Option Text
unfolding wire_options matching_label
current_option d variant properties value =
    let v : Value = elim d.empty_string_means [
      | some meant ↦ if is_empty value then meant else value
      | none ↦ value
    ] in
    matching_label (wire_options d variant properties) v

unfoldable pub wire_value : Text → Labels → Option Value
wire_value option [] = none
wire_value option ((value, label) ∷ options) =
    let rest = wire_value option options in if text_eq label option then some value else rest

-- What `async_select_option` writes, `none` being the refusal of an unknown option.
unfoldable pub select_option : SelectDescription → Option Text → Dict → Text → Option Value
unfolding wire_value wire_options
select_option d variant properties option = wire_value option (wire_options d variant properties)
