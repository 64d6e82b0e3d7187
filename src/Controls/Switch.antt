-- ===== src/Controls/Switch.antt =====
-- custom_components/wattpilot/switch.py, binary_sensor.py and button.py: what is shown and written.
use ha_wattpilot.Base.{
  Bool, true, false, not, ◌||◌, Option, none, some, List, [], ◌∷◌, Text, if◌then◌else◌,
}
use ha_wattpilot.Json.{Value, bool, list, dict, namespace, value_eq}
use ha_wattpilot.Entities.{SwitchDescription, BinarySensorDescription, ButtonDescription}

-- `_apply_value` of `WattpilotSwitch`
unfoldable pub apply_switch : SwitchDescription → Value → Option Bool
apply_switch d (bool b) = some (if d.invert then not b else b)
apply_switch d v = none

-- `async_turn_on` and `async_turn_off`: the key and the value that are written.
unfoldable pub turn_on : SwitchDescription → Text × Value
turn_on d = (d.common.charger_key, bool (not d.invert))

unfoldable pub turn_off : SwitchDescription → Text × Value
turn_off d = (d.common.charger_key, bool d.invert)

-- `value in values`, for a value that can be a member of a set.
unfoldable pub is_member : Value → List Value → Bool
is_member v [] = false
is_member v (w ∷ ws) = value_eq v w || is_member v ws

-- `isinstance(value, Hashable)`
abbrev pub is_hashable : Value → Bool
is_hashable (list _) = false
is_hashable (dict _) = false
is_hashable (namespace _) = false
is_hashable _ = true

-- `_apply_value` of `WattpilotBinarySensor`
unfoldable pub apply_binary_sensor : BinarySensorDescription → Value → Option Bool
unfolding is_member
apply_binary_sensor d v =
    if not (is_hashable v)
    then none
    else if is_member v d.on_values
    then some true
    else if is_member v d.off_values
    then some false
    else none

-- `async_press`
unfoldable pub press : ButtonDescription → Text × Value
press d = (d.common.charger_key, d.press_value)
