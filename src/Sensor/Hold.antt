-- ===== src/Sensor/Hold.antt =====
-- The number that a sensor shows, and the steps back that it holds.
use ha_wattpilot.Base.{Bool, true, false, not, ◌&&◌, Option, none, some, if◌then◌else◌, pos}
use ha_wattpilot.Json.{Value, null, int, Dict, end, as_number, float_le}
use ha_wattpilot.Entities.{SensorDescription, boot_clock, live_power}
use ha_wattpilot.Sensor.Library.{SensorLibrary}
use ha_wattpilot.Readings.{Reading, reads, type_error, number_or_none}

-- The sensor classes, as `_sensor_class` chooses them.
pub data SensorClass : Type 0 where
  plain_sensor total_sensor duration_sensor average_sensor : SensorClass

unfoldable pub sensor_class : SensorDescription → SensorClass
sensor_class d = elim d.companion_role [
  | some boot_clock ↦ duration_sensor
  | some live_power ↦ if d.monotonic then total_sensor else average_sensor
  | _ ↦ if d.monotonic then total_sensor else plain_sensor
]

-- `value >= other` on numbers.
unfoldable pub at_least_number : Value → Value → Bool
at_least_number v w = elim (as_number v) [
  | some x ↦ elim (as_number w) [ some y ↦ float_le y x | none ↦ false ]
  | none ↦ false
]

-- `value > other` on numbers.
unfoldable pub exceeds_number : Value → Value → Bool
exceeds_number v w = elim (as_number v) [
  | some x ↦ elim (as_number w) [ some y ↦ not (float_le x y) | none ↦ false ]
  | none ↦ false
]

-- The wait before an average is taken for over; a timer that fired stays noted.
pub data Timer : Type 0 where
  no_timer armed fired : Timer

-- What a sensor keeps; `restored_total` is a total sensor's, the timer and the stale value are an
-- average sensor's.
pub record Shown : Type 0 where
  pub native_value : Value
  pub attributes : Dict
  pub last_number : Option Value
  pub restored_total : Option Value
  pub idle_timer : Timer
  pub stale : Value

unfoldable pub new_sensor : Shown
new_sensor = record {
  native_value = null;
  attributes = end;
  last_number = none;
  restored_total = none;
  idle_timer = no_timer;
  stale = null;
}

-- `async_added_to_hass` of a total sensor that has a number to restore.
unfoldable pub restore : Value → Shown → Shown
restore total s = record s {
  native_value = total;
  restored_total = some total;
  last_number = some total;
}

module _ (py : SensorLibrary) (d : SensorDescription) where
  -- `WattpilotSensor._should_suppress_decrease`
  unfoldable pub suppresses : Option Value → Value → Bool
  unfolding at_least_number
  suppresses none value = false
  suppresses (some previous) value =
      if at_least_number value previous
      then false
      else if d.monotonic
      then true
      else if d.reset_tolerant_monotonic
      then at_least_number value (py.nine_tenths previous)
      else false

  -- `WattpilotTotalSensor._should_suppress_decrease`, which forgets the restored total.
  unfoldable pub should_suppress_decrease : SensorClass → Value → Shown → Bool × Shown
  unfolding suppresses
  should_suppress_decrease total_sensor value s =
      let s' = record s { restored_total = none } in
      let base = suppresses s.last_number value in
      elim s.restored_total [
        | some restored ↦
            (if not (at_least_number value (py.nine_tenths restored)) then false else base, s')
        | none ↦ (base, s')
      ]
  should_suppress_decrease _ value s = (suppresses s.last_number value, s)

  -- `max(0, value)`
  unfoldable pub clamped : Value → Value
  clamped value = if at_least_number (int (pos 0)) value then int (pos 0) else value

  -- What `_held` decides about, behind clamping and rounding.
  unfoldable pub prepared : Value → Value
  unfolding clamped
  prepared value =
      let v = if d.clamp_non_negative then clamped value else value in
      if d.reset_tolerant_monotonic
      then (elim d.suggested_display_precision [ some n ↦ py.round_to n v | none ↦ v ])
      else v

  unfoldable pub held : SensorClass → Value → Shown → Value × Shown
  unfolding prepared should_suppress_decrease
  held cls value s =
      let v = prepared value in
      let (kept, s') = should_suppress_decrease cls v s in
      if kept
      then (elim s'.last_number [ some n ↦ n | none ↦ null ], s')
      else (v, record s' { last_number = some v })

  -- `_number`
  unfoldable pub shown_number : SensorClass → Value → Shown → Reading Value × Shown
  unfolding held number_or_none
  shown_number cls value s =
      if d.null_is_zero && (elim value [ null ↦ true | _ ↦ false ])
      then (reads (int (pos 0)), s)
      else (elim (number_or_none value) [
        | type_error ↦ (type_error, s)
        | reads null ↦ (reads null, s)
        | reads v ↦ (let (shown, s') = held cls v s in (reads shown, s'))
      ])
