-- ===== src/Sensor/Apply.antt =====
-- `_apply_value` of each sensor class, and the events of a sensor.
use ha_wattpilot.Base.{
  ℕ, Bool, true, false, not, ◌&&◌, ◌||◌, Option, none, some, List, [], ◌∷◌, Text, codes, text_eq,
  if◌then◌else◌, ◌==◌, is_some, pos,
}
use ha_wattpilot.Json.{Value, null, int, text, Dict, end, entry, get, get_else, truthy, value_eq}
use ha_wattpilot.Entities.{SensorDescription, prices}
use ha_wattpilot.Readings.{
  Reading, reads, type_error, enum_state, fit_for_state, charging_minutes, total_power,
}
use ha_wattpilot.Sensor.Library.{Instant, SensorLibrary}
use ha_wattpilot.Sensor.Hold.{
  Shown, SensorClass, duration_sensor, average_sensor, sensor_class, shown_number, no_timer, armed,
  fired, exceeds_number,
}
use ha_wattpilot.Sensor.Convert.{unwrap, apply_card}
use ha_wattpilot.Sensor.Prices.{price_list}

abbrev pub is_null : Value → Bool
is_null null = true
is_null _ = false

-- `text.replace(" +", "+").replace(" -", "-")`
unfoldable pub collapse : ℕ → Text → Text
collapse sign [] = []
collapse sign (c ∷ []) = c ∷ []
collapse sign (c ∷ d ∷ s) =
    let rest = collapse sign (d ∷ s) in if c == b' ' && d == sign then rest else c ∷ rest

module _ (py : SensorLibrary) where
  -- `_instant`
  unfoldable pub instant : Option Instant → Value
  instant none = null
  instant (some t) = if t.has_zone && t.fits_utc then t.moment else null

  unfoldable pub parse_timestamp : Value → Reading Value
  unfolding instant collapse
  parse_timestamp (text s) = elim (py.parse_datetime s) [
    | type_error ↦ type_error
    | reads (some t) ↦ reads (instant (some t))
    | reads none ↦ elim (py.parse_datetime (collapse b'-' (collapse b'+' s))) [
      | type_error ↦ type_error
      | reads found ↦ reads (instant found)
    ]
  ]
  parse_timestamp _ = reads null

module _ (py : SensorLibrary) (d : SensorDescription) where
  -- `_expects_number`
  unfoldable pub expects_number : Bool
  expects_number =
      if (elim d.device_class [ some c ↦ py.is_non_numeric c | none ↦ false ])
        || (elim d.enum [ some (label ∷ labels) ↦ true | _ ↦ false ])
      then false
      else is_some d.device_class
        || (is_some d.state_class
            || (is_some d.native_unit_of_measurement || is_some d.suggested_display_precision))

  abbrev pub shows : Value → Shown → Shown
  shows v s = record s { native_value = v }

  abbrev pub with_attributes : Option Dict → Shown → Shown
  with_attributes none s = s
  with_attributes (some a) s = record s { attributes = a }

  -- `_apply_price_list`
  unfoldable pub apply_price_list : Dict → Shown → Shown
  unfolding price_list
  apply_price_list properties s = elim d.common.companion_key [
    | none ↦ s
    | some key ↦ elim d.companion_role [
      | some prices ↦
          with_attributes
            (some (entry (codes "prices") (price_list py (get_else key null properties)) end)) s
      | _ ↦ s
    ]
  ]

  unfoldable pub unescaped : Value → Value
  unescaped value =
      if not (is_null value) && d.html_unescape then text (py.unescape (py.str_of value)) else value

  -- What follows the unwrapping: text, time, enum or number.
  unfoldable pub convert : SensorClass → Value → Shown → Shown
  unfolding unescaped parse_timestamp expects_number shown_number fit_for_state
  convert cls value s =
      let v = unescaped value in
      if (elim d.device_class [ some c ↦ text_eq c (codes "timestamp") | none ↦ false ])
      then (elim (parse_timestamp py v) [ type_error ↦ s | reads t ↦ shows t s ])
      else (elim d.enum [
        | some table ↦ shows (fit_for_state py.str_of (enum_state table v)) s
        | none ↦
            if expects_number
            then (let (number, s') = shown_number py d cls v s in
                elim number [ type_error ↦ s' | reads n ↦ shows (fit_for_state py.str_of n) s' ])
            else shows (fit_for_state py.str_of v) s
      ])

  -- `WattpilotSensor._apply_value`, given the properties that the hub has; an error keeps the state.
  unfoldable pub apply_sensor : SensorClass → Dict → Value → Shown → Shown
  unfolding apply_card unwrap apply_price_list convert
  apply_sensor cls properties value s = elim d.cards_index [
    | some index ↦
        let (reading, attributes) = apply_card value index in
        elim reading [ type_error ↦ s | reads v ↦ with_attributes attributes (shows v s) ]
    | none ↦
        let (reading, attributes) = unwrap d value in
        let s' = with_attributes attributes s in
        elim reading [ type_error ↦ s' | reads v ↦ convert cls v (apply_price_list properties s') ]
  ]

  abbrev pub companion : Dict → Value
  companion properties = elim d.common.companion_key [
    | some key ↦ get_else key null properties
    | none ↦ null
  ]

  unfoldable pub show_idle : Dict → Shown → Shown
  show_idle properties s = record s {
    native_value = int (pos 0);
    stale = get_else d.common.charger_key null properties;
  }

  unfoldable pub hold_while_idle : Dict → Shown → Shown
  unfolding show_idle
  hold_while_idle properties s =
      if not (truthy s.native_value)
      then show_idle properties s
      else (elim s.idle_timer [ no_timer ↦ record s { idle_timer = armed } | _ ↦ s ])

  unfoldable pub show_live : Dict → Value → Option Value → Shown → Shown
  unfolding apply_sensor
  show_live properties value live s =
      if not (elim live [ some power ↦ truthy power | none ↦ false ]) || is_null value
      then apply_sensor average_sensor properties null s
      else if value_eq value s.stale
      then shows (int (pos 0)) s
      else apply_sensor average_sensor properties value (record s { stale = null })

  -- `WattpilotAveragePowerSensor._apply_value`
  unfoldable pub apply_average : Dict → Value → Shown → Shown
  unfolding show_live hold_while_idle
  apply_average properties value s =
      let live = total_power (companion properties) in
      if (elim live [ some power ↦ exceeds_number power (int (pos 0)) | none ↦ true ])
      then show_live properties value live (record s { idle_timer = no_timer })
      else hold_while_idle properties s

  unfoldable pub apply_value : Dict → Value → Shown → Shown
  unfolding apply_average apply_sensor sensor_class
  apply_value properties value s = elim (sensor_class d) [
    | duration_sensor ↦
        shows
          (elim (charging_minutes py.float_minus value (companion properties)) [
            | some n ↦ int n
            | none ↦ null
          ])
          s
    | average_sensor ↦ apply_average properties value s
    | cls ↦ apply_sensor cls properties value s
  ]

-- What happens to a sensor of a hub that has these properties: a push of its own property or of its
-- companion, the end of the wait, and its removal.
pub data SensorEvent : Type 0 where
  pushed : Dict → Value → SensorEvent
  companion_pushed : Dict → SensorEvent
  idle_due : Dict → SensorEvent
  removed : SensorEvent

module _ (py : SensorLibrary) (d : SensorDescription) where
  unfoldable pub sensor_step : SensorEvent → Shown → Shown
  unfolding apply_value show_idle
  sensor_step (pushed properties value) s = apply_value py d properties value s
  sensor_step (companion_pushed properties) s = elim (get d.common.charger_key properties) [
    | some value ↦ apply_value py d properties value s
    | none ↦ s
  ]
  sensor_step (idle_due properties) s = elim s.idle_timer [
    | armed ↦ show_idle py d properties (record s { idle_timer = fired })
    | _ ↦ s
  ]
  sensor_step removed s = record s { idle_timer = no_timer }

  unfoldable pub sensor_run : List SensorEvent → Shown → Shown
  unfolding sensor_step
  sensor_run [] s = s
  sensor_run (e ∷ es) s = sensor_run es (sensor_step e s)
