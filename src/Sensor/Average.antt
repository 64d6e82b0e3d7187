-- ===== src/Sensor/Average.antt =====
-- The average power of a session is not shown again once the session is over.
use ha_wattpilot.Base.{
  ◌≡◌, refl, true, false, not, ◌||◌, Option, none, some, List, [], ◌∷◌, arith, codes, text_eq, pos,
  Bool-cases, inl, inr, ◌⊎◌, All,
}
use ha_wattpilot.Json.{Value, null, int, Dict, get, value_eq, truthy}
use ha_wattpilot.Entities.{average_charging_power}
use ha_wattpilot.Readings.{number_or_none, fit_for_state, total_power}
use ha_wattpilot.Sensor.Library.{SensorLibrary}
use ha_wattpilot.Sensor.Hold.{
  Shown, average_sensor, sensor_class, shown_number, armed, fired, no_timer, Timer, exceeds_number,
}
use ha_wattpilot.Sensor.Convert.{unwrap}
use ha_wattpilot.Sensor.Apply.{
  expects_number, unescaped, convert, apply_sensor, apply_price_list, apply_value, apply_average,
  show_live, show_idle, hold_while_idle, SensorEvent, pushed, companion_pushed, idle_due, removed,
  sensor_step, sensor_run, companion, is_null,
}

-- The hub goes on holding this average, and a push brings it or null.
unfoldable pub Repeats : Value → SensorEvent → Type 0
Repeats average (pushed properties v) =
    ((v ≡ average) ⊎ (v ≡ null)) × (get (codes "tpa") properties ≡ some average)
Repeats average (companion_pushed properties) = get (codes "tpa") properties ≡ some average
Repeats average (idle_due properties) = get (codes "tpa") properties ≡ some average
Repeats average removed = Unit

-- The average is known to be stale, and the sensor shows 0 W or unknown.
pub record IsStale (average : Value) (s : Shown) : Type 0 where
  pub noted : s.stale ≡ average
  pub shown : (s.native_value ≡ int (pos 0)) ⊎ (s.native_value ≡ null)

module _ (py : SensorLibrary) (numeric : py.is_non_numeric (codes "power") ≡ false) where
  apply_sensor-null :
      (properties : Dict) (s : Shown)
      → apply_sensor py average_charging_power average_sensor properties null s
        ≡ record s { native_value = null }
  unfolding apply_sensor average_charging_power unwrap apply_price_list convert unescaped
      expects_number shown_number number_or_none fit_for_state text_eq
  apply_sensor-null properties s = rw numeric refl

module _ (py : SensorLibrary) (numeric : py.is_non_numeric (codes "power") ≡ false)
    (average : Value) (known : value_eq average average ≡ true) where
  show_idle-IsStale :
      (properties : Dict) (s : Shown)
      → get (codes "tpa") properties ≡ some average
      → IsStale average (show_idle py average_charging_power properties s)
  unfolding show_idle average_charging_power
  show_idle-IsStale properties s h = record { noted = rw h refl; shown = inl refl }

  hold_while_idle-IsStale :
      (properties : Dict) (s : Shown)
      → get (codes "tpa") properties ≡ some average
      → IsStale average s
      → IsStale average (hold_while_idle py average_charging_power properties s)
  unfolding hold_while_idle truthy
  hold_while_idle-IsStale properties s h i =
      let falsy : truthy s.native_value ≡ false = elim i.shown [
        | inl zero_shown ↦ rw zero_shown refl
        | inr unknown ↦ rw unknown refl
      ] in
      rw (hold_while_idle, falsy) (show_idle-IsStale properties s h)

  unknown-IsStale :
      (properties : Dict) (s : Shown)
      → IsStale average s
      → IsStale average (apply_sensor py average_charging_power average_sensor properties null s)
  unknown-IsStale properties s i =
      rw (apply_sensor-null py numeric properties s) (record { noted = i.noted; shown = inr refl })

  show_live-IsStale :
      (properties : Dict) (v : Value) (live : Option Value) (s : Shown)
      → (v ≡ average) ⊎ (v ≡ null)
      → IsStale average s
      → IsStale average (show_live py average_charging_power properties v live s)
  unfolding show_live
  show_live-IsStale properties v live s (inr unknown) i =
      let hidden : (not (elim live [ some power ↦ truthy power | none ↦ false ]) || is_null v)
          ≡ true =
        rw unknown (ground arith) in
      rw (show_live, hidden) (unknown-IsStale properties s i)
  show_live-IsStale properties v live s (inl repeated) i =
      let same : value_eq v s.stale ≡ true = rw (repeated, i.noted) known in
      elim (Bool-cases
        (not (elim live [ some power ↦ truthy power | none ↦ false ]) || is_null v)) [
          | inl hidden ↦ rw (show_live, hidden) (unknown-IsStale properties s i)
          | inr live_shown ↦
              rw (show_live, live_shown, same) (record { noted = i.noted; shown = inl refl })
        ]

  apply_value-IsStale :
      (properties : Dict) (v : Value) (s : Shown)
      → (v ≡ average) ⊎ (v ≡ null)
      → get (codes "tpa") properties ≡ some average
      → IsStale average s
      → IsStale average (apply_value py average_charging_power properties v s)
  unfolding apply_value apply_average sensor_class average_charging_power
  apply_value-IsStale properties v s h held i =
      let live = total_power (companion py average_charging_power properties) in
      let timerless : IsStale average (record s { idle_timer = no_timer }) = record {
        noted = i.noted;
        shown = i.shown;
      } in
      elim (Bool-cases
        (elim live [ some power ↦ exceeds_number power (int (pos 0)) | none ↦ true ])) [
          | inl flowing ↦
              rw (apply_average, flowing)
                (show_live-IsStale properties v live (record s { idle_timer = no_timer }) h
                  timerless)
          | inr idle ↦ rw (apply_average, idle) (hold_while_idle-IsStale properties s held i)
        ]

  idle_step :
      (properties : Dict) (timer : Timer) (s : Shown)
      → get (codes "tpa") properties ≡ some average
      → IsStale average s
      → IsStale average (elim timer [
        | armed ↦ show_idle py average_charging_power properties (record s { idle_timer = fired })
        | _ ↦ s
      ])
  idle_step properties armed s held i =
      show_idle-IsStale properties (record s { idle_timer = fired }) held
  idle_step properties no_timer s held i = i
  idle_step properties fired s held i = i

  sensor_step-IsStale :
      (e : SensorEvent) (s : Shown)
      → Repeats average e
      → IsStale average s
      → IsStale average (sensor_step py average_charging_power e s)
  unfolding sensor_step Repeats average_charging_power
  sensor_step-IsStale (pushed properties v) s (h, held) i =
      apply_value-IsStale properties v s h held i
  sensor_step-IsStale (companion_pushed properties) s held i =
      rw (sensor_step, held) (apply_value-IsStale properties average s (inl refl) held i)
  sensor_step-IsStale (idle_due properties) s held i = idle_step properties s.idle_timer s held i
  sensor_step-IsStale removed s h i = record { noted = i.noted; shown = i.shown }

  sensor_run-IsStale :
      (es : List SensorEvent) (s : Shown)
      → All (Repeats average) es
      → IsStale average s
      → IsStale average (sensor_run py average_charging_power es s)
  unfolding sensor_run
  sensor_run-IsStale [] s h i = i
  sensor_run-IsStale (e ∷ es) s (here, there) i =
      sensor_run-IsStale es (sensor_step py average_charging_power e s) there
        (sensor_step-IsStale e s here i)

-- Once the average power sensor has gone idle, whatever it showed then, the average that the hub holds
-- is not shown again as long as the hub goes on holding it and each push of the average brings it or
-- null: through any changes of the power and ends of waits the sensor shows 0 W or unknown.
pub show_idle-run-IsStale :
    (py : SensorLibrary) (average : Value) (properties : Dict) (es : List SensorEvent) (s : Shown)
    → py.is_non_numeric (codes "power") ≡ false
    → value_eq average average ≡ true
    → get (codes "tpa") properties ≡ some average
    → All (Repeats average) es
    → IsStale average
        (sensor_run py average_charging_power es (show_idle py average_charging_power properties s))
show_idle-run-IsStale py average properties es s numeric known held repeats =
    sensor_run-IsStale py numeric average known es
      (show_idle py average_charging_power properties s) repeats
      (show_idle-IsStale py numeric average known properties s held)
