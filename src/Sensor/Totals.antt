-- ===== src/Sensor/Totals.antt =====
-- A total that never falls, whatever the charger sends.
use ha_wattpilot.Base.{
  ◌≡◌, refl, ap, ◌∙◌, true, false, none, List, [], ◌∷◌, Bool-cases, Option-cases, inl, inr, ◌⊎◌,
}
use ha_wattpilot.Json.{Value, null, int, float, Dict, fin, infinity, neg_infinity, nan, get}
use ha_wattpilot.Entities.{SensorDescription}
use ha_wattpilot.Readings.{reads, type_error, is_number, number_or_none, fit_for_state}
use ha_wattpilot.Sensor.Library.{SensorLibrary}
use ha_wattpilot.Sensor.Hold.{Shown, total_sensor, held, shown_number}
use ha_wattpilot.Sensor.Convert.{unwrap}
use ha_wattpilot.Sensor.Apply.{
  unescaped, convert, apply_sensor, apply_price_list, apply_value, SensorEvent, pushed,
  companion_pushed, idle_due, removed, sensor_step, sensor_run, with_attributes,
}
use ha_wattpilot.Sensor.Held.{
  IsTotal, IsAtLeast, show_number, unknown-IsAtLeast, show_held-IsAtLeast,
}

module _ (py : SensorLibrary) (d : SensorDescription) (t : IsTotal py d) (total : Value) where
  pub shown_number-held :
      (v : Value) (s : Shown)
      → is_number v ≡ true
      → (let (w, s') = held py d total_sensor v s in
          shown_number py d total_sensor v s ≡ (reads w, s'))
  unfolding shown_number number_or_none is_number
  shown_number-held (int z) s counts = rw (t.null_shown, counts) refl
  shown_number-held (float (fin m k)) s counts = rw t.null_shown refl
  shown_number-held v s counts = cc

  shown_number-other :
      (v : Value) (s : Shown)
      → is_number v ≡ false
      → (shown_number py d total_sensor v s ≡ (type_error, s))
        ⊎ (shown_number py d total_sensor v s ≡ (reads null, s))
  unfolding shown_number number_or_none is_number
  shown_number-other null s other = inr (rw t.null_shown refl)
  shown_number-other (int z) s other = inl (rw (t.null_shown, other) refl)
  shown_number-other (float (fin m k)) s other = cc
  shown_number-other (float infinity) s other = inl (rw t.null_shown refl)
  shown_number-other (float neg_infinity) s other = inl (rw t.null_shown refl)
  shown_number-other (float nan) s other = inl (rw t.null_shown refl)
  shown_number-other v s other = inl (rw t.null_shown refl)

  show_number-IsAtLeast :
      (v : Value) (s : Shown)
      → IsAtLeast total s
      → IsAtLeast total (show_number py (shown_number py d total_sensor v s))
  unfolding fit_for_state
  show_number-IsAtLeast v s i = elim (Bool-cases (is_number v)) [
    | inl counts ↦ rw (shown_number-held v s counts) (show_held-IsAtLeast py d t total v s counts i)
    | inr other ↦ elim (shown_number-other v s other) [
      | inl refused ↦ rw refused i
      | inr unknown ↦ rw unknown (unknown-IsAtLeast py d t total s i)
    ]
  ]

  unescaped_same : (v : Value) → unescaped py d v ≡ v
  unfolding unescaped
  unescaped_same null = refl
  unescaped_same v = rw t.escaped refl

  pub convert-show_number :
      (v : Value) (s : Shown)
      → convert py d total_sensor v s ≡ show_number py (shown_number py d total_sensor v s)
  unfolding convert
  convert-show_number v s =
      let unfolded : convert py d total_sensor v s
          ≡ show_number py (shown_number py d total_sensor (unescaped py d v) s) =
        rw (t.untimed, t.plain, t.numeric) refl in
      unfolded ∙ ap (λ w. show_number py (shown_number py d total_sensor w s)) (unescaped_same v)

  convert-IsAtLeast :
      (v : Value) (s : Shown) → IsAtLeast total s → IsAtLeast total (convert py d total_sensor v s)
  convert-IsAtLeast v s i = rw (convert-show_number v s) (show_number-IsAtLeast v s i)

  unwrap_whole : (v : Value) → unwrap d v ≡ (reads v, none)
  unfolding unwrap
  unwrap_whole v = rw (t.whole, t.direct, t.single, t.measured) refl

  apply_price_list-alone : (properties : Dict) (s : Shown) → apply_price_list py d properties s ≡ s
  unfolding apply_price_list
  apply_price_list-alone properties s = rw (apply_price_list, t.alone) refl

  pub apply_value-convert :
      (properties : Dict) (v : Value) (s : Shown)
      → apply_value py d properties v s ≡ convert py d total_sensor v s
  unfolding apply_value apply_sensor
  apply_value-convert properties v s =
      let unwrapped : apply_value py d properties v s
          ≡ convert py d total_sensor v
              (apply_price_list py d properties (with_attributes py d (unwrap d v).1 s)) =
        rw (apply_value, t.class, apply_sensor, t.cards, unwrap_whole v) refl in
      unwrapped
      ∙ ap
          (λ u.
            convert py d total_sensor v
              (apply_price_list py d properties (with_attributes py d u.1 s)))
          (unwrap_whole v)
      ∙ ap (convert py d total_sensor v) (apply_price_list-alone properties s)

  sensor_step-IsAtLeast :
      (e : SensorEvent) (s : Shown) → IsAtLeast total s → IsAtLeast total (sensor_step py d e s)
  unfolding sensor_step
  sensor_step-IsAtLeast (pushed properties v) s i =
      rw (apply_value-convert properties v s) (convert-IsAtLeast v s i)
  sensor_step-IsAtLeast (companion_pushed properties) s i =
      elim (Option-cases (get d.common.charger_key properties)) [
        | inl missing ↦ rw (sensor_step, missing) i
        | inr (v, found) ↦
            rw (sensor_step, found)
              (rw (apply_value-convert properties v s) (convert-IsAtLeast v s i))
      ]
  sensor_step-IsAtLeast (idle_due properties) s i = simp (sensor_step, i.waits) i
  sensor_step-IsAtLeast removed s i = record {
    number = i.number;
    last = i.last;
    counts = i.counts;
    risen = i.risen;
    shown = i.shown;
    settled = i.settled;
    waits = refl;
  }

  pub sensor_run-IsAtLeast :
      (es : List SensorEvent) (s : Shown)
      → IsAtLeast total s
      → IsAtLeast total (sensor_run py d es s)
  unfolding sensor_run
  sensor_run-IsAtLeast [] s i = i
  sensor_run-IsAtLeast (e ∷ es) s i =
      sensor_run-IsAtLeast es (sensor_step py d e s) (sensor_step-IsAtLeast e s i)

-- A description of a total, however it is pushed: once a number is held, the number that is held never
-- falls below it, and the sensor shows nothing but that number or unknown, whatever the charger sends,
-- malformed payloads included.
pub total_run-IsAtLeast :
    (py : SensorLibrary) (d : SensorDescription) (total : Value) (es : List SensorEvent) (s : Shown)
    → IsTotal py d
    → IsAtLeast total s
    → IsAtLeast total (sensor_run py d es s)
total_run-IsAtLeast py d total es s t i = sensor_run-IsAtLeast py d t total es s i
