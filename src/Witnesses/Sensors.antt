-- ===== src/Witnesses/Sensors.antt =====
-- Concrete inputs for the theorems on the sensors.
use ha_wattpilot.Base.{
  ℕ, ◌*◌, ◌/◌, refl, none, some, List, [], ◌∷◌, codes, text_eq, pos, All, inl, inr,
}
use ha_wattpilot.Json.{Value, null, int, text, list, Items, nil, cons, Dict, end, entry}
use ha_wattpilot.Entities.{total_energy, average_charging_power}
use ha_wattpilot.Readings.{reads}
use ha_wattpilot.Sensor.{
  SensorLibrary, Shown, new_sensor, show_idle, SensorEvent, pushed, companion_pushed, idle_due,
  removed, sensor_run,
}
use ha_wattpilot.Sensor.Held.{IsTotal, IsAtLeast}
use ha_wattpilot.Sensor.Totals.{total_run-IsAtLeast}
use ha_wattpilot.Sensor.Average.{Repeats, IsStale, show_idle-run-IsStale}

abbrev tenths_of : Value → Value
tenths_of (int (pos n)) = int (pos (n * 9 / 10))
tenths_of v = v

-- Whole numbers only, of few digits, and no times.
abbrev whole_numbers : SensorLibrary
whole_numbers = record {
  round_to = λ n v. v;
  nine_tenths = tenths_of;
  float_minus = λ v w. v;
  add_times = λ v n w. v;
  str_of = λ v. codes "1";
  unescape = λ s. s;
  is_non_numeric = λ c. text_eq c (codes "timestamp");
  parse_datetime = λ s. reads none;
  utc_from_timestamp = λ v. none;
}

total_energy-IsTotal : IsTotal whole_numbers total_energy
unfolding total_energy ha_wattpilot.Sensor.sensor_class ha_wattpilot.Sensor.expects_number text_eq
total_energy-IsTotal = record {
  class = refl;
  rises = refl;
  tolerant = refl;
  null_shown = refl;
  cards = refl;
  untimed = refl;
  plain = refl;
  numeric = refl;
  whole = refl;
  direct = refl;
  single = refl;
  measured = refl;
  alone = refl;
  escaped = refl;
}

-- A restart of the charger sets the counter back, and a malformed push follows.
abbrev counts : List SensorEvent
counts =
    pushed end (int (pos 4990))
    ∷ pushed end (text (codes "?"))
    ∷ pushed end null
    ∷ pushed end (int (pos 5020))
    ∷ idle_due end
    ∷ removed
    ∷ []

abbrev at_5000 : Shown
at_5000 = record new_sensor { native_value = int (pos 5000); last_number = some (int (pos 5000)) }

at_5000-IsAtLeast : IsAtLeast (int (pos 5000)) at_5000
unfolding new_sensor ha_wattpilot.Readings.is_number ha_wattpilot.Readings.largest_double
    ha_wattpilot.Sensor.at_least_number ha_wattpilot.Json.as_number ha_wattpilot.Json.float_le
at_5000-IsAtLeast = record {
  number = int (pos 5000);
  last = refl;
  counts = refl;
  risen = refl;
  shown = inr refl;
  settled = refl;
  waits = refl;
}

total_run-IsAtLeast_example :
    IsAtLeast (int (pos 5000)) (sensor_run whole_numbers total_energy counts at_5000)
total_run-IsAtLeast_example =
    total_run-IsAtLeast whole_numbers total_energy (int (pos 5000)) counts at_5000
      total_energy-IsTotal at_5000-IsAtLeast

-- The charger still holds 7200 W, and its power comes and goes.
abbrev powers : ℕ → Items
powers n =
    let v = int (pos 0) in
    cons v (
      cons v (
        cons v (
          cons v (
            cons v
              (cons v (cons v (cons v (cons v (cons v (cons v (cons (int (pos n)) nil)))))))))))

abbrev holds_average : ℕ → Dict
holds_average n = entry (codes "tpa") (int (pos 7200)) (entry (codes "nrg") (list (powers n)) end)

abbrev power_changes : List SensorEvent
power_changes =
    companion_pushed (holds_average 6900)
    ∷ pushed (holds_average 6900) (int (pos 7200))
    ∷ pushed (holds_average 6900) null
    ∷ companion_pushed (holds_average 0)
    ∷ idle_due (holds_average 0)
    ∷ []

power_changes-Repeats : All (Repeats (int (pos 7200))) power_changes
unfolding Repeats ha_wattpilot.Json.get text_eq
power_changes-Repeats = (refl, ((inl refl, refl), ((inr refl, refl), (refl, (refl, tt)))))

show_idle-run-IsStale_example : IsStale (int (pos 7200)) (
    sensor_run whole_numbers average_charging_power power_changes (
      show_idle whole_numbers average_charging_power
        (holds_average 0)
        (record new_sensor { native_value = int (pos 7200) })))
unfolding ha_wattpilot.Json.get text_eq ha_wattpilot.Json.value_eq ha_wattpilot.Json.number_eq
    ha_wattpilot.Json.as_number ha_wattpilot.Json.float_le
show_idle-run-IsStale_example =
    show_idle-run-IsStale whole_numbers (int (pos 7200)) (holds_average 0) power_changes
      (record new_sensor { native_value = int (pos 7200) }) refl refl refl power_changes-Repeats
