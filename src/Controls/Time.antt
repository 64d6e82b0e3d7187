-- ===== src/Controls/Time.antt =====
-- custom_components/wattpilot/time.py: the departure of the next trip, in seconds since midnight.
use ha_wattpilot.Base.{
  ℕ, suc, ◌+◌, ◌-◌, ◌*◌, ◌/◌, ◌%◌, ◌<◌, ◌≡◌, refl, ap, Option, none, some, arith, ℤ, pos, negsuc,
}
use ha_wattpilot.Json.{Value, int, float, text, truncate}
use ha_wattpilot.Api.Library.{Library}
use ha_wattpilot.Api.Client.{next_trip_seconds}

-- `datetime.time`, by its fields that are set here.
pub record DayTime : Type 0 where
  pub hour : ℕ
  pub minute : ℕ
  pub second : ℕ

abbrev pub seconds_per_day : ℕ
seconds_per_day = 86400

-- `z % _SECONDS_PER_DAY`, which Python never leaves negative.
unfoldable pub in_day : ℤ → ℕ
in_day (pos n) = n % 86400
in_day (negsuc n) = 86399 - n % 86400

-- `dt_time(seconds // 3600, (seconds % 3600) // 60, seconds % 60)`
unfoldable pub day_time : ℕ → DayTime
day_time s = record { hour = s / 3600; minute = s % 3600 / 60; second = s % 60 }

-- A second of the day, read as a time of day and back.
day_time_lem :
    (s : ℕ)
    → s < seconds_per_day
    → ((day_time s).hour < 24)
      × ((day_time s).minute < 60)
      × ((day_time s).second < 60)
      × (next_trip_seconds (day_time s).hour (day_time s).minute (day_time s).second ≡ s)
unfolding day_time next_trip_seconds
day_time_lem s h = (omega arith, omega arith, omega arith, omega arith)

day_time-next_trip_seconds :
    (hour minute second : ℕ)
    → hour < 24
    → minute < 60
    → second < 60
    → day_time (next_trip_seconds hour minute second % 86400)
      ≡ record { hour = hour; minute = minute; second = second }
unfolding day_time next_trip_seconds
day_time-next_trip_seconds hour minute second h m s =
    let t = hour * 3600 + minute * 60 + second in
    let hours : t % 86400 / 3600 ≡ hour = omega arith in
    let minutes : t % 86400 % 3600 / 60 ≡ minute = omega arith in
    let seconds : t % 86400 % 60 ≡ second = omega arith in cc

-- The whole days between two numbers of seconds.
abbrev pub DaysApart : ℤ → ℕ → Type 0
DaysApart (pos n) s = (days : ℕ) × (n ≡ days * 86400 + s)
DaysApart (negsuc n) s = (days : ℕ) × (days * 86400 ≡ suc n + s)

module _ (py : Library) where
  -- `int(value)`; `none` is an error that shows the time as unknown.
  unfoldable pub int_of : Value → Option ℤ
  unfolding truncate
  int_of (int z) = some z
  int_of (float x) = truncate x
  int_of (text s) = py.int_of_text s
  int_of _ = none

  -- `_apply_value` of `WattpilotTime`
  unfoldable pub apply_time : Value → Option DayTime
  unfolding int_of in_day day_time
  apply_time v = elim (int_of v) [ some z ↦ some (day_time (in_day z)) | none ↦ none ]

  -- Whatever whole number the charger reports, a time of day is shown, and it lies whole days from that
  -- number of seconds; a time of day that is set is shown as it was set once the charger repeats it.
  pub apply_time-next_trip :
      (z : ℤ) (hour minute second : ℕ)
      → hour < 24
      → minute < 60
      → second < 60
      → ((t : DayTime) × (apply_time (int z) ≡ some t)
          × (t.hour < 24)
          × (t.minute < 60)
          × (t.second < 60)
          × DaysApart z (next_trip_seconds t.hour t.minute t.second))
        × (apply_time (int (pos (next_trip_seconds hour minute second)))
            ≡ some (record { hour = hour; minute = minute; second = second }))
  unfolding apply_time in_day
  apply_time-next_trip (pos n) hour minute second h m s =
      let (hours, minutes, seconds, back) = day_time_lem (n % 86400) (omega arith) in
      (
        (day_time (n % 86400), refl, hours, minutes, seconds, (n / 86400, omega (arith, back))),
        ap some (day_time-next_trip_seconds hour minute second h m s),
      )
  apply_time-next_trip (negsuc n) hour minute second h m s =
      let (hours, minutes, seconds, back) = day_time_lem (86399 - n % 86400) (omega arith) in
      (
        (
          day_time (86399 - n % 86400),
          refl,
          hours,
          minutes,
          seconds,
          (n / 86400 + 1, omega (arith, back)),
        ),
        ap some (day_time-next_trip_seconds hour minute second h m s),
      )
