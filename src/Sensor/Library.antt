-- ===== src/Sensor/Library.antt =====
-- What Python and Home Assistant give the sensors.
use ha_wattpilot.Base.{ℕ, Bool, Option, Text}
use ha_wattpilot.Json.{Value}
use ha_wattpilot.Readings.{Reading}

-- A `datetime`: as it is shown, whether it has a zone, and whether it has an equivalent in UTC.
pub record Instant : Type 0 where
  pub moment : Value
  pub has_zone : Bool
  pub fits_utc : Bool

-- `round(value, digits)`, `value * 0.9`, `v - w` and `start + i * interval` on doubles, `str`,
-- `html.unescape`, the device classes whose state is no number, `dt_util.parse_datetime`, and
-- `dt_util.utc_from_timestamp`, with `none` for each of its errors.
pub record SensorLibrary : Type 0 where
  pub round_to : ℕ → Value → Value
  pub nine_tenths : Value → Value
  pub float_minus : Value → Value → Value
  pub add_times : Value → ℕ → Value → Value
  pub str_of : Value → Text
  pub unescape : Text → Text
  pub is_non_numeric : Text → Bool
  pub parse_datetime : Text → Reading (Option Instant)
  pub utc_from_timestamp : Value → Option Value
