-- ===== src/Sensor/Compare.antt =====
-- `>=` on the numbers of a sensor.
use ha_wattpilot.Base.{◌≡◌, Bool, true, false, Option, none, some}
use ha_wattpilot.Json.{Value, int, float, as_number, float_le, Float, fin}
use ha_wattpilot.Json.Order.{float_le_trans, fin_le_refl}
use ha_wattpilot.Readings.{is_number}
use ha_wattpilot.Sensor.Hold.{at_least_number}

abbrev at_least_option : Option Float → Option Float → Bool
at_least_option a b = elim a [
  | some x ↦ elim b [ some y ↦ float_le y x | none ↦ false ]
  | none ↦ false
]

at_least_option_trans :
    (a b c : Option Float)
    → at_least_option a b ≡ true
    → at_least_option b c ≡ true
    → at_least_option a c ≡ true
at_least_option_trans (some x) (some y) (some z) f g = float_le_trans z y x g f
at_least_option_trans none b c f g = cc
at_least_option_trans (some x) none c f g = cc
at_least_option_trans (some x) (some y) none f g = cc

pub at_least_number_trans :
    (u v w : Value)
    → at_least_number u v ≡ true
    → at_least_number v w ≡ true
    → at_least_number u w ≡ true
unfolding at_least_number
at_least_number_trans u v w f g =
    at_least_option_trans (as_number u) (as_number v) (as_number w) f g

pub at_least_number_refl : (v : Value) → is_number v ≡ true → at_least_number v v ≡ true
unfolding at_least_number is_number as_number
at_least_number_refl (int z) h = fin_le_refl z 0
at_least_number_refl (float (fin m k)) h = fin_le_refl m k
at_least_number_refl v h = cc
