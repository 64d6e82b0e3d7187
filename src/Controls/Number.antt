-- ===== src/Controls/Number.antt =====
-- custom_components/wattpilot/number.py: what is shown and written. The arithmetic of doubles is a
-- parameter.
use ha_wattpilot.Base.{
  ℕ, Bool, true, false, ◌&&◌, Option, none, some, Text, codes, text_eq, if◌then◌else◌, ℤ, pos,
}
use ha_wattpilot.Json.{Value, null, int, float, text, Float, fin, float_is_zero}
use ha_wattpilot.Api.Library.{Library}
use ha_wattpilot.Entities.{NumberDescription}

-- `x / scale`, `x * scale` and `round(x)` of a finite double.
pub record Doubles : Type 0 where
  pub over : Float → ℕ → Float
  pub times : Float → ℕ → Float
  pub round : Float → ℤ

-- What a number writes: a property, or the energy of the next trip; or that it refuses the value.
pub data NumberWrite : Type 0 where
  property_write : Text → Value → NumberWrite
  energy_write : Value → NumberWrite
  not_a_number : NumberWrite

-- `math.isfinite(value)`
abbrev pub is_finite : Float → Bool
is_finite (fin m k) = true
is_finite _ = false

module _ (py : Library) (doubles : Doubles) (d : NumberDescription) where
  -- `float(value)`; `none` is an error that shows the number as unknown.
  unfoldable pub double_of : Value → Option Float
  double_of (float x) = some x
  double_of (int z) = py.float_of_int z
  double_of (text s) = py.float_of_text s
  double_of _ = none

  -- `_apply_value` of `WattpilotNumber`
  unfoldable pub apply_number : Value → Option Float
  unfolding double_of
  apply_number v =
      let shown : Value =
        if (elim v [ null ↦ true | _ ↦ false ]) && d.zero_means_null then int (pos 0) else v in
      elim (double_of shown) [ some x ↦ some (doubles.over x d.wire_scale) | none ↦ none ]

  -- `_scaled`
  unfoldable pub scaled : Float → Value
  scaled x =
      if d.set_as_int
      then int (doubles.round (doubles.times x d.wire_scale))
      else float (doubles.times x d.wire_scale)

  -- `_wire_value`
  unfoldable pub wire_number : Float → Value
  unfolding scaled
  wire_number x = if d.zero_means_null && float_is_zero x then null else scaled x

  -- `async_set_native_value`
  unfoldable pub set_number : Float → NumberWrite
  unfolding scaled wire_number
  set_number x =
      if is_finite x
      then if text_eq d.common.charger_key (codes "fte")
        then energy_write (scaled x)
        else property_write d.common.charger_key (wire_number x)
      else not_a_number
