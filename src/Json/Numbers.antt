-- ===== src/Json/Numbers.antt =====
-- Python's numbers: the tests and conversions the code makes on them, exact on every double.
use ha_wattpilot.Base.{
  ℕ, zero, suc, ◌*◌, ◌%◌, ◌/◌, ◌^◌, Bool, true, false, ◌&&◌, Option, none, some, ℤ, pos, negsuc,
  ◌==◌, leb_ℤ,
}
use ha_wattpilot.Json.Data.{Value, bool, int, float, Float, fin, infinity, neg_infinity, nan}

-- `float.is_integer()`
unfoldable pub is_integer : Float → Bool
is_integer (fin (pos n) k) = n % 2 ^ k == 0
is_integer (fin (negsuc n) k) = suc n % 2 ^ k == 0
is_integer _ = false

abbrev negate : ℕ → ℤ
negate zero = pos 0
negate (suc n) = negsuc n

-- `int(x)`, which cuts towards zero; `none` is the error that infinity and NaN raise.
unfoldable pub truncate : Float → Option ℤ
truncate (fin (pos n) k) = some (pos (n / 2 ^ k))
truncate (fin (negsuc n) k) = some (negate (suc n / 2 ^ k))
truncate _ = none

abbrev pub scale : ℤ → ℕ → ℤ
scale (pos n) m = pos (n * m)
scale (negsuc n) m = negate (suc n * m)

-- `a <= b` on doubles: false where either is NaN.
unfoldable pub float_le : Float → Float → Bool
float_le (fin m j) (fin n k) = leb_ℤ (scale m (2 ^ k)) (scale n (2 ^ j))
float_le nan _ = false
float_le _ nan = false
float_le neg_infinity _ = true
float_le _ infinity = true
float_le _ _ = false

abbrev pub of_int : ℤ → Float
of_int z = fin z 0

-- The number that a value counts as in a comparison: Python's bools are 0 and 1.
unfoldable pub as_number : Value → Option Float
as_number (bool true) = some (of_int (pos 1))
as_number (bool false) = some (of_int (pos 0))
as_number (int z) = some (of_int z)
as_number (float x) = some x
as_number _ = none

-- `value == n` for a number n.
unfoldable pub equals_int : Value → ℤ → Bool
unfolding as_number float_le
equals_int v n = elim (as_number v) [
  | none ↦ false
  | some x ↦ float_le x (of_int n) && float_le (of_int n) x
]
