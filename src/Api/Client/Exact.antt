-- ===== src/Api/Client/Exact.antt =====
-- A conversion before a write never changes the value (`_as_int` and `_as_bool`).
use ha_wattpilot.Base.{
  ℕ, suc, ◌*◌, ◌/◌, ◌%◌, ◌^◌, ◌≡◌, refl, ap, ◌∙◌, ◌⊎◌, Bool, true, false, none, some, arith, Text,
  Bool-cases, Option-cases, inl, inr, ℤ, pos, negsuc, leb_ℤ, if◌then◌else◌,
}
use ha_wattpilot.Json.{
  Value, text, bool, int, float, equals_int, as_number, is_integer, truncate, float_le, Float, fin,
  infinity, neg_infinity, nan, scale,
}
use ha_wattpilot.Api.Library.{Library}
use ha_wattpilot.Api.Client.State.{ok}
use ha_wattpilot.Api.Client.Coercion.{as_int, int_of_number, read_number, parse_number}

whole_pos : (n k : ℕ) → n % 2 ^ k ≡ 0 → n / 2 ^ k * 2 ^ k ≡ n
whole_pos n k h = grind arith

truncate-equals :
    (x : Float) (z : ℤ) → is_integer x ≡ true → truncate x ≡ some z → equals_int (float x) z ≡ true
unfolding is_integer truncate equals_int
truncate-equals (fin (pos n) k) z h e = ground (arith, whole_pos n k)
truncate-equals (fin (negsuc n) k) z h e = ground (arith, whole_pos (suc n) k)
truncate-equals infinity z h e = cc
truncate-equals neg_infinity z h e = cc
truncate-equals nan z h e = cc

leb_ℤ_refl : (z : ℤ) → leb_ℤ z z ≡ true
leb_ℤ_refl (pos n) = ground arith
leb_ℤ_refl (negsuc n) = ground arith

scale_one : (z : ℤ) → scale z 1 ≡ z
scale_one (pos n) = ground arith
scale_one (negsuc n) = ground arith

int-equals : (z : ℤ) → equals_int (int z) z ≡ true
unfolding equals_int as_number float_le
int-equals z = rw (scale_one z, leb_ℤ_refl z)

bool-equals : (b : Bool) → equals_int (bool b) (if b then pos 1 else pos 0) ≡ true
unfolding equals_int as_number float_le
bool-equals true = refl
bool-equals false = refl

int_of_number-exact :
    (py : Library) (v : Value) (name : Text) (z : ℤ)
    → int_of_number py v name ≡ ok (int z)
    → equals_int v z ≡ true
unfolding int_of_number
int_of_number-exact py (int y) name z e = ground (arith, int-equals y)
int_of_number-exact py (float x) name z e = elim (Bool-cases (is_integer x)) [
  | inl whole ↦ elim (Option-cases (truncate x)) [
    | inl missing ↦ ground arith
    | inr (y, cut) ↦ (let here = truncate-equals x y whole cut in ground arith)
  ]
  | inr broken ↦ ground arith
]
int_of_number-exact py (bool true) name z e = (let one = bool-equals true in ground arith)
int_of_number-exact py (bool false) name z e = (let zero = bool-equals false in ground arith)
int_of_number-exact py _ name z e = cc

-- A value equals the integer: as a number, or as a text that spells it, as an integer or else as a
-- float.
abbrev pub Spells : Library → Value → ℤ → Type 0
Spells py (text s) z =
    (py.int_of_text s ≡ some z)
    ⊎ ((py.int_of_text s ≡ none)
        × (x : Float) × (py.float_of_text s ≡ some x)
        × (equals_int (float x) z ≡ true))
Spells py v z = equals_int v z ≡ true

int_of_text-Spells :
    (py : Library) (s : Text) (name : Text) (z : ℤ)
    → int_of_number py (parse_number py s) name ≡ ok (int z)
    → Spells py (text s) z
unfolding parse_number int_of_number
int_of_text-Spells py s name z e = elim (Option-cases (py.int_of_text s)) [
  | inr (y, whole) ↦ let one : y ≡ z = ground (arith, e, whole) in inl (whole ∙ ap some one)
  | inl other ↦ elim (Option-cases (py.float_of_text s)) [
    | inr (x, spelled) ↦
        inr (other, x, spelled, int_of_number-exact py (float x) name z (ground (arith, e)))
    | inl neither ↦ ground (arith, e)
  ]
]

-- A value that a write converts to an integer is sent as the integer that it equals, a text as the one
-- that it spells, as an integer or else as a float: nothing is cut or rounded.
pub as_int_exact :
    (py : Library) (v : Value) (name : Text) (z : ℤ) → as_int py v name ≡ ok (int z) → Spells py v z
unfolding as_int read_number
as_int_exact py (text s) name z e = int_of_text-Spells py s name z e
as_int_exact py v name z e = int_of_number-exact py v name z e
