-- ===== src/Base/Decimal.antt =====
-- `str` of an integer, and the number that its digits stand for.
use Prim.Native.Nat.{ℕ, zero, suc, ◌+◌, ◌-◌, ◌*◌, ◌/◌, ◌%◌, ◌<◌}
use mathlib.Core.Path.{◌≡◌, refl, sym, ap, ◌∙◌}
use mathlib.Core.List.{[], ◌∷◌, ◌++◌}
use mathlib.Core.Logic.{inl, inr}
use native.Mathlib.Omega.{arith}
use ha_wattpilot.Base.Tests.{ltb, if◌then◌else◌, Bool-cases}
use ha_wattpilot.Base.Texts.{Text}
use ha_wattpilot.Base.Int.{ℤ, pos, negsuc}

-- The digits of n, least significant last; n + 1 rounds are enough.
digits_within : ℕ → ℕ → Text
digits_within zero n = []
digits_within (suc f) n =
    let rest = digits_within f (n / 10) ++ (b'0' + n % 10) ∷ [] in
    if ltb n 10 then (b'0' + n) ∷ [] else rest

unfoldable pub show_nat : ℕ → Text
unfolding digits_within
show_nat n = digits_within (suc n) n

-- `str(z)`
unfoldable pub show_int : ℤ → Text
unfolding show_nat
show_int (pos n) = show_nat n
show_int (negsuc n) = b'-' ∷ show_nat (suc n)

read_from : ℕ → Text → ℕ
read_from acc [] = acc
read_from acc (c ∷ s) = read_from (acc * 10 + (c - b'0')) s

unfoldable pub read_nat : Text → ℕ
unfolding read_from
read_nat s = read_from 0 s

read_from-append :
    (acc : ℕ) (s : Text) (c : ℕ) → read_from acc (s ++ c ∷ []) ≡ read_from acc s * 10 + (c - b'0')
unfolding read_from
read_from-append acc [] c = refl
read_from-append acc (d ∷ s) c = read_from-append (acc * 10 + (d - b'0')) s c

read-digits_within : (f n : ℕ) → n < f → read_from 0 (digits_within f n) ≡ n
unfolding digits_within read_from
read-digits_within zero n h = elim h [ ]
read-digits_within (suc f) n h = elim (Bool-cases (ltb n 10)) [
  | inl small ↦ rw small (omega arith)
  | inr large ↦ rw large (
      rw (read_from-append 0 (digits_within f (n / 10)) (b'0' + n % 10))
        (rw (read-digits_within f (n / 10) (ground arith)) (omega arith)))
]

-- Reading the digits of a number gives the number.
pub read_nat-show_nat : (n : ℕ) → read_nat (show_nat n) ≡ n
unfolding read_nat show_nat
read_nat-show_nat n = read-digits_within (suc n) n (omega arith)

pub show_nat_injective : (m n : ℕ) → show_nat m ≡ show_nat n → m ≡ n
show_nat_injective m n e = sym (read_nat-show_nat m) ∙ ap read_nat e ∙ read_nat-show_nat n
