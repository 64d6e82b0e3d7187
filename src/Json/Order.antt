-- ===== src/Json/Order.antt =====
-- `<=` on Python's numbers is transitive, and reflexive on all but NaN.
use ha_wattpilot.Base.{
  ℕ, zero, suc, ◌+◌, ◌*◌, ◌^◌, ◌≤◌, ◌<◌, ◌≡◌, refl, true, arith, ℤ, pos, negsuc, pos_part, neg_part,
  leb→le, ◌↔◌,
}
use native.Mathlib.Nat.{one-le-pow, le_of_mul-le-mul_right, mul-le-mul_left}
use ha_wattpilot.Json.Data.{Float, fin, infinity, neg_infinity, nan}
use ha_wattpilot.Json.Numbers.{float_le, scale}

scale-parts :
    (z : ℤ) (m : ℕ)
    → (pos_part (scale z m) ≡ m * pos_part z) × (neg_part (scale z m) ≡ m * neg_part z)
scale-parts (pos n) m = (grind arith, grind arith)
scale-parts (negsuc n) zero = (grind arith, grind arith)
scale-parts (negsuc n) (suc m) = (grind arith, grind arith)

module _ (a b c a' b' c' k j l : ℕ) where
  cross_trans :
      zero < k
      → k * a + j * b' ≤ j * b + k * a'
      → l * b + k * c' ≤ k * c + l * b'
      → l * a + j * c' ≤ j * c + l * a'
  cross_trans positive f g =
      let f' = mul-le-mul_left l f in
      let g' = mul-le-mul_left j g in le_of_mul-le-mul_right {k = k} (grind arith) positive

pub fin_le_iff :
    (m n : ℤ) (j k : ℕ)
    → (float_le (fin m j) (fin n k) ≡ true)
      ↔ (2 ^ k * pos_part m + 2 ^ j * neg_part n ≤ 2 ^ j * pos_part n + 2 ^ k * neg_part m)
unfolding float_le
fin_le_iff m n j k =
    let left = scale-parts m (2 ^ k) in
    let right = scale-parts n (2 ^ j) in
    rw (left.0, left.1, right.0, right.1) (λ h. leb→le _ _ h, λ h. ground arith)

pub float_le_trans :
    (x y z : Float) → float_le x y ≡ true → float_le y z ≡ true → float_le x z ≡ true
unfolding float_le
float_le_trans (fin m j) (fin n k) (fin p l) f g = (fin_le_iff m p j l).1 (
    cross_trans (pos_part m) (pos_part n) (pos_part p) (neg_part m) (neg_part n) (neg_part p)
      (2 ^ k) (2 ^ j) (2 ^ l) (one-le-pow k 2 (omega arith)) ((fin_le_iff m n j k).0 f)
      ((fin_le_iff n p k l).0 g))
float_le_trans (fin m j) (fin n k) infinity f g = refl
float_le_trans (fin m j) (fin n k) neg_infinity f g = cc
float_le_trans (fin m j) (fin n k) nan f g = cc
float_le_trans (fin m j) infinity infinity f g = refl
float_le_trans (fin m j) infinity (fin p l) f g = cc
float_le_trans (fin m j) infinity neg_infinity f g = cc
float_le_trans (fin m j) infinity nan f g = cc
float_le_trans (fin m j) neg_infinity z f g = cc
float_le_trans (fin m j) nan z f g = cc
float_le_trans infinity (fin n k) z f g = cc
float_le_trans infinity infinity z f g = g
float_le_trans infinity neg_infinity z f g = cc
float_le_trans infinity nan z f g = cc
float_le_trans neg_infinity y (fin p l) f g = refl
float_le_trans neg_infinity y infinity f g = refl
float_le_trans neg_infinity y neg_infinity f g = refl
float_le_trans neg_infinity (fin n k) nan f g = cc
float_le_trans neg_infinity infinity nan f g = cc
float_le_trans neg_infinity neg_infinity nan f g = cc
float_le_trans neg_infinity nan nan f g = cc
float_le_trans nan y z f g = cc

pub fin_le_refl : (m : ℤ) (j : ℕ) → float_le (fin m j) (fin m j) ≡ true
fin_le_refl m j = (fin_le_iff m m j j).1 (omega arith)
