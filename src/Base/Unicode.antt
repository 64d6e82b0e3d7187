-- ===== src/Base/Unicode.antt =====
-- The character classes of Python's `re` and `str` that the code relies on (Unicode 16, the
-- database of the Python that the integration runs on).
use Prim.Native.Nat.{ℕ, ◌≤◌}
use mathlib.Core.Path.{◌≡◌}
use native.Mathlib.Omega.{arith}
use mathlib.Core.Bool.{Bool, true, false, ◌&&◌, ◌||◌}
use mathlib.Core.List.{List, [], ◌∷◌}
use ha_wattpilot.Base.Tests.{leb}

in_ranges : List (ℕ × ℕ) → ℕ → Bool
in_ranges [] c = false
in_ranges ((lo, hi) ∷ rs) c = (leb lo c && leb c hi) || in_ranges rs c

-- First and last code point of each run of decimal digits.
decimal_ranges : List (ℕ × ℕ)
decimal_ranges =
    (48, 57)
    ∷ (1632, 1641)
    ∷ (1776, 1785)
    ∷ (1984, 1993)
    ∷ (2406, 2415)
    ∷ (2534, 2543)
    ∷ (2662, 2671)
    ∷ (2790, 2799)
    ∷ (2918, 2927)
    ∷ (3046, 3055)
    ∷ (3174, 3183)
    ∷ (3302, 3311)
    ∷ (3430, 3439)
    ∷ (3558, 3567)
    ∷ (3664, 3673)
    ∷ (3792, 3801)
    ∷ (3872, 3881)
    ∷ (4160, 4169)
    ∷ (4240, 4249)
    ∷ (6112, 6121)
    ∷ (6160, 6169)
    ∷ (6470, 6479)
    ∷ (6608, 6617)
    ∷ (6784, 6793)
    ∷ (6800, 6809)
    ∷ (6992, 7001)
    ∷ (7088, 7097)
    ∷ (7232, 7241)
    ∷ (7248, 7257)
    ∷ (42528, 42537)
    ∷ (43216, 43225)
    ∷ (43264, 43273)
    ∷ (43472, 43481)
    ∷ (43504, 43513)
    ∷ (43600, 43609)
    ∷ (44016, 44025)
    ∷ (65296, 65305)
    ∷ (66720, 66729)
    ∷ (68912, 68921)
    ∷ (68928, 68937)
    ∷ (69734, 69743)
    ∷ (69872, 69881)
    ∷ (69942, 69951)
    ∷ (70096, 70105)
    ∷ (70384, 70393)
    ∷ (70736, 70745)
    ∷ (70864, 70873)
    ∷ (71248, 71257)
    ∷ (71360, 71369)
    ∷ (71376, 71395)
    ∷ (71472, 71481)
    ∷ (71904, 71913)
    ∷ (72016, 72025)
    ∷ (72688, 72697)
    ∷ (72784, 72793)
    ∷ (73040, 73049)
    ∷ (73120, 73129)
    ∷ (73552, 73561)
    ∷ (92768, 92777)
    ∷ (92864, 92873)
    ∷ (93008, 93017)
    ∷ (93552, 93561)
    ∷ (118000, 118009)
    ∷ (120782, 120831)
    ∷ (123200, 123209)
    ∷ (123632, 123641)
    ∷ (124144, 124153)
    ∷ (124401, 124410)
    ∷ (125264, 125273)
    ∷ (130032, 130041)
    ∷ []

-- Runs of digits that are not decimal: superscripts, circled digits and the like.
other_digit_ranges : List (ℕ × ℕ)
other_digit_ranges =
    (178, 179)
    ∷ (185, 185)
    ∷ (4969, 4977)
    ∷ (6618, 6618)
    ∷ (8304, 8304)
    ∷ (8308, 8313)
    ∷ (8320, 8329)
    ∷ (9312, 9320)
    ∷ (9332, 9340)
    ∷ (9352, 9360)
    ∷ (9450, 9450)
    ∷ (9461, 9469)
    ∷ (9471, 9471)
    ∷ (10102, 10110)
    ∷ (10112, 10120)
    ∷ (10122, 10130)
    ∷ (68160, 68163)
    ∷ (69216, 69224)
    ∷ (69714, 69722)
    ∷ (127232, 127242)
    ∷ []

-- What `\d` matches.
unfoldable pub is_decimal : ℕ → Bool
unfolding in_ranges decimal_ranges
is_decimal c = in_ranges decimal_ranges c

-- `c.isdigit()`
unfoldable pub is_digit : ℕ → Bool
unfolding in_ranges is_decimal other_digit_ranges
is_digit c = is_decimal c || in_ranges other_digit_ranges c

pub is_digit-ascii : (c : ℕ) → b'0' ≤ c → c ≤ b'9' → is_digit c ≡ true
unfolding is_digit
is_digit-ascii c lo hi =
    let low : leb b'0' c ≡ true = ground arith in
    let high : leb c b'9' ≡ true = ground arith in rw (low, high)
