-- ===== src/Api/Auth/Base64.antt =====
-- The encoding of custom_components/wattpilot/api/auth.py against a decoder of its own.
use ha_wattpilot.Base.{
  ℕ, zero, suc, ◌+◌, ◌*◌, ◌/◌, ◌%◌, ◌≤◌, ◌<◌, ◌≡◌, refl, sym, ap, ◌∙◌, Bool, true, false, some,
  List, [], ◌∷◌, arith, Text, ◌==◌, ==_iff, ◌&&◌, All, length, if◌then◌else◌, get_or, take, leb,
  ltb, length-take, All-take,
}
use ha_wattpilot.Api.Auth.{base64_code, symbol, encode_bytes, base64_encode}

abbrev pub IsByte : ℕ → Type 0
IsByte c = c < 256

-- The place of a symbol in the alphabet.
position : ℕ → Text → ℕ
position c [] = 0
position c (d ∷ s) = let rest = position c s in if c == d then 0 else suc rest

pub value : ℕ → ℕ
value c = position c base64_code

-- Whether every symbol from the n-th down is read back as its index.
read_back : ℕ → Bool
read_back zero = true
read_back (suc i) = let rest = read_back i in (value (symbol i) == i) && rest

read_back_lem : (i n : ℕ) → i < n → read_back n ≡ true → value (symbol i) ≡ i
unfolding read_back
read_back_lem i zero below all = absurd (omega arith)
read_back_lem i (suc n) below all = ground (arith, ==_iff (value (symbol i)) i, read_back_lem i n)

read_back_table : read_back 64 ≡ true
unfolding read_back value position symbol
read_back_table = refl

value-symbol_below : (i : ℕ) → i < 64 → value (symbol i) ≡ i
value-symbol_below i h = read_back_lem i 64 h read_back_table

symbol-mod : (i : ℕ) → symbol (i % 64) ≡ symbol i
unfolding symbol
symbol-mod i =
    let same : i % 64 % 64 ≡ i % 64 = omega arith in ap (λ (j : ℕ). get_or base64_code j 0) same

value-symbol : (i : ℕ) → value (symbol i) ≡ i % 64
value-symbol i = ap value (sym (symbol-mod i)) ∙ value-symbol_below (i % 64) (omega arith)

-- Four symbols hold three bytes, three hold two, two hold one.
pub decode : Text → List ℕ
decode (a ∷ b ∷ []) = (value a * 4 + value b / 16) ∷ []
decode (a ∷ b ∷ c ∷ []) = (value a * 4 + value b / 16) ∷ (value b % 16 * 16 + value c / 4) ∷ []
decode (a ∷ b ∷ c ∷ d ∷ s) =
    (value a * 4 + value b / 16)
    ∷ (value b % 16 * 16 + value c / 4)
    ∷ (value c % 4 * 64 + value d)
    ∷ decode s
decode _ = []

decode-encode_bytes : (bs : List ℕ) → All IsByte bs → decode (encode_bytes bs) ≡ bs
unfolding decode encode_bytes
decode-encode_bytes [] h = refl
decode-encode_bytes (c1 ∷ []) h = ground (arith, value-symbol (c1 / 4), value-symbol (c1 % 4 * 16))
decode-encode_bytes (c1 ∷ c2 ∷ []) h = ground (
  arith,
  value-symbol (c1 / 4),
  value-symbol (c1 % 4 * 16 + c2 / 16 % 16),
  value-symbol (c2 % 16 * 4),
)
decode-encode_bytes (c1 ∷ c2 ∷ c3 ∷ bs) h = ground (
  arith,
  value-symbol (c1 / 4),
  value-symbol (c1 % 4 * 16 + c2 / 16 % 16),
  value-symbol (c2 % 16 * 4 + c3 / 64 % 4),
  value-symbol c3,
  decode-encode_bytes bs,
)

length-encode_bytes : (bs : List ℕ) → length (encode_bytes bs) ≡ (4 * length bs + 2) / 3
unfolding encode_bytes
length-encode_bytes [] = refl
length-encode_bytes (c1 ∷ []) = refl
length-encode_bytes (c1 ∷ c2 ∷ []) = refl
length-encode_bytes (c1 ∷ c2 ∷ c3 ∷ bs) = omega (arith, length-encode_bytes bs)

-- Every number of bytes from one up to all of them is encoded, into four symbols for each three
-- bytes and rounded up, and the decoder gives exactly those bytes back.
pub base64_encode_roundtrip :
    (b : List ℕ) (n : ℕ)
    → All IsByte b
    → 0 < n
    → n ≤ length b
    → (t : Text) × (base64_encode b n ≡ some t)
      × (decode t ≡ take n b)
      × (length t ≡ (4 * n + 2) / 3)
unfolding base64_encode
base64_encode_roundtrip b n bytes positive fits =
    let few : leb n 0 ≡ false = ground arith in
    let short : ltb (length b) n ≡ false = ground arith in
    (
      encode_bytes (take n b),
      rw (few, short),
      decode-encode_bytes (take n b) (All-take IsByte n b bytes),
      omega (arith, length-encode_bytes (take n b), length-take n b),
    )
