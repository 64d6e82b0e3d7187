-- ===== src/Api/Auth/Salt.antt =====
-- The bcrypt salt of custom_components/wattpilot/api/auth.py.
use ha_wattpilot.Base.{
  ℕ, zero, suc, ◌-◌, ◌≤◌, ◌<◌, ◌≡◌, refl, sym, ap, ◌∙◌, true, some, List, [], ◌∷◌, ◌++◌, map, arith,
  Text, codes, All, All-append, length, replicate, take, drop, drop-append, length-append,
  length-replicate, is_digit, is_digit-ascii, all, lt→ltb, show_nat,
}
use ha_wattpilot.Api.Auth.{base64_encode, encode_base64_string, bcrypt_salt, fits_bytes}
use ha_wattpilot.Api.Auth.Base64.{IsByte, decode, base64_encode_roundtrip}

abbrev IsAsciiDigit : ℕ → Type 0
IsAsciiDigit c = (b'0' ≤ c) × (c ≤ b'9')

-- What a charger's serial is made of.
abbrev IsSerial : Text → Type 0
IsSerial s = (0 < length s) × All IsAsciiDigit s

digit_values : Text → List ℕ
digit_values = map (λ ch. ch - b'0')

padded : Text → List ℕ
unfolding digit_values
padded s = replicate (16 - length (digit_values s)) 0 ++ digit_values s

all-is_digit : (s : Text) → All IsAsciiDigit s → all is_digit s ≡ true
all-is_digit [] h = refl
all-is_digit (c ∷ s) h = rw (is_digit-ascii c h.0.0 h.0.1, all-is_digit s h.1)

digit_values-IsByte : (s : Text) → All IsAsciiDigit s → All IsByte (digit_values s)
unfolding digit_values
digit_values-IsByte [] h = tt
digit_values-IsByte (c ∷ s) h = (omega (arith, h.0), digit_values-IsByte s h.1)

zeros-IsByte : (n : ℕ) → All IsByte (replicate n 0)
zeros-IsByte zero = tt
zeros-IsByte (suc n) = (omega arith, zeros-IsByte n)

IsByte-fits : (b : List ℕ) → All IsByte b → fits_bytes b ≡ true
IsByte-fits [] h = refl
IsByte-fits (c ∷ b) h = rw (lt→ltb c 256 h.0, IsByte-fits b h.1)

length-digit_values : (s : Text) → length (digit_values s) ≡ length s
unfolding digit_values
length-digit_values [] = refl
length-digit_values (c ∷ s) = ap suc (length-digit_values s)

digit_values_injective :
    (s t : Text) → All IsAsciiDigit s → All IsAsciiDigit t → digit_values s ≡ digit_values t → s ≡ t
unfolding digit_values
digit_values_injective [] [] hs ht e = refl
digit_values_injective [] (d ∷ t) hs ht e = cc
digit_values_injective (c ∷ s) [] hs ht e = cc
digit_values_injective (c ∷ s) (d ∷ t) hs ht e =
    ground (arith, digit_values_injective s t hs.1 ht.1)

padded-IsByte : (s : Text) → All IsAsciiDigit s → All IsByte (padded s)
unfolding padded
padded-IsByte s h =
    All-append IsByte (replicate (16 - length (digit_values s)) 0) (digit_values s)
      (zeros-IsByte _, digit_values-IsByte s h)

length-padded : (s : Text) → length s ≤ 16 → length (padded s) ≡ 16
unfolding padded
length-padded s h = omega (
  arith,
  length-append (replicate {A = ℕ} (16 - length (digit_values s)) 0) (digit_values s),
  length-replicate {A = ℕ} (16 - length (digit_values s)) 0,
  length-digit_values s,
)

encode_base64_string-padded :
    (s : Text) → IsSerial s → encode_base64_string s 16 ≡ base64_encode (padded s) 16
unfolding encode_base64_string padded digit_values
encode_base64_string-padded [] h = absurd (omega (arith, h.0))
encode_base64_string-padded (c ∷ s) h =
    rw (all-is_digit (c ∷ s) h.1) (rw (IsByte-fits (padded (c ∷ s)) (padded-IsByte (c ∷ s) h.1)))

bcrypt_salt-eq_some :
    (s u : Text)
    → encode_base64_string s 16 ≡ some u
    → bcrypt_salt s 8 ≡ some (codes "$2a$08$" ++ u)
unfolding bcrypt_salt show_nat
bcrypt_salt-eq_some s u e = rw (e, bcrypt_salt)

-- The salt of a serial, with the encoded bytes that it ends in.
salt_parts :
    (s : Text)
    → IsSerial s
    → length s ≤ 16
    → (u : Text) × (bcrypt_salt s 8 ≡ some (codes "$2a$08$" ++ u))
      × (decode u ≡ take 16 (padded s))
      × (length u ≡ 22)
salt_parts s h short =
    let (u, made, back, size) =
      base64_encode_roundtrip (padded s) 16 (padded-IsByte s h.1) (omega arith)
        (omega (arith, length-padded s short)) in
    (u, bcrypt_salt-eq_some s u (encode_base64_string-padded s h ∙ made), back, size)

-- A serial of 1 to 16 digits always gives a salt, of the 29 characters that bcrypt expects.
bcrypt_salt_total :
    (s : Text)
    → IsSerial s
    → length s ≤ 16
    → (t : Text) × (bcrypt_salt s 8 ≡ some t) × (length t ≡ 29)
bcrypt_salt_total s h short =
    let (u, made, back, size) = salt_parts s h short in
    (codes "$2a$08$" ++ u, made, omega (arith, size))

take_all : (n : ℕ) (b : List ℕ) → length b ≡ n → take n b ≡ b
take_all zero [] h = refl
take_all zero (x ∷ b) h = absurd (omega arith)
take_all (suc n) [] h = absurd (omega arith)
take_all (suc n) (x ∷ b) h = ap (λ (r : List ℕ). x ∷ r) (take_all n b (omega arith))

padded_injective :
    (s t : Text)
    → All IsAsciiDigit s
    → All IsAsciiDigit t
    → length s ≡ length t
    → padded s ≡ padded t
    → s ≡ t
unfolding padded
padded_injective s t hs ht same e =
    let zeros_s : List ℕ = replicate (16 - length (digit_values s)) 0 in
    let zeros_t : List ℕ = replicate (16 - length (digit_values t)) 0 in
    let lengths : length zeros_s ≡ length zeros_t = omega (
      arith,
      same,
      length-digit_values s,
      length-digit_values t,
      length-replicate {A = ℕ} (16 - length (digit_values s)) 0,
      length-replicate {A = ℕ} (16 - length (digit_values t)) 0,
    ) in
    let tails : drop (length zeros_s) (padded s) ≡ drop (length zeros_t) (padded t) =
      rw (lengths, e) in
    digit_values_injective s t hs ht
      (sym (drop-append zeros_s (digit_values s)) ∙ tails ∙ drop-append zeros_t (digit_values t))

-- Two chargers whose serials have as many digits never share a salt.
bcrypt_salt_injective :
    (s t : Text)
    → IsSerial s
    → IsSerial t
    → length s ≡ length t
    → length s ≤ 16
    → bcrypt_salt s 8 ≡ bcrypt_salt t 8
    → s ≡ t
bcrypt_salt_injective s t hs ht same short e =
    let (u, made_u, back_u, size_u) = salt_parts s hs short in
    let (v, made_v, back_v, size_v) = salt_parts t ht (omega arith) in
    let salts : some (codes "$2a$08$" ++ u) ≡ some (codes "$2a$08$" ++ v) =
      sym made_u ∙ e ∙ made_v in
    let encoded : u ≡ v = cc in
    padded_injective s t hs.1 ht.1 same (
      sym (take_all 16 (padded s) (length-padded s short))
      ∙ sym back_u
      ∙ ap decode encoded
      ∙ back_v
      ∙ take_all 16 (padded t) (length-padded t (omega arith)))
