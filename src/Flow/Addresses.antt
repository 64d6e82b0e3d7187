-- ===== src/Flow/Addresses.antt =====
-- What an announcement does to the address of the entry of its charger.
use ha_wattpilot.Base.{
  if◌then◌else◌, ℕ, zero, suc, ◌-◌, ◌<◌, ◌≡◌, refl, ap, sym, ◌∙◌, Bool, true, false, not, ◌&&◌, [],
  ◌∷◌, ◌++◌, arith, all, ltb, ◌==◌, ==_iff, Text, Bool-cases, inl, inr, show_nat, read_nat,
}
use mathlib.Core.List.{append-nil, append_assoc}
use ha_wattpilot.Flow.Discovery.{dotted, is_octet, is_dotted, is_ipv4}

-- No dot in a text.
abbrev no_dot : Text → Bool
no_dot = all (λ c. not (c == b'.'))

-- A test that each byte up to a bound passes.
passes : (ℕ → Bool) → ℕ → Bool
passes test zero = true
passes test (suc k) = if passes test k then test k else false

passes-byte :
    (test : ℕ → Bool) (bound byte : ℕ) → passes test bound ≡ true → byte < bound → test byte ≡ true
unfolding passes
passes-byte test zero byte every under = absurd (omega arith)
passes-byte test (suc k) byte every under =
    let most : passes test k ≡ true = ground (arith, every) in
    let last : test k ≡ true = ground (arith, every) in
    elim (Bool-cases (byte == k)) [
      | inl same ↦ ap test ((==_iff byte k).0 same) ∙ last
      | inr other ↦ passes-byte test k byte most (ground (arith, under, other))
    ]

octets : passes (λ n. is_octet (show_nat n) && no_dot (show_nat n)) 256 ≡ true
unfolding passes is_octet show_nat read_nat
octets = refl

octet : (n : ℕ) → n < 256 → (is_octet (show_nat n) ≡ true) × (no_dot (show_nat n) ≡ true)
octet n below =
    let both = passes-byte (λ k. is_octet (show_nat k) && no_dot (show_nat k)) 256 n octets below in
    (ground (arith, both), ground (arith, both))

suc-sub : (n : ℕ) → suc n - 1 ≡ n
suc-sub n = omega arith

suc_positive : (n : ℕ) → ltb 0 (suc n) ≡ true
suc_positive n = ground arith

-- The digits of a part are read up to its dot, or to the end.
is_dotted-part :
    (more : ℕ) (part s rest : Text)
    → no_dot s ≡ true
    → is_dotted (suc more) part (s ++ b'.' ∷ rest)
      ≡ (is_octet (part ++ s) && is_dotted more [] rest)
unfolding is_dotted
is_dotted-part more part [] rest h = simp (append-nil, suc_positive more, suc-sub more) refl
is_dotted-part more part (c ∷ s) rest h =
    let other : (c == b'.') ≡ false = ground (arith, h) in
    let later : no_dot s ≡ true = ground (arith, h) in
    rw other (
      is_dotted-part more (part ++ c ∷ []) s rest later
      ∙ ap (λ t. is_octet t && is_dotted more [] rest) (append_assoc part (c ∷ []) s))

is_dotted-last : (part s : Text) → no_dot s ≡ true → is_dotted 0 part s ≡ is_octet (part ++ s)
unfolding is_dotted
is_dotted-last part [] h = ap is_octet (sym (append-nil part))
is_dotted-last part (c ∷ s) h =
    let other : (c == b'.') ≡ false = ground (arith, h) in
    let later : no_dot s ≡ true = ground (arith, h) in
    rw other (is_dotted-last (part ++ c ∷ []) s later ∙ ap is_octet (append_assoc part (c ∷ []) s))

-- An announced address is read back as one of IPv4.
is_ipv4-dotted :
    (a b c d : ℕ) → a < 256 → b < 256 → c < 256 → d < 256 → is_ipv4 (dotted a b c d) ≡ true
unfolding is_ipv4 dotted
is_ipv4-dotted a b c d a_byte b_byte c_byte d_byte =
    is_dotted-part 2 [] (show_nat a) _ (octet a a_byte).1
    ∙ ap2_and (octet a a_byte).0 (
        is_dotted-part 1 [] (show_nat b) _ (octet b b_byte).1
        ∙ ap2_and (octet b b_byte).0 (
            is_dotted-part 0 [] (show_nat c) _ (octet c c_byte).1
            ∙ ap2_and (octet c c_byte).0
                (is_dotted-last [] (show_nat d) (octet d d_byte).1 ∙ (octet d d_byte).0)))
  where
    ap2_and : {x y : Bool} → x ≡ true → y ≡ true → (x && y) ≡ true
    ap2_and p q = ground (arith, p, q)
