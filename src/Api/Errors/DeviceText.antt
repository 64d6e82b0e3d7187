-- ===== src/Api/Errors/DeviceText.antt =====
-- What `device_text` of custom_components/wattpilot/api/exceptions.py leaves of the charger's text.
use ha_wattpilot.Base.{
  ℕ, zero, suc, ◌≤◌, ◌<◌, ◌≡◌, refl, false, List, [], ◌∷◌, ◌++◌, arith, Text, codes, length, take,
  All, All-append, All-take, length-take, is_space, is_decimal, if◌then◌else◌, leb, Bool-cases, inl,
  inr, ◌⊎◌,
}
use ha_wattpilot.Json.{Value, text}
use ha_wattpilot.Api.Errors.{device_text, split_from, flush, join_words, mask_numbers, masked_run}

-- The number of digits that a text begins with.
abbrev leading_digits : Text → ℕ
leading_digits [] = 0
leading_digits (c ∷ s) = let n = leading_digits s in if is_decimal c then suc n else 0

-- No five digits stand in a row.
abbrev pub HasNoLongNumber : Text → Type 0
HasNoLongNumber [] = Unit
HasNoLongNumber (c ∷ s) = (leading_digits (c ∷ s) < 5) × HasNoLongNumber s

leading_digits-append : (r t : Text) → leading_digits t ≡ 0 → leading_digits (r ++ t) ≤ length r
leading_digits-append [] t h = omega arith
leading_digits-append (c ∷ r) t h = ground (arith, leading_digits-append r t h)

append-HasNoLongNumber :
    (r t : Text)
    → length r < 5
    → leading_digits t ≡ 0
    → HasNoLongNumber t
    → HasNoLongNumber (r ++ t)
append-HasNoLongNumber [] t l z h = h
append-HasNoLongNumber (c ∷ r) t l z h =
    (omega (arith, leading_digits-append (c ∷ r) t z), append-HasNoLongNumber r t (omega arith) z h)

length-masked_run : (run : Text) → length (masked_run run) < 5
length-masked_run run = ground arith

append_nil : (t : Text) → t ++ [] ≡ t
append_nil [] = refl
append_nil (c ∷ t) = rw (append_nil t)

mask_numbers-HasNoLongNumber : (run s : Text) → HasNoLongNumber (mask_numbers run s)
unfolding mask_numbers
mask_numbers-HasNoLongNumber run [] =
    rw (append_nil (masked_run run)) at
      (append-HasNoLongNumber (masked_run run) [] (length-masked_run run) refl tt)
mask_numbers-HasNoLongNumber run (c ∷ s) = elim (Bool-cases (is_decimal c)) [
  | inl digit ↦ rw digit (mask_numbers-HasNoLongNumber (run ++ c ∷ []) s)
  | inr other ↦ rw other (
      append-HasNoLongNumber (masked_run run) (c ∷ mask_numbers [] s) (length-masked_run run)
        (rw other) (rw other (omega arith, mask_numbers-HasNoLongNumber [] s)))
]

leading_digits-take : (n : ℕ) (t : Text) → leading_digits (take n t) ≤ leading_digits t
leading_digits-take zero t = omega arith
leading_digits-take (suc n) [] = omega arith
leading_digits-take (suc n) (c ∷ t) = ground (arith, leading_digits-take n t)

take-HasNoLongNumber : (n : ℕ) (t : Text) → HasNoLongNumber t → HasNoLongNumber (take n t)
take-HasNoLongNumber zero t h = tt
take-HasNoLongNumber (suc n) [] h = tt
take-HasNoLongNumber (suc n) (c ∷ t) h =
    (omega (arith, leading_digits-take (suc n) (c ∷ t), h.0), take-HasNoLongNumber n t h.1)

-- A character that leaves a log entry on one line: a plain space, or no white space at all.
abbrev pub IsInline : ℕ → Type 0
IsInline c = (is_space c ≡ false) ⊎ (c ≡ b' ')

abbrev IsWord : Text → Type 0
IsWord = All (λ c. is_space c ≡ false)

flush-IsWord : (w : Text) (ws : List Text) → IsWord w → All IsWord ws → All IsWord (flush w ws)
flush-IsWord [] ws h rest = rest
flush-IsWord (c ∷ w) ws h rest = (h, rest)

split_from-IsWord : (w s : Text) → IsWord w → All IsWord (split_from w s)
unfolding split_from
split_from-IsWord w [] h = flush-IsWord w [] h tt
split_from-IsWord w (c ∷ s) h = elim (Bool-cases (is_space c)) [
  | inl space ↦ rw space (flush-IsWord w _ h (split_from-IsWord [] s tt))
  | inr other ↦ rw other (
      split_from-IsWord (w ++ c ∷ []) s
        (All-append (λ a. is_space a ≡ false) w (c ∷ []) (h, (other, tt))))
]

word-IsInline : (w : Text) → IsWord w → All IsInline w
word-IsInline [] h = tt
word-IsInline (c ∷ w) h = (inl h.0, word-IsInline w h.1)

join_words-IsInline : (ws : List Text) → All IsWord ws → All IsInline (join_words ws)
unfolding join_words
join_words-IsInline [] h = tt
join_words-IsInline (w ∷ []) h = word-IsInline w h.0
join_words-IsInline (w ∷ v ∷ ws) h =
    All-append IsInline w _ (word-IsInline w h.0, (inr refl, join_words-IsInline (v ∷ ws) h.1))

star-IsInline : is_space b'*' ≡ false
unfolding is_space
star-IsInline = refl

masked_run-IsInline : (run : Text) → All IsInline run → All IsInline (masked_run run)
masked_run-IsInline run h = elim (Bool-cases (leb 5 (length run))) [
  | inl long ↦
      rw long (inl star-IsInline, (inl star-IsInline, (inl star-IsInline, (inl star-IsInline, tt))))
  | inr short ↦ rw short h
]

mask_numbers-IsInline :
    (run s : Text) → All IsInline run → All IsInline s → All IsInline (mask_numbers run s)
unfolding mask_numbers
mask_numbers-IsInline run [] hr h = masked_run-IsInline run hr
mask_numbers-IsInline run (c ∷ s) hr h = elim (Bool-cases (is_decimal c)) [
  | inl digit ↦ rw digit (
      mask_numbers-IsInline (run ++ c ∷ []) s (All-append IsInline run (c ∷ []) (hr, (h.0, tt)))
        h.1)
  | inr other ↦ rw other (
      All-append IsInline (masked_run run) _
        (masked_run-IsInline run hr, (h.0, mask_numbers-IsInline [] s tt h.1)))
]

unreadable_short : HasNoLongNumber (codes "unreadable")
unfolding is_decimal
unreadable_short = omega arith

unreadable-IsInline : All IsInline (codes "unreadable")
unfolding is_space
unreadable-IsInline = (
  inl refl,
  (
    inl refl,
    (
      inl refl,
      (inl refl, (inl refl, (inl refl, (inl refl, (inl refl, (inl refl, (inl refl, tt))))))),
    ),
  ),
)

-- Whatever value the charger has sent, `device_text` makes of it at most 80 characters on one line, in
-- which no five digits stand in a row.
pub device_text_safe :
    (v : Value)
    → (length (device_text v) ≤ 80) × HasNoLongNumber (device_text v) × All IsInline (device_text v)
unfolding device_text
device_text_safe (text s) =
    let t = mask_numbers [] (join_words (split_from [] s)) in
    (
      omega (arith, length-take {0} 80 t),
      take-HasNoLongNumber 80 t (mask_numbers-HasNoLongNumber [] _),
      All-take IsInline 80 t
          (mask_numbers-IsInline [] _ tt (join_words-IsInline _ (split_from-IsWord [] s tt))),
    )
device_text_safe _ = (omega arith, unreadable_short, unreadable-IsInline)
