-- ===== src/Entries/Names.antt =====
-- A new charger gets a name that no other entry has.
use ha_wattpilot.Base.{
  ℕ, zero, suc, ◌+◌, ◌≤◌, ◌<◌, ◌≡◌, ◌≢◌, refl, ◌==◌, ==_iff, drop, ◌⊎◌, ap, sym, ◌∙◌, Bool-cases,
  inl, inr, true, false, not, ◌&&◌, Bool, Option, none, some, List, [], ◌∷◌, ◌++◌, length, arith,
  Text, codes, text_eq, text_eq_iff, text_eq_ne, if◌then◌else◌, show_nat, show_nat_injective,
}
use ha_wattpilot.Entries.Naming.{
  ConfigEntry, is_in, numbered, free_name, names_taken, new_device_name,
}

-- A list without the first that is equal.
without : Text → List Text → List Text
without s [] = []
without s (t ∷ ts) = let rest = without s ts in if text_eq t s then ts else t ∷ rest

length-without :
    (s : Text) (ts : List Text) → is_in s ts ≡ true → suc (length (without s ts)) ≡ length ts
unfolding is_in without
length-without s [] h = cc
length-without s (t ∷ ts) h = ground (arith, length-without s ts)

is_in-without :
    (s u : Text) (ts : List Text)
    → text_eq s u ≡ false
    → is_in u ts ≡ true
    → is_in u (without s ts) ≡ true
unfolding is_in without
is_in-without s u [] other h = cc
is_in-without s u (t ∷ ts) other h =
    ground (arith, is_in-without s u ts, text_eq_iff t s, text_eq_iff t u, text_eq_iff s u)

numbered_later : (n : ℕ) → (n == 1) ≡ false → numbered n ≡ codes "Wattpilot " ++ show_nat n
unfolding numbered
numbered_later n e = rw e refl

numbered_first : (n : ℕ) → (n == 1) ≡ true → numbered n ≡ codes "Wattpilot"
unfolding numbered
numbered_first n e = rw e refl

numbered_injective : (i j : ℕ) → numbered i ≡ numbered j → i ≡ j
numbered_injective i j e = elim (Bool-cases (i == 1)) [
  | inl first_i ↦ elim (Bool-cases (j == 1)) [
    | inl first_j ↦ ground (arith, ==_iff i 1, ==_iff j 1)
    | inr later_j ↦
        absurd (apart (show_nat j) (sym (numbered_first i first_i) ∙ e ∙ numbered_later j later_j))
  ]
  | inr later_i ↦ elim (Bool-cases (j == 1)) [
    | inl first_j ↦
        absurd
          (apart (show_nat i) (sym (numbered_first j first_j) ∙ sym e ∙ numbered_later i later_i))
    | inr later_j ↦
        show_nat_injective i j
          (ap (drop 10) (sym (numbered_later i later_i) ∙ e ∙ numbered_later j later_j))
  ]
]
  where
    apart : (s : Text) → codes "Wattpilot" ≢ codes "Wattpilot " ++ s
    apart s h = cc

-- As many numbered names in a row as are taken need as many names taken.
taken_many :
    (m n : ℕ) (taken : List Text)
    → ((i : ℕ) → n ≤ i → i < n + m → is_in (numbered i) taken ≡ true)
    → m ≤ length taken
taken_many zero n taken all = omega arith
taken_many (suc m) n taken all =
    let here = all n (omega arith) (omega arith) in
    let later = taken_many m (suc n) (without (numbered n) taken) (λ i above below.
      is_in-without (numbered n) (numbered i) taken
        (text_eq_ne (numbered n) (numbered i)
          (λ same. absurd (omega (arith, above, numbered_injective n i same))))
        (all i (omega arith) (omega arith))) in
    omega (arith, later, length-without (numbered n) taken here)

all_from :
    (n end : ℕ) (taken : List Text)
    → is_in (numbered n) taken ≡ true
    → ((i : ℕ) → suc n ≤ i → i < end → is_in (numbered i) taken ≡ true)
    → (i : ℕ) → n ≤ i
    → i < end
    → is_in (numbered i) taken ≡ true
all_from n end taken used all i above below = elim (Bool-cases (n == i)) [
  | inl same ↦ rw (sym ((==_iff n i).0 same)) used
  | inr other ↦ all i (ground (arith, ==_iff n i)) below
]

-- Where the search ends: at a free name, with every one before it taken.
abbrev pub IsFound : ℕ → List Text → Option Text → Type 0
IsFound n taken o =
    (m : ℕ) × (o ≡ some (numbered m))
    × (n ≤ m)
    × (is_in (numbered m) taken ≡ false)
    × ((i : ℕ) → n ≤ i → i < m → is_in (numbered i) taken ≡ true)

free_name_search :
    (fuel n : ℕ) (taken : List Text)
    → (free_name fuel n taken ≡ none
        × ((i : ℕ) → n ≤ i → i < n + fuel → is_in (numbered i) taken ≡ true))
      ⊎ IsFound n taken (free_name fuel n taken)
unfolding free_name
free_name_search zero n taken = inl (refl, (λ i above below. absurd (omega arith)))
free_name_search (suc fuel) n taken = elim (Bool-cases (is_in (numbered n) taken)) [
  | inr free ↦ inr (n, rw free refl, omega arith, free, λ i above below. absurd (omega arith))
  | inl used ↦ elim (free_name_search fuel (suc n) taken) [
    | inl (ended, all) ↦ inl (
      rw used ended,
      (all_from n (n + suc fuel) taken used (λ j up down. all j up (omega arith))),
    )
    | inr (m, found, above, free, all) ↦
        inr (m, rw used found, omega arith, free, all_from n m taken used all)
  ]
]

-- The search for a numbered name always ends, at the first one that no other entry has.
free_name-IsFound : (taken : List Text) → IsFound 1 taken (free_name (suc (length taken)) 1 taken)
free_name-IsFound taken = elim (free_name_search (suc (length taken)) 1 taken) [
  | inl (ended, all) ↦ absurd (omega (arith, taken_many (suc (length taken)) 1 taken all))
  | inr found ↦ found
]

-- Whether a name is preferred, and free.
unfoldable pub is_wanted : Option Text → List Text → Bool
is_wanted none taken = false
is_wanted (some s) taken = not (text_eq s []) && not (is_in s taken)

abbrev pub IsNamed : Option Text → List Text → Text → Type 0
IsNamed preferred taken name =
    ((is_wanted preferred taken ≡ true) × (preferred ≡ some name))
    ⊎ ((is_wanted preferred taken ≡ false) × IsFound 1 taken (some name))

counted_free :
    (preferred : Option Text) (taken : List Text)
    → is_wanted preferred taken ≡ false
    → (name : Text) × (free_name (suc (length taken)) 1 taken ≡ some name)
      × (is_in name taken ≡ false)
      × IsNamed preferred taken name
counted_free preferred taken unwanted =
    let (m, found, above, free, all) = free_name-IsFound taken in
    (numbered m, found, free, inr (unwanted, (m, refl, above, free, all)))

-- A new charger always gets a name, and one that no other entry has: the preferred one, where one is
-- given that is free, and otherwise the first free one of those that are numbered.
pub new_device_name_free :
    (preferred exclude : Option Text) (es : List ConfigEntry)
    → (name : Text) × (new_device_name preferred exclude es ≡ some name)
      × (is_in name (names_taken exclude es) ≡ false)
      × IsNamed preferred (names_taken exclude es) name
unfolding new_device_name is_wanted text_eq
new_device_name_free none exclude es = counted_free none (names_taken exclude es) refl
new_device_name_free (some []) exclude es = counted_free (some []) (names_taken exclude es) refl
new_device_name_free (some (c ∷ s)) exclude es =
    let taken = names_taken exclude es in
    elim (Bool-cases (is_in (c ∷ s) taken)) [
      | inl used ↦
          let unwanted : is_wanted (some (c ∷ s)) taken ≡ false = rw (is_wanted, used) refl in
          let (name, ended, free, named) = counted_free (some (c ∷ s)) taken unwanted in
          (name, rw (used, new_device_name) ended, free, named)
      | inr free ↦ (c ∷ s, rw (free, new_device_name) refl, free, inl (ap not free, refl))
    ]
