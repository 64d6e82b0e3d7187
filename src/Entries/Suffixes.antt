-- ===== src/Entries/Suffixes.antt =====
-- Which suffix a legacy unique id is matched to, and that no two entities end up with one id.
use ha_wattpilot.Base.{
  ℕ, ◌≤◌, ◌≡◌, refl, sym, ap, ◌∙◌, Bool-cases, inl, inr, ◌&&◌, ◌||◌, Bool, true, false, Option,
  none, some, List, [], ◌∷◌, length, leb, arith, Text, text_eq, text_eq_iff, All,
}
use ha_wattpilot.Entries.Naming.{is_in}
use ha_wattpilot.Entries.Registry.{
  SuffixMap, ends_with, insert_by_length, sort_by_length, first_suffix, match_legacy_suffix,
  RegistryEntry, Migration, is_used, migrate, migrate_all, ids_in_use, migrate_legacy_unique_ids,
}

abbrev pub names_of : SuffixMap → List Text
names_of [] = []
names_of ((s, _) ∷ m) = s ∷ names_of m

-- Each is at least as long as the ones behind it.
abbrev IsSorted : List Text → Type 0
IsSorted [] = Unit
IsSorted (s ∷ ss) = All (λ t. length t ≤ length s) ss × IsSorted ss

is_in-insert_by_length :
    (s u : Text) (ts : List Text) → is_in u (insert_by_length s ts) ≡ (text_eq s u || is_in u ts)
unfolding is_in insert_by_length
is_in-insert_by_length s u [] = refl
is_in-insert_by_length s u (t ∷ ts) = ground (arith, is_in-insert_by_length s u ts)

is_in-sort_by_length :
    (u : Text) (m : SuffixMap) → is_in u (sort_by_length m) ≡ is_in u (names_of m)
unfolding is_in sort_by_length
is_in-sort_by_length u [] = refl
is_in-sort_by_length u ((s, _) ∷ m) =
    rw (is_in-insert_by_length s u (sort_by_length m), is_in-sort_by_length u m) refl

All-insert_by_length :
    (n : ℕ) (s : Text) (ts : List Text)
    → length s ≤ n
    → All (λ t. length t ≤ n) ts
    → All (λ t. length t ≤ n) (insert_by_length s ts)
unfolding insert_by_length
All-insert_by_length n s [] h hs = (h, tt)
All-insert_by_length n s (t ∷ ts) h hs = ground (arith, All-insert_by_length n s ts)

All-longer :
    (m n : ℕ) (ts : List Text) → m ≤ n → All (λ t. length t ≤ m) ts → All (λ t. length t ≤ n) ts
All-longer m n [] h hs = tt
All-longer m n (t ∷ ts) h hs = (omega (arith, hs.0), All-longer m n ts h hs.1)

insert_by_length-IsSorted :
    (s : Text) (ts : List Text) → IsSorted ts → IsSorted (insert_by_length s ts)
unfolding insert_by_length
insert_by_length-IsSorted s [] h = (tt, tt)
insert_by_length-IsSorted s (t ∷ ts) h = elim (Bool-cases (leb (length t) (length s))) [
  | inl longer ↦
      rw longer ((ground arith, All-longer (length t) (length s) ts (ground arith) h.0), h)
  | inr shorter ↦
      rw shorter (
        All-insert_by_length (length t) s ts (ground arith) h.0,
        insert_by_length-IsSorted s ts h.1,
      )
]

sort_by_length-IsSorted : (m : SuffixMap) → IsSorted (sort_by_length m)
unfolding sort_by_length
sort_by_length-IsSorted [] = tt
sort_by_length-IsSorted ((s, _) ∷ m) =
    insert_by_length-IsSorted s (sort_by_length m) (sort_by_length-IsSorted m)

-- A known suffix that the unique id ends with, behind a dash.
abbrev pub fits : Text → List Text → Text → Bool
fits unique_id known s = is_in s known && ends_with (b'-' ∷ s) unique_id

length-All :
    (u : Text) (n : ℕ) (ts : List Text)
    → All (λ t. length t ≤ n) ts
    → is_in u ts ≡ true
    → length u ≤ n
unfolding is_in
length-All u n [] hs h = cc
length-All u n (t ∷ ts) hs h = elim (Bool-cases (text_eq t u)) [
  | inl same ↦ rw (sym ((text_eq_iff t u).0 same)) hs.0
  | inr other ↦ length-All u n ts hs.1 (ground arith)
]

first_suffix-none :
    (unique_id u : Text) (ts : List Text)
    → first_suffix unique_id ts ≡ none
    → fits unique_id ts u ≡ false
unfolding first_suffix is_in
first_suffix-none unique_id u [] h = refl
first_suffix-none unique_id u (t ∷ ts) h =
    ground (arith, first_suffix-none unique_id u ts, text_eq_iff t u)

first_suffix-some :
    (unique_id s u : Text) (ts : List Text)
    → IsSorted ts
    → first_suffix unique_id ts ≡ some s
    → (fits unique_id ts s ≡ true) × (fits unique_id ts u ≡ true → length u ≤ length s)
unfolding first_suffix is_in
first_suffix-some unique_id s u [] sorted h = cc
first_suffix-some unique_id s u (t ∷ ts) sorted h = ground (
  arith,
  first_suffix-some unique_id s u ts,
  text_eq_iff t u,
  text_eq_iff t s,
  length-All u (length t) ts,
)

-- A legacy unique id is matched exactly when it ends with a known suffix behind a dash, and then to
-- one that no longer known suffix of it surpasses.
pub match_legacy_suffix_longest :
    (unique_id : Text) (m : SuffixMap)
    → ((s : Text)
        → match_legacy_suffix unique_id m ≡ some s
        → (fits unique_id (names_of m) s ≡ true)
          × ((u : Text) → fits unique_id (names_of m) u ≡ true → length u ≤ length s))
      × (match_legacy_suffix unique_id m ≡ none
          → (u : Text) → fits unique_id (names_of m) u ≡ false)
unfolding match_legacy_suffix
match_legacy_suffix_longest unique_id m = (
  λ s found. (
    (fits_sorted s ∙ (longest s s found).0),
    (λ u fit. (longest s u found).1 (sym (fits_sorted u) ∙ fit)),
  ),
  λ missing u. fits_sorted u ∙ first_suffix-none unique_id u (sort_by_length m) missing,
)
  where
    fits_sorted : (u : Text) → fits unique_id (names_of m) u ≡ fits unique_id (sort_by_length m) u
    fits_sorted u = ap (λ b. b && ends_with (b'-' ∷ u) unique_id) (sym (is_in-sort_by_length u m))

    longest :
        (s u : Text)
        → first_suffix unique_id (sort_by_length m) ≡ some s
        → (fits unique_id (sort_by_length m) s ≡ true)
          × (fits unique_id (sort_by_length m) u ≡ true → length u ≤ length s)
    longest s u found =
        first_suffix-some unique_id s u (sort_by_length m) (sort_by_length-IsSorted m) found

-- Ids of a list that differ from each other and from those of another list.
abbrev pub AreFresh : List (Text × Text) → List (Text × Text) → Type 0
AreFresh [] used = Unit
AreFresh ((d, i) ∷ ids) used = (is_used d i used ≡ false) × AreFresh ids ((d, i) ∷ used)

-- What one call of the callback does.
record IsMigrated (e : RegistryEntry) (g : Migration) (o : Option Text × Migration) : Type 0 where
  fresh : (t : Text) → o.0 ≡ some t → is_used e.domain t g.existing ≡ false
  noted : (t : Text) → o.0 ≡ some t → o.1.existing ≡ (e.domain, t) ∷ g.existing
  kept : o.0 ≡ none → o.1.existing ≡ g.existing

migrate-IsMigrated :
    (serial : Text) (m : SuffixMap) (e : RegistryEntry) (g : Migration)
    → IsMigrated e g (migrate serial m e g)
unfolding migrate
migrate-IsMigrated serial m e g = ground arith

migrate_all-AreFresh :
    (serial : Text) (m : SuffixMap) (es : List RegistryEntry) (g : Migration)
    → AreFresh (migrate_all serial m es g).0 g.existing
unfolding migrate_all
migrate_all-AreFresh serial m [] g = tt
migrate_all-AreFresh serial m (e ∷ es) g =
    after (migrate serial m e g).0 (migrate serial m e g).1 (migrate-IsMigrated serial m e g)
      (migrate_all-AreFresh serial m es (migrate serial m e g).1)
  where
    after :
        (o : Option Text) (g' : Migration)
        → IsMigrated e g (o, g')
        → AreFresh (migrate_all serial m es g').0 g'.existing
        → AreFresh
            (let ts = (migrate_all serial m es g').0 in
              let rs : List (Text × Text) = elim o [ some t ↦ (e.domain, t) ∷ ts | none ↦ ts ] in
              rs)
            g.existing
    after (some t) g' s rest = (s.fresh t refl, rw⁻¹ (s.noted t refl) rest)
    after none g' s rest = rw⁻¹ (s.kept refl) rest

-- A migration gives no two entities of a domain the same unique id, and none an id that an entity
-- of that domain has already.
pub migrate_legacy_unique_ids_fresh :
    (serial : Text) (m : SuffixMap) (es : List RegistryEntry)
    → AreFresh (migrate_legacy_unique_ids serial m es).0 (ids_in_use es)
unfolding migrate_legacy_unique_ids
migrate_legacy_unique_ids_fresh serial m es =
    migrate_all-AreFresh serial m es (record { existing = ids_in_use es; collisions = [] })
