-- ===== src/Update/Newest.antt =====
-- The version shown as the latest is the newest one that is offered.
use ha_wattpilot.Base.{
  ◌≡◌, refl, sym, ap, All, text_eq_refl, ◌∙◌, Bool-cases, Option-cases, inl, inr, Bool, true, false,
  Option, none, some, List, [], ◌∷◌, arith, Text, if◌then◌else◌,
}
use mathlib.Core.Path.{subst}
use ha_wattpilot.Update.{Versions, ranked, newest_of, newest_version, is_offered}

some_injective : {A : Type 0} {a b : A} → some a ≡ some b → a ≡ b
some_injective {A} {a} {b} e = ap (λ (o : Option A). elim o [ some x ↦ x | none ↦ a ]) e

offered-All :
    (front ss : List Text)
    → ((s : Text) → is_offered (some s) front ≡ true → is_offered (some s) ss ≡ true)
    → All (λ s. is_offered (some s) ss ≡ true) front
unfolding is_offered
offered-All [] ss sub = tt
offered-All (t ∷ front) ss sub =
    let same = text_eq_refl t in
    (sub t (rw same refl), offered-All front ss (λ s h. sub s (ground arith)))

module _ {V : Type 0} (py : Versions V) where
  -- What `Version` documents: not older than itself, and of two in a row the order carries over.
  pub record IsOrder : Type 0 where
    pub irreflexive : (v : V) → py.is_older v v ≡ false
    pub negatively_transitive :
        (u v w : V) → py.is_older u v ≡ false → py.is_older v w ≡ false → py.is_older u w ≡ false
    pub asymmetric : (u v : V) → py.is_older u v ≡ true → py.is_older v u ≡ false

  -- None of the list is newer.
  abbrev pub IsNewest : V → List (Text × V) → Type 0
  IsNewest b [] = Unit
  IsNewest b (r ∷ rs) = (py.is_older b r.1 ≡ false) × IsNewest b rs

  newest_of-lower :
      (o : IsOrder) (best : Text × V) (u : V) (rs : List (Text × V))
      → py.is_older best.1 u ≡ false
      → py.is_older (newest_of py best rs).1 u ≡ false
  unfolding newest_of
  newest_of-lower o best u [] h = h
  newest_of-lower o best u (r ∷ rs) h = elim (Bool-cases (py.is_older best.1 r.1)) [
    | inl newer ↦
        rw (newer, newest_of)
          (newest_of-lower o r u rs
            (o.negatively_transitive r.1 best.1 u (o.asymmetric best.1 r.1 newer) h))
    | inr older ↦ rw (older, newest_of) (newest_of-lower o best u rs h)
  ]

  newest_of-cons :
      (best r : Text × V) (rs : List (Text × V)) (b : Bool)
      → py.is_older best.1 r.1 ≡ b
      → newest_of py best (r ∷ rs) ≡ newest_of py (if b then r else best) rs
  unfolding newest_of
  newest_of-cons best r rs b e = ap (λ (c : Bool). newest_of py (if c then r else best) rs) e

  newest_of-IsNewest :
      (o : IsOrder) (best : Text × V) (rs : List (Text × V)) → IsNewest (newest_of py best rs).1 rs
  unfolding newest_of
  newest_of-IsNewest o best [] = tt
  newest_of-IsNewest o best (r ∷ rs) = elim (Bool-cases (py.is_older best.1 r.1)) [
    | inl newer ↦
        subst (λ (x : Text × V). (py.is_older x.1 r.1 ≡ false) × IsNewest x.1 rs)
          (sym (newest_of-cons best r rs true newer))
          (newest_of-lower o r r.1 rs (o.irreflexive r.1), newest_of-IsNewest o r rs)
    | inr older ↦
        subst (λ (x : Text × V). (py.is_older x.1 r.1 ≡ false) × IsNewest x.1 rs)
          (sym (newest_of-cons best r rs false older))
          (newest_of-lower o best r.1 rs older, newest_of-IsNewest o best rs)
  ]

  All-newest_of :
      (P : Text × V → Type 0) (best : Text × V) (rs : List (Text × V))
      → P best
      → All P rs
      → P (newest_of py best rs)
  unfolding newest_of
  All-newest_of P best [] here hs = here
  All-newest_of P best (r ∷ rs) here hs = elim (Bool-cases (py.is_older best.1 r.1)) [
    | inl newer ↦ rw (newer, newest_of) (All-newest_of P r rs hs.0 hs.1)
    | inr older ↦ rw (older, newest_of) (All-newest_of P best rs here hs.1)
  ]

  -- A version as it was read, with what holds of its text.
  abbrev IsRead : (Text → Type 0) → Text × V → Type 0
  IsRead Q r = (py.parse r.0 ≡ some r.1) × Q r.0

  All-ranked : (Q : Text → Type 0) (ss : List Text) → All Q ss → All (IsRead Q) (ranked py ss)
  unfolding ranked
  All-ranked Q [] h = tt
  All-ranked Q (s ∷ ss) h = elim (Option-cases (py.parse s)) [
    | inl unread ↦ rw (unread, ranked) (All-ranked Q ss h.1)
    | inr (v, read) ↦ rw (read, ranked) ((read, h.0), All-ranked Q ss h.1)
  ]

  newest_of_read :
      (o : IsOrder) (Q : Text → Type 0) (r : Text × V) (rest : List (Text × V)) (s : Text)
      → All (IsRead Q) (r ∷ rest)
      → (newest_of py r rest).0 ≡ s
      → Q s × ((v : V) → py.parse s ≡ some v → IsNewest v (r ∷ rest))
  newest_of_read o Q r rest s reads e =
      let best = All-newest_of (IsRead Q) r rest reads.0 reads.1 in
      (
        subst Q e best.1,
        λ v read.
            (let same : (newest_of py r rest).1 ≡ v =
                some_injective (sym best.0 ∙ ap py.parse e ∙ read) in
              subst (λ u. IsNewest u (r ∷ rest)) same
                (newest_of-lower o r r.1 rest (o.irreflexive r.1), newest_of-IsNewest o r rest)),
      )

  -- Where no version can be read, the first is taken.
  first_unread :
      (ss : List Text)
      → (let o : Option Text = elim ss [ [] ↦ none | s ∷ _ ↦ some s ] in
          (o ≡ none → ss ≡ []) × ((s : Text) → o ≡ some s → is_offered (some s) ss ≡ true))
  unfolding is_offered
  first_unread [] = ((λ e. refl), (λ s e. cc))
  first_unread (t ∷ ss) = ((λ e. cc), (λ s e. rw (some_injective e) (rw (text_eq_refl s) refl)))

  -- The latest version is one that is offered, there is one as soon as anything is offered, and of
  -- the versions that can be read none is newer than it, given that the library's order is one.
  pub newest_version-IsNewest :
      (o : IsOrder) (ss : List Text)
      → (newest_version py ss ≡ none → ss ≡ [])
        × ((s : Text)
            → newest_version py ss ≡ some s
            → (is_offered (some s) ss ≡ true)
              × ((v : V) → py.parse s ≡ some v → IsNewest v (ranked py ss)))
  unfolding newest_version
  newest_version-IsNewest o ss =
      chosen (ranked py ss)
        (All-ranked (λ s. is_offered (some s) ss ≡ true) ss (offered-All ss ss (λ s h. h)))
    where
      chosen :
          (rs : List (Text × V))
          → All (IsRead (λ s. is_offered (some s) ss ≡ true)) rs
          → (let o : Option Text = elim rs [
            | r ∷ rest ↦ some (newest_of py r rest).0
            | [] ↦ elim ss [ [] ↦ none | s ∷ _ ↦ some s ]
          ] in
              (o ≡ none → ss ≡ [])
              × ((s : Text)
                  → o ≡ some s
                  → (is_offered (some s) ss ≡ true)
                    × ((v : V) → py.parse s ≡ some v → IsNewest v rs)))
      chosen (r ∷ rest) reads = (
        (λ e. cc),
        (λ s e.
            newest_of_read o (λ s. is_offered (some s) ss ≡ true) r rest s reads
              (some_injective e)),
      )
      chosen [] reads = ((first_unread ss).0, (λ s e. ((first_unread ss).1 s e, (λ v read. tt))))
