-- ===== src/Redaction/Companion.antt =====
-- That the stand-ins for a companion device hide what identifies it (`_sanitized_companion`).
use ha_wattpilot.Base.{
  ◌≡◌, refl, ap, sym, true, false, List, [], ◌∷◌, arith, Text, codes, text_eq, text_eq_refl,
  text_eq_sound, Bool-cases, ◌⊎◌, inl, inr, some,
}
use mathlib.Core.Path.{subst}
use ha_wattpilot.Json.{Value, null, text, Dict, entry, get, get_else, insert, truthy}
use ha_wattpilot.Entities.Identity.{is_among}
use ha_wattpilot.Redaction.Scrub.{stand_in}
use ha_wattpilot.Redaction.Properties.{stand_in_field}

-- What identifies the companion device of an installation.
abbrev pub companion_keys : List Text
companion_keys = codes "id" ∷ codes "label" ∷ codes "commonName" ∷ []

-- Two dictionaries that differ in one field, which neither leaves empty.
pub data AlikeAt (f : Text) : Dict → Dict → Type 0 where
  at_field :
      {x y : Value} {d : Dict}
      → truthy x ≡ true
      → truthy y ≡ true
      → AlikeAt f (entry f x d) (entry f y d)
  behind :
      {k : Text} {v : Value} {d e : Dict}
      → text_eq k f ≡ false
      → AlikeAt f d e
      → AlikeAt f (entry k v d) (entry k v e)

get-at_other : (f g : Text) {d e : Dict} → text_eq f g ≡ false → AlikeAt f d e → get g d ≡ get g e
unfolding get
get-at_other f g other (at_field {x} {y} {d} a b) = rw other refl
get-at_other f g other (behind {k} {v} {d} {e} apart h) = rw (get-at_other f g other h) refl

insert-at_other :
    (f g : Text) (r : Value) {d e : Dict}
    → text_eq f g ≡ false
    → AlikeAt f d e
    → AlikeAt f (insert g r d) (insert g r e)
unfolding insert
insert-at_other f g r other (at_field {x} {y} {d} a b) = rw other (at_field a b)
insert-at_other f g r other (behind {k} {v} {d} {e} apart h) = elim (Bool-cases (text_eq k g)) [
  | inl here ↦ rw here (behind apart h)
  | inr there ↦ rw there (behind apart (insert-at_other f g r other h))
]

-- What both have in the field.
fields_at :
    (f : Text) {d e : Dict}
    → AlikeAt f d e
    → (x y : Value) × (get f d ≡ some x)
      × (get f e ≡ some y)
      × (truthy x ≡ true)
      × (truthy y ≡ true)
unfolding get
fields_at f (at_field {x} {y} a b) =
    (x, y, rw (text_eq_refl f) refl, rw (text_eq_refl f) refl, a, b)
fields_at f (behind apart h) =
    let (x, y, there, also, a, b) = fields_at f h in (x, y, rw apart there, rw apart also, a, b)

insert-at : (f : Text) (v : Value) {d e : Dict} → AlikeAt f d e → insert f v d ≡ insert f v e
unfolding insert
insert-at f v (at_field a b) = rw (text_eq_refl f) refl
insert-at f v (behind apart h) = rw apart (rw (insert-at f v h) refl)

-- Behind the stand-in for a field nothing depends on it.
stand_in_field-at :
    (f : Text) (r : Text) {d e : Dict} → AlikeAt f d e → stand_in_field f r d ≡ stand_in_field f r e
unfolding stand_in_field stand_in
stand_in_field-at f r {d} {e} h =
    let (x, y, there, also, a, b) = fields_at f h in rw (there, also, a, b) (insert-at f (text r) h)

-- The stand-in for another field leaves the difference as it is.
stand_in_field-other :
    (f g : Text) (r : Text) {d e : Dict}
    → text_eq f g ≡ false
    → AlikeAt f d e
    → AlikeAt f (stand_in_field g r d) (stand_in_field g r e)
unfolding stand_in_field
stand_in_field-other f g r {d} {e} other h =
    rw (get-at_other f g other h)
      (insert-at_other f g (stand_in (get_else g null e) (text r)) other h)

companion_field :
    (f : Text)
    → is_among f companion_keys ≡ true
    → (f ≡ codes "id") ⊎ (f ≡ codes "label") ⊎ (f ≡ codes "commonName")
unfolding is_among
companion_field f h = elim (Bool-cases (text_eq (codes "id") f)) [
  | inl a ↦ inl (sym (text_eq_sound (codes "id") f a))
  | inr a ↦ elim (Bool-cases (text_eq (codes "label") f)) [
    | inl b ↦ inr (inl (sym (text_eq_sound (codes "label") f b)))
    | inr b ↦
        let c : text_eq (codes "commonName") f ≡ true = ground (arith, h, a, b) in
        inr (inr (sym (text_eq_sound (codes "commonName") f c)))
  ]
]

-- All stand-ins of a companion device, as `sanitized_companion` puts them in.
abbrev pub stand_ins : Dict → Dict
stand_ins d = stand_in_field (codes "commonName") (codes "companion-0.0e-0_0") (
    stand_in_field (codes "label") (codes "Companion Device")
      (stand_in_field (codes "id") (codes "00000000") d))

pub stand_ins-at :
    (f : Text) {d e : Dict}
    → is_among f companion_keys ≡ true
    → AlikeAt f d e
    → stand_ins d ≡ stand_ins e
unfolding text_eq
stand_ins-at f {d} {e} known h = elim (companion_field f known) [
  | inl a ↦
      ap
        (λ x.
          stand_in_field (codes "commonName") (codes "companion-0.0e-0_0")
            (stand_in_field (codes "label") (codes "Companion Device") x))
        (stand_in_field-at (codes "id") (codes "00000000") (subst (λ g. AlikeAt g d e) a h))
  | inr (inl b) ↦ ap (stand_in_field (codes "commonName") (codes "companion-0.0e-0_0")) (
      stand_in_field-at (codes "label") (codes "Companion Device") (
        stand_in_field-other (codes "label") (codes "id") (codes "00000000") refl
          (subst (λ g. AlikeAt g d e) b h)))
  | inr (inr c) ↦ stand_in_field-at (codes "commonName") (codes "companion-0.0e-0_0") (
      stand_in_field-other (codes "commonName") (codes "label") (codes "Companion Device") refl (
        stand_in_field-other (codes "commonName") (codes "id") (codes "00000000") refl
          (subst (λ g. AlikeAt g d e) c h)))
]
