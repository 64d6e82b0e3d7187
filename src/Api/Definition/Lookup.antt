-- ===== src/Api/Definition/Lookup.antt =====
-- What the properties of a loaded definition are, and what they spare the writes.
use ha_wattpilot.Base.{
  ◌≡◌, refl, ap, sym, ◌∙◌, Bool, true, false, Option, none, some, arith, Text, codes, text_eq,
  text_eq_sound, if◌then◌else◌, Bool-cases, Option-cases, inl, inr, ◌⊎◌,
}
use ha_wattpilot.Json.{
  Value, null, bool, int, float, text, list, dict, namespace, Items, nil, cons, Dict, end, get,
  get-insert,
}
use ha_wattpilot.Api.Client.{value_raised, Outcome, ok, raised}
use ha_wattpilot.Api.Definition.{
  validate_api_definition, list_at, add_unique, add_properties, load_api_definition, is_unhashable,
}

-- The key of an entry, where it is a text.
abbrev pub text_key : Option Value → Option Text
text_key (some (text k)) = some k
text_key _ = none

abbrev pub key_of : Dict → Option Text
key_of p = text_key (get (codes "key") p)

-- The first mapping of the list with this key.
unfoldable pub first_with : Text → Items → Option Value
first_with k nil = none
first_with k (cons (dict p) vs) =
    let rest = first_with k vs in
    elim (key_of p) [ some j ↦ if text_eq j k then some (dict p) else rest | none ↦ rest ]
first_with k (cons _ vs) = first_with k vs

-- What a list adds to what is there.
abbrev or_else : Option Value → Option Value → Option Value
or_else (some v) later = some v
or_else none later = later

or_else-none : (o : Option Value) → or_else o none ≡ o
or_else-none none = refl
or_else-none (some v) = refl

get-add_unique :
    (k j : Text) (v : Value) (d : Dict)
    → get k (add_unique j v d) ≡ or_else (get k d) (if text_eq j k then some v else none)
unfolding add_unique
get-add_unique k j v d = elim (Bool-cases (text_eq j k)) [
  | inl same ↦
      let i = text_eq_sound j k same in
      let found = ap (λ t. get t d) i in
      elim (Option-cases (get j d)) [
        | inl missing ↦
            rw (missing, same)
              (get-insert j k v d
                ∙ ap (λ b. if b then some v else get k d) same
                ∙ ap (λ o. or_else o (some v)) (sym missing ∙ found))
        | inr (w, there) ↦
            rw (there, same) (sym found ∙ there ∙ ap (λ o. or_else o (some v)) (sym there ∙ found))
      ]
  | inr other ↦ elim (Option-cases (get j d)) [
    | inl missing ↦
        rw (missing, other)
          (get-insert j k v d
            ∙ ap (λ b. if b then some v else get k d) other
            ∙ sym (or_else-none (get k d)))
    | inr (w, there) ↦ rw (there, other) (sym (or_else-none (get k d)))
  ]
]

-- A property with a text for a key is added by it, one with another key is passed over.
add_properties-dict :
    (o : Option Value) (p : Dict) (vs : Items) (d r : Dict)
    → (elim o [
      | some (text k) ↦ add_properties vs (add_unique k (dict p) d)
      | some v ↦
          if is_unhashable v then raised (value_raised (codes "TypeError")) else add_properties vs d
      | none ↦ raised (value_raised (codes "KeyError"))
    ])
      ≡ ok r
    → ((j : Text) × (text_key o ≡ some j) × (add_properties vs (add_unique j (dict p) d) ≡ ok r))
      ⊎ ((text_key o ≡ none) × (add_properties vs d ≡ ok r))
add_properties-dict none p vs d r h = cc
add_properties-dict (some (text k)) p vs d r h = inl (k, refl, h)
add_properties-dict (some null) p vs d r h = inr (refl, h)
add_properties-dict (some (bool _)) p vs d r h = inr (refl, h)
add_properties-dict (some (int _)) p vs d r h = inr (refl, h)
add_properties-dict (some (float _)) p vs d r h = inr (refl, h)
add_properties-dict (some (list _)) p vs d r h = cc
add_properties-dict (some (dict _)) p vs d r h = cc
add_properties-dict (some (namespace _)) p vs d r h = cc

-- Of the first of two, what comes of putting it before the rest.
or_else_assoc : (a b c : Option Value) → or_else (or_else a b) c ≡ or_else a (or_else b c)
or_else_assoc none b c = refl
or_else_assoc (some v) b c = refl

get-add_properties :
    (k : Text) (vs : Items) (d r : Dict)
    → add_properties vs d ≡ ok r
    → get k r ≡ or_else (get k d) (first_with k vs)
unfolding add_properties first_with
get-add_properties k nil d r h = ap (get k) (ok_injective h) ∙ sym (or_else-none (get k d))
  where
    ok_injective : ok d ≡ ok r → r ≡ d
    ok_injective e = cc
get-add_properties k (cons (dict p) vs) d r h =
    elim (add_properties-dict (get (codes "key") p) p vs d r h) [
      | inl (j, named, later) ↦
          let there = get-add_properties k vs (add_unique j (dict p) d) r later in
          rw (first_with, named)
            (there
              ∙ ap (λ o. or_else o (first_with k vs)) (get-add_unique k j (dict p) d)
              ∙ or_else_assoc (get k d) _ (first_with k vs)
              ∙ ap (or_else (get k d)) (or_else_if (text_eq j k) (dict p) (first_with k vs)))
      | inr (unnamed, later) ↦ rw (first_with, unnamed) (get-add_properties k vs d r later)
    ]
  where
    or_else_if :
        (b : Bool) (v : Value) (o : Option Value)
        → or_else (if b then some v else none) o ≡ (if b then some v else o)
    or_else_if true v o = refl
    or_else_if false v o = refl
get-add_properties k (cons _ vs) d r h = cc

-- The properties that a definition lists.
abbrev pub listed : Value → Items
listed (dict config) = elim (list_at (codes "properties") config) [ some vs ↦ vs | none ↦ nil ]
listed _ = nil

validate-listed :
    (config : Value) (vs : Items) → validate_api_definition config ≡ ok vs → vs ≡ listed config
unfolding validate_api_definition
validate-listed (dict config) vs h = elim (Option-cases (list_at (codes "messages") config)) [
  | inl missing ↦ ground (arith, h, missing)
  | inr (messages, given) ↦ elim (Option-cases (list_at (codes "properties") config)) [
    | inl missing ↦ ground (arith, h, given, missing)
    | inr (properties, there) ↦ ground (arith, h, given, there)
  ]
]
validate-listed _ vs h = cc

-- A definition that loads gives, for every key, the first property listed with it, and nothing for a
-- key that none is listed with, however often a key is repeated.
pub get-load_api_definition :
    (config : Value) (k : Text) (properties : Dict)
    → load_api_definition config ≡ ok properties
    → get k properties ≡ first_with k (listed config)
unfolding load_api_definition first_with get
get-load_api_definition config k properties h = after (validate_api_definition config) refl h
  where
    after :
        (o : Outcome Items)
        → validate_api_definition config ≡ o
        → (elim o [ ok vs ↦ add_properties vs end | raised x ↦ raised x ]) ≡ ok properties
        → get k properties ≡ first_with k (listed config)
    after (raised x) valid later = cc
    after (ok vs) valid later =
        get-add_properties k vs end properties later
        ∙ ap (first_with k) (validate-listed config vs valid)

pub first_with-dict :
    (k : Text) (vs : Items) (v : Value) → first_with k vs ≡ some v → (p : Dict) × (v ≡ dict p)
unfolding first_with
first_with-dict k nil v h = cc
first_with-dict k (cons (dict p) vs) v h = elim (Option-cases (key_of p)) [
  | inl unnamed ↦ first_with-dict k vs v (ground (arith, h, unnamed))
  | inr (j, named) ↦ elim (Bool-cases (text_eq j k)) [
    | inl same ↦ (p, ground (arith, h, named, same))
    | inr other ↦ first_with-dict k vs v (ground (arith, h, named, other))
  ]
]
first_with-dict k (cons null vs) v h = first_with-dict k vs v h
first_with-dict k (cons (bool _) vs) v h = first_with-dict k vs v h
first_with-dict k (cons (int _) vs) v h = first_with-dict k vs v h
first_with-dict k (cons (float _) vs) v h = first_with-dict k vs v h
first_with-dict k (cons (text _) vs) v h = first_with-dict k vs v h
first_with-dict k (cons (list _) vs) v h = first_with-dict k vs v h
first_with-dict k (cons (namespace _) vs) v h = first_with-dict k vs v h
