-- ===== src/Api/Definition/Loads.antt =====
-- Which definitions load, and how the others fail.
use ha_wattpilot.Base.{
  ◌≡◌, refl, Bool, true, false, not, ◌&&◌, Option, none, some, arith, codes, if◌then◌else◌, is_some,
  Bool-cases, Option-cases, inl, inr, ◌⊎◌,
}
use ha_wattpilot.Json.{Value, text, list, dict, namespace, Items, nil, cons, Dict, end, get}
use ha_wattpilot.Api.Client.{value_raised, Outcome, ok, raised}
use ha_wattpilot.Api.Definition.{
  all_keyed, list_at, validate_api_definition, add_unique, add_properties, load_api_definition,
  is_unhashable,
}

-- No key of these is one that a dict cannot have.
unfoldable pub keys_hashable : Items → Bool
keys_hashable nil = true
keys_hashable (cons (dict p) vs) =
    (elim (get (codes "key") p) [ some v ↦ not (is_unhashable v) | none ↦ true ])
    && keys_hashable vs
keys_hashable (cons _ vs) = keys_hashable vs

-- How a part of the loading ends: with a result where the test holds, and a TypeError otherwise.
abbrev ByTest : Bool → Outcome Dict → Type 0
ByTest b o =
    ((r : Dict) × (o ≡ ok r) × (b ≡ true))
    ⊎ ((o ≡ raised (value_raised (codes "TypeError"))) × (b ≡ false))

add_properties-ByTest :
    (vs : Items) (d : Dict) → all_keyed vs ≡ true → ByTest (keys_hashable vs) (add_properties vs d)
unfolding add_properties keys_hashable all_keyed
add_properties-ByTest nil d keyed = inl (d, refl, refl)
add_properties-ByTest (cons (dict p) vs) d keyed =
    by_key (get (codes "key") p) (ground (arith, keyed))
      (λ d'. add_properties-ByTest vs d' (ground (arith, keyed)))
  where
    by_key :
        (o : Option Value)
        → is_some o ≡ true
        → ((d' : Dict) → ByTest (keys_hashable vs) (add_properties vs d'))
        → ByTest
            ((elim o [ some v ↦ not (is_unhashable v) | none ↦ true ]) && keys_hashable vs)
            (elim o [
              | some (text k) ↦ add_properties vs (add_unique k (dict p) d)
              | some v ↦
                  if is_unhashable v
                  then raised (value_raised (codes "TypeError"))
                  else add_properties vs d
              | none ↦ raised (value_raised (codes "KeyError"))
            ])
    by_key none there rest = cc
    by_key (some (text k)) there rest = rest (add_unique k (dict p) d)
    by_key (some (list _)) there rest = inr (refl, refl)
    by_key (some (dict _)) there rest = inr (refl, refl)
    by_key (some (namespace _)) there rest = inr (refl, refl)
    by_key (some _) there rest = rest d
add_properties-ByTest (cons _ vs) d keyed = cc

-- A mapping with the two lists, whose entries are mappings with a key, the keys of the properties being
-- ones that a dict can have.
unfoldable pub is_well_formed : Value → Bool
unfolding all_keyed keys_hashable
is_well_formed (dict config) = elim (list_at (codes "messages") config) [
  | none ↦ false
  | some messages ↦ elim (list_at (codes "properties") config) [
    | none ↦ false
    | some properties ↦ (all_keyed messages && all_keyed properties) && keys_hashable properties
  ]
]
is_well_formed _ = false

-- A definition loads exactly if it is well formed, and otherwise fails with a ValueError or a
-- TypeError, never with a KeyError from the loop behind the check.
pub load_api_definition-is_well_formed :
    (config : Value)
    → ((properties : Dict) × (load_api_definition config ≡ ok properties)
        × (is_well_formed config ≡ true))
      ⊎ (((load_api_definition config ≡ raised (value_raised (codes "ValueError")))
            ⊎ (load_api_definition config ≡ raised (value_raised (codes "TypeError"))))
          × (is_well_formed config ≡ false))
unfolding load_api_definition validate_api_definition is_well_formed
load_api_definition-is_well_formed (dict config) =
    elim (Option-cases (list_at (codes "messages") config)) [
      | inl missing ↦
          rw (load_api_definition, validate_api_definition, is_well_formed, missing)
            (inr (inl refl, refl))
      | inr (messages, given) ↦ elim (Option-cases (list_at (codes "properties") config)) [
        | inl missing ↦
            rw (load_api_definition, validate_api_definition, is_well_formed, given, missing)
              (inr (inl refl, refl))
        | inr (properties, there) ↦ elim (Bool-cases (all_keyed messages && all_keyed properties)) [
          | inr odd ↦
              rw (load_api_definition, validate_api_definition, is_well_formed, given, there, odd)
                (inr (inl refl, refl))
          | inl keyed ↦
              rw (load_api_definition, validate_api_definition, is_well_formed, given, there, keyed)
                (elim (add_properties-ByTest properties end (ground (arith, keyed))) [
                  | inl (r, loaded, fine) ↦ inl (r, loaded, fine)
                  | inr (failed, odd) ↦ inr (inr failed, odd)
                ])
        ]
      ]
    ]
load_api_definition-is_well_formed _ = inr (inr refl, refl)
