-- ===== src/Entries/Registry.antt =====
-- custom_components/wattpilot/registry_migration.py: matching a legacy unique id, and the callback
-- that gives each entity its new one.
use ha_wattpilot.Base.{
  ◌-◌, Bool, false, ◌&&◌, ◌||◌, Option, none, some, List, [], ◌∷◌, ◌++◌, length, drop, leb, Text,
  text_eq, if◌then◌else◌,
}

-- `_known_suffixes` as a list of pairs, in the order of the dict.
abbrev pub SuffixMap : Type 0
SuffixMap = List (Text × Text)

-- `unique_id.endswith(tail)`
unfoldable pub ends_with : Text → Text → Bool
ends_with tail s = leb (length tail) (length s) && text_eq (drop (length s - length tail) s) tail

-- Into a list sorted by length, the longest first; what is as long stays in order.
unfoldable pub insert_by_length : Text → List Text → List Text
insert_by_length s [] = s ∷ []
insert_by_length s (t ∷ ts) =
    let rest = insert_by_length s ts in if leb (length t) (length s) then s ∷ t ∷ ts else t ∷ rest

-- `sorted(suffix_map, key=len, reverse=True)`
unfoldable pub sort_by_length : SuffixMap → List Text
unfolding insert_by_length
sort_by_length [] = []
sort_by_length ((s, _) ∷ m) = insert_by_length s (sort_by_length m)

unfoldable pub first_suffix : Text → List Text → Option Text
unfolding ends_with
first_suffix unique_id [] = none
first_suffix unique_id (s ∷ ss) =
    let rest = first_suffix unique_id ss in if ends_with (b'-' ∷ s) unique_id then some s else rest

-- `_match_legacy_suffix`
unfoldable pub match_legacy_suffix : Text → SuffixMap → Option Text
unfolding sort_by_length first_suffix
match_legacy_suffix unique_id m = first_suffix unique_id (sort_by_length m)

-- `suffix_map[legacy_suffix]`, for a key that `match_legacy_suffix` found.
unfoldable pub our_suffix : Text → SuffixMap → Text
our_suffix s [] = []
our_suffix s ((k, v) ∷ m) = if text_eq k s then v else our_suffix s m

-- An entity of the registry.
pub record RegistryEntry : Type 0 where
  pub entity_id : Text
  pub domain : Text
  pub unique_id : Text

-- What the callback shares between its calls: the ids in use by domain, and the entities left, the
-- latest first.
pub record Migration : Type 0 where
  pub existing : List (Text × Text)
  pub collisions : List Text

unfoldable pub is_used : Text → Text → List (Text × Text) → Bool
is_used domain id [] = false
is_used domain id ((d, i) ∷ used) = (text_eq d domain && text_eq i id) || is_used domain id used

-- `_migrate`: the new unique id, if there is one.
unfoldable pub migrate : Text → SuffixMap → RegistryEntry → Migration → Option Text × Migration
unfolding match_legacy_suffix our_suffix is_used
migrate serial m e g = elim (match_legacy_suffix e.unique_id m) [
  | none ↦ (none, g)
  | some legacy_suffix ↦
      (let target = serial ++ b'-' ∷ our_suffix legacy_suffix m in
        if text_eq e.unique_id target
        then (none, g)
        else if is_used e.domain target g.existing
        then (none, record g { collisions = e.entity_id ∷ g.collisions })
        else (some target, record g { existing = (e.domain, target) ∷ g.existing }))
]

-- The callback over the entities in turn, with the domain and the id of each that is renamed.
unfoldable pub migrate_all :
    Text → SuffixMap → List RegistryEntry → Migration → List (Text × Text) × Migration
unfolding migrate
migrate_all serial m [] g = ([], g)
migrate_all serial m (e ∷ es) g =
    let (target, g') = migrate serial m e g in
    let (targets, g'') = migrate_all serial m es g' in
    (elim target [ some t ↦ (e.domain, t) ∷ targets | none ↦ targets ], g'')

unfoldable pub ids_in_use : List RegistryEntry → List (Text × Text)
ids_in_use [] = []
ids_in_use (e ∷ es) = (e.domain, e.unique_id) ∷ ids_in_use es

-- `async_migrate_legacy_unique_ids`, on the entities of one entry.
unfoldable pub migrate_legacy_unique_ids :
    Text → SuffixMap → List RegistryEntry → List (Text × Text) × Migration
unfolding migrate_all ids_in_use
migrate_legacy_unique_ids serial m es =
    migrate_all serial m es (record { existing = ids_in_use es; collisions = [] })
