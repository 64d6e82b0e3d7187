-- ===== src/Entries/Targets.antt =====
-- That a migration gives only ids that the integration itself uses.
use ha_wattpilot.Base.{
  ◌≡◌, refl, Bool, true, not, ◌&&◌, none, some, List, [], ◌∷◌, ◌++◌, map, arith, Text, codes,
  text_eq, text_eq_refl, is_some, Bool-cases, Option-cases, ◌⊎◌, inl, inr, All,
}
use ha_wattpilot.Json.{Dict, has}
use ha_wattpilot.Entities.{SensorDescription, uid_suffix, sensor_descriptions}
use ha_wattpilot.Entries.Naming.{is_in}
use ha_wattpilot.Entries.Registry.{
  SuffixMap, match_legacy_suffix, our_suffix, is_used, RegistryEntry, Migration, migrate,
  migrate_all, migrate_legacy_unique_ids,
}
use ha_wattpilot.Entries.Known.{
  uid_suffixes, put, merge, same_suffixes, suffix_aliases, variant_suffixes, from_card_list,
  reports_cards, twin_suffixes, flat_chip_suffixes, known_suffixes,
}
use ha_wattpilot.Entries.Suffixes.{names_of, match_legacy_suffix_longest}

-- Whether each suffix that a map leads to is one of these.
leads_to : List Text → SuffixMap → Bool
leads_to known [] = true
leads_to known ((k, v) ∷ m) = is_in v known && leads_to known m

leads_to-nil : (known : List Text) → leads_to known [] ≡ true
unfolding leads_to
leads_to-nil known = refl

put-leads_to :
    (known : List Text) (k v : Text) (m : SuffixMap)
    → is_in v known ≡ true
    → leads_to known m ≡ true
    → leads_to known (put k v m) ≡ true
unfolding leads_to put
put-leads_to known k v [] h all = rw h refl
put-leads_to known k v ((j, w) ∷ m) h all = ground (arith, put-leads_to known k v m)

merge-leads_to :
    (known : List Text) (m other : SuffixMap)
    → leads_to known m ≡ true
    → leads_to known other ≡ true
    → leads_to known (merge m other) ≡ true
unfolding leads_to merge
merge-leads_to known m [] h all = h
merge-leads_to known m ((k, v) ∷ other) h all =
    merge-leads_to known (put k v m) other (put-leads_to known k v m (ground (arith, all)) h)
      (ground (arith, all))

leads_to-more :
    (s : Text) (known : List Text) (m : SuffixMap)
    → leads_to known m ≡ true
    → leads_to (s ∷ known) m ≡ true
unfolding leads_to is_in
leads_to-more s known [] h = refl
leads_to-more s known ((k, v) ∷ m) h = ground (arith, leads_to-more s known m)

is_in-append : (s : Text) (ss ts : List Text) → is_in s ss ≡ true → is_in s (ss ++ ts) ≡ true
unfolding is_in
is_in-append s [] ts h = cc
is_in-append s (t ∷ ss) ts h = ground (arith, is_in-append s ss ts)

leads_to-append :
    (ss ts : List Text) (m : SuffixMap) → leads_to ss m ≡ true → leads_to (ss ++ ts) m ≡ true
unfolding leads_to
leads_to-append ss ts [] h = refl
leads_to-append ss ts ((k, v) ∷ m) h = ground (arith, is_in-append v ss ts, leads_to-append ss ts m)

same_suffixes-leads_to : (ss : List Text) → leads_to ss (same_suffixes ss) ≡ true
unfolding leads_to same_suffixes is_in
same_suffixes-leads_to [] = refl
same_suffixes-leads_to (s ∷ ss) =
    rw (text_eq_refl s, leads_to-more s ss (same_suffixes ss) (same_suffixes-leads_to ss)) refl

twin_suffixes-leads_to :
    (table : List SensorDescription) (properties : Dict) (ds : List SensorDescription)
    → leads_to
        (map (λ (d : SensorDescription). uid_suffix d.common) ds)
        (twin_suffixes table properties ds)
      ≡ true
unfolding leads_to twin_suffixes is_in
twin_suffixes-leads_to table properties [] = refl
twin_suffixes-leads_to table properties (d ∷ ds) =
    let more =
      leads_to-more (uid_suffix d.common) (map (λ (e : SensorDescription). uid_suffix e.common) ds)
        (twin_suffixes table properties ds) (twin_suffixes-leads_to table properties ds) in
    elim (Option-cases (from_card_list d.chip_index table)) [
      | inl alone ↦ rw (twin_suffixes, alone) more
      | inr (listed, found) ↦
          elim (Bool-cases (not (is_some d.cards_index) && has d.common.charger_key properties)) [
            | inl reported ↦
                rw (twin_suffixes, found, reported, text_eq_refl (uid_suffix d.common)) more
            | inr missing ↦ rw (twin_suffixes, found, missing) more
          ]
    ]

special-is_in :
    (is_in (codes "access_state") uid_suffixes ≡ true)
    × (is_in (codes "car_connected") uid_suffixes ≡ true)
    × (is_in (codes "amp_22kw") uid_suffixes ≡ true)
unfolding is_in uid_suffixes text_eq ha_wattpilot.Entities.total_energy
    ha_wattpilot.Entities.average_charging_power
special-is_in = (refl, refl, refl)

suffix_aliases-leads_to : leads_to uid_suffixes suffix_aliases ≡ true
unfolding leads_to suffix_aliases
suffix_aliases-leads_to = rw (special-is_in.0, special-is_in.1) refl

variant_suffixes-leads_to :
    (variant : Text) → leads_to uid_suffixes (variant_suffixes variant) ≡ true
unfolding leads_to variant_suffixes
variant_suffixes-leads_to variant = elim (Bool-cases (text_eq variant (codes "22"))) [
  | inl wide ↦ rw (variant_suffixes, wide, special-is_in.2) refl
  | inr narrow ↦ rw (variant_suffixes, narrow) refl
]

flat_chip_suffixes-leads_to :
    (properties : Dict) → leads_to uid_suffixes (flat_chip_suffixes properties) ≡ true
unfolding flat_chip_suffixes uid_suffixes
flat_chip_suffixes-leads_to properties =
    elim (Bool-cases (reports_cards properties sensor_descriptions)) [
      | inl listed ↦ rw (flat_chip_suffixes, listed) (leads_to-nil uid_suffixes)
      | inr flat ↦
          rw (flat_chip_suffixes, flat)
            (leads_to-append
              (map (λ (d : SensorDescription). uid_suffix d.common) sensor_descriptions) _
              (twin_suffixes sensor_descriptions properties sensor_descriptions)
              (twin_suffixes-leads_to sensor_descriptions properties sensor_descriptions))
    ]

known_suffixes-leads_to :
    (variant : Text) (properties : Dict)
    → leads_to uid_suffixes (known_suffixes variant properties) ≡ true
unfolding known_suffixes
known_suffixes-leads_to variant properties =
    merge-leads_to uid_suffixes _ (flat_chip_suffixes properties)
      (merge-leads_to uid_suffixes _ (variant_suffixes variant)
        (merge-leads_to uid_suffixes _ suffix_aliases
          (merge-leads_to uid_suffixes [] (same_suffixes uid_suffixes) (leads_to-nil uid_suffixes)
            (same_suffixes-leads_to uid_suffixes))
          suffix_aliases-leads_to)
        (variant_suffixes-leads_to variant))
      (flat_chip_suffixes-leads_to properties)

our_suffix-leads_to :
    (s : Text) (known : List Text) (m : SuffixMap)
    → is_in s (names_of m) ≡ true
    → leads_to known m ≡ true
    → is_in (our_suffix s m) known ≡ true
unfolding leads_to our_suffix is_in
our_suffix-leads_to s known [] h all = cc
our_suffix-leads_to s known ((k, v) ∷ m) h all = ground (arith, our_suffix-leads_to s known m)

-- A unique id that the integration gives an entity of its own.
pub record IsTarget (serial target : Text) : Type 0 where
  pub suffix : Text
  pub listed : is_in suffix uid_suffixes ≡ true
  pub spelled : target ≡ serial ++ b'-' ∷ suffix

module _ (serial : Text) (m : SuffixMap) where
  migrate-cases :
      (e : RegistryEntry) (g : Migration)
      → ((migrate serial m e g).0 ≡ none)
        ⊎ ((s : Text) × (match_legacy_suffix e.unique_id m ≡ some s)
            × ((migrate serial m e g).0 ≡ some (serial ++ b'-' ∷ our_suffix s m)))
  unfolding migrate
  migrate-cases e g = elim (Option-cases (match_legacy_suffix e.unique_id m)) [
    | inl missing ↦ inl (rw (migrate, missing) refl)
    | inr (s, found) ↦
        let target = serial ++ b'-' ∷ our_suffix s m in
        elim (Bool-cases (text_eq e.unique_id target)) [
          | inl same ↦ inl (rw (migrate, found, same) refl)
          | inr other ↦ elim (Bool-cases (is_used e.domain target g.existing)) [
            | inl used ↦ inl (rw (migrate, found, other, used) refl)
            | inr free ↦ inr (s, found, rw (migrate, found, other, free) refl)
          ]
        ]
  ]

  migrate_all-IsTarget :
      leads_to uid_suffixes m ≡ true
      → (es : List RegistryEntry) (g : Migration)
      → All (λ p. IsTarget serial p.1) (migrate_all serial m es g).0
  unfolding migrate_all
  migrate_all-IsTarget known [] g = tt
  migrate_all-IsTarget known (e ∷ es) g =
      let rest = migrate_all-IsTarget known es (migrate serial m e g).1 in
      elim (migrate-cases e g) [
        | inl kept ↦ rw (migrate_all, kept) rest
        | inr (s, found, renamed) ↦
            let fit = ((match_legacy_suffix_longest e.unique_id m).0 s found).0 in
            let among : is_in s (names_of m) ≡ true = ground (arith, fit) in
            rw (migrate_all, renamed)
              (
                record {
                  suffix = our_suffix s m;
                  listed = our_suffix-leads_to s uid_suffixes m among known;
                  spelled = refl;
                },
                rest,
              )
      ]

-- Every id that a migration hands out is the serial, a dash and the suffix of an entity that the
-- integration has, whatever the charger's variant and properties and the ids found in the registry.
pub migrate_legacy_unique_ids-IsTarget :
    (serial variant : Text) (properties : Dict) (es : List RegistryEntry)
    → All
        (λ p. IsTarget serial p.1)
        (migrate_legacy_unique_ids serial (known_suffixes variant properties) es).0
unfolding migrate_legacy_unique_ids
migrate_legacy_unique_ids-IsTarget serial variant properties es =
    migrate_all-IsTarget serial (known_suffixes variant properties)
      (known_suffixes-leads_to variant properties) es _
