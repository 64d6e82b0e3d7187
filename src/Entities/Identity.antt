-- ===== src/Entities/Identity.antt =====
-- The unique ids of the entities that a charger gets (`WattpilotEntity.__init__` of entity.py).
use ha_wattpilot.Base.{
  ℕ, ◌≡◌, refl, ap, sym, ◌∙◌, Bool-cases, inl, inr, Bool, true, false, not, ◌&&◌, ◌||◌, Option,
  none, some, List, [], ◌∷◌, ◌++◌, arith, Text, codes, text_eq, text_eq_iff, text_eq_refl,
  if◌then◌else◌, drop, length, drop-append,
}
use ha_wattpilot.Json.{Dict}
use ha_wattpilot.Entities.Descriptions.{Description, uid_suffix, Packaging, filter_supported}
use ha_wattpilot.Entities.Platforms.{
  SensorDescription, NumberDescription, SelectDescription, SwitchDescription,
  BinarySensorDescription, ButtonDescription,
}
use ha_wattpilot.Entities.Tables.{
  sensor_descriptions, number_descriptions, select_descriptions, switch_descriptions,
  binary_sensor_descriptions, button_descriptions, time_descriptions, update_descriptions, chips,
  access_sensors, state_sensors, session_sensors, phase_sensors, quantity_sensors, phase_sensor,
  position, energy_split_sensor, source_sensors, source_sensor, charging_numbers, limit_numbers,
  seconds_setting, minimum_currents, minimum_current,
}

-- `_attr_unique_id`
unfoldable pub unique_id : Text → Description → Text
unfolding uid_suffix
unique_id serial d = serial ++ b'-' ∷ uid_suffix d

unfoldable pub is_among : Text → List Text → Bool
is_among s [] = false
is_among s (t ∷ ts) = text_eq t s || is_among s ts

unfoldable pub are_distinct : List Text → Bool
unfolding is_among
are_distinct [] = true
are_distinct (s ∷ ss) = not (is_among s ss) && are_distinct ss

module _ {D : Type 0} (common : D → Description) where
  unfoldable pub suffixes_of : List D → List Text
  suffixes_of [] = []
  suffixes_of (d ∷ ds) = uid_suffix (common d) ∷ suffixes_of ds

  unfoldable pub unique_ids : Text → List D → List Text
  unique_ids serial [] = []
  unique_ids serial (d ∷ ds) = unique_id serial (common d) ∷ unique_ids serial ds

sensors_distinct :
    are_distinct (suffixes_of (λ (d : SensorDescription). d.common) sensor_descriptions) ≡ true
unfolding are_distinct suffixes_of sensor_descriptions uid_suffix text_eq access_sensors
    state_sensors session_sensors chips phase_sensors quantity_sensors phase_sensor position
    energy_split_sensor source_sensors source_sensor ha_wattpilot.Base.show_nat
    ha_wattpilot.Entities.total_energy ha_wattpilot.Entities.average_charging_power
sensors_distinct = refl

numbers_distinct :
    are_distinct (suffixes_of (λ (d : NumberDescription). d.common) number_descriptions) ≡ true
unfolding are_distinct suffixes_of number_descriptions uid_suffix text_eq charging_numbers
    limit_numbers seconds_setting minimum_currents minimum_current
numbers_distinct = refl

selects_distinct :
    are_distinct (suffixes_of (λ (d : SelectDescription). d.common) select_descriptions) ≡ true
unfolding are_distinct suffixes_of select_descriptions uid_suffix text_eq
selects_distinct = refl

switches_distinct :
    are_distinct (suffixes_of (λ (d : SwitchDescription). d.common) switch_descriptions) ≡ true
unfolding are_distinct suffixes_of switch_descriptions uid_suffix text_eq
switches_distinct = refl

binary_sensors_distinct :
    are_distinct
      (suffixes_of (λ (d : BinarySensorDescription). d.common) binary_sensor_descriptions)
    ≡ true
unfolding are_distinct suffixes_of binary_sensor_descriptions uid_suffix text_eq
binary_sensors_distinct = refl

buttons_distinct :
    are_distinct (suffixes_of (λ (d : ButtonDescription). d.common) button_descriptions) ≡ true
unfolding are_distinct suffixes_of button_descriptions uid_suffix text_eq
buttons_distinct = refl

times_distinct : are_distinct (suffixes_of (λ (d : Description). d) time_descriptions) ≡ true
unfolding are_distinct suffixes_of time_descriptions uid_suffix text_eq
times_distinct = refl

updates_distinct : are_distinct (suffixes_of (λ (d : Description). d) update_descriptions) ≡ true
unfolding are_distinct suffixes_of update_descriptions uid_suffix text_eq
updates_distinct = refl

-- One serial in front changes nothing about which suffixes agree.
text_eq-prefix : (s t u : Text) → text_eq (s ++ t) (s ++ u) ≡ text_eq t u
unfolding text_eq
text_eq-prefix [] t u = refl
text_eq-prefix (c ∷ s) t u = ground (arith, text_eq-prefix s t u)

is_among-unique_ids :
    {D : Type 0} (common : D → Description) (serial : Text) (d : Description) (ds : List D)
    → is_among (unique_id serial d) (unique_ids common serial ds)
      ≡ is_among (uid_suffix d) (suffixes_of common ds)
unfolding is_among unique_ids suffixes_of unique_id
is_among-unique_ids common serial d [] = refl
is_among-unique_ids common serial d (e ∷ ds) =
    rw
      (
        text_eq-prefix serial (b'-' ∷ uid_suffix (common e)) (b'-' ∷ uid_suffix d),
        is_among-unique_ids common serial d ds,
      )
      (ap (λ b. b || is_among (uid_suffix d) (suffixes_of common ds))
        (text_eq-prefix (b'-' ∷ []) (uid_suffix (common e)) (uid_suffix d)))

are_distinct-unique_ids :
    {D : Type 0} (common : D → Description) (serial : Text) (ds : List D)
    → are_distinct (unique_ids common serial ds) ≡ are_distinct (suffixes_of common ds)
unfolding are_distinct unique_ids suffixes_of
are_distinct-unique_ids common serial [] = refl
are_distinct-unique_ids common serial (d ∷ ds) =
    rw (is_among-unique_ids common serial (common d) ds, are_distinct-unique_ids common serial ds)
      refl

module _ {V D : Type 0} (py : Packaging V) (common : D → Description)
    (firmware variant : Option Text) (properties : Dict) where
  is_among-filter_supported :
      (s : Text) (ds : List D)
      → is_among s (suffixes_of common ds) ≡ false
      → is_among s (suffixes_of common (filter_supported py common firmware variant properties ds))
        ≡ false
  unfolding is_among suffixes_of filter_supported
  is_among-filter_supported s [] h = h
  is_among-filter_supported s (d ∷ ds) h = ground (arith, is_among-filter_supported s ds)

  are_distinct-filter_supported :
      (ds : List D)
      → are_distinct (suffixes_of common ds) ≡ true
      → are_distinct
          (suffixes_of common (filter_supported py common firmware variant properties ds))
        ≡ true
  unfolding are_distinct suffixes_of filter_supported
  are_distinct-filter_supported [] h = h
  are_distinct-filter_supported (d ∷ ds) h = ground (
    arith,
    are_distinct-filter_supported ds,
    is_among-filter_supported (uid_suffix (common d)) ds,
  )

  platform_distinct :
      (serial : Text) (ds : List D)
      → are_distinct (suffixes_of common ds) ≡ true
      → are_distinct
          (unique_ids common serial (filter_supported py common firmware variant properties ds))
        ≡ true
  platform_distinct serial ds h =
      are_distinct-unique_ids common serial
        (filter_supported py common firmware variant properties ds)
      ∙ are_distinct-filter_supported ds h

-- What the entities of a platform are called, for a charger as it reports itself.
abbrev pub HasDistinctIds :
    {V D : Type 0}
    → Packaging V
    → (D → Description)
    → Text
    → Option Text
    → Option Text
    → Dict
    → List D
    → Type 0
HasDistinctIds py common serial firmware variant properties ds =
    are_distinct
      (unique_ids common serial (filter_supported py common firmware variant properties ds))
    ≡ true

-- On each of the eight platforms, and for every firmware, variant and set of properties that a charger reports,
-- the entities that it gets have pairwise different unique ids.
pub unique_ids-filter_supported :
    {V : Type 0} (py : Packaging V) (serial : Text) (firmware variant : Option Text)
    (properties : Dict)
    → HasDistinctIds py
        (λ (d : SensorDescription). d.common)
        serial
        firmware
        variant
        properties
        sensor_descriptions
      × HasDistinctIds py
          (λ (d : NumberDescription). d.common)
          serial
          firmware
          variant
          properties
          number_descriptions
      × HasDistinctIds py
          (λ (d : SelectDescription). d.common)
          serial
          firmware
          variant
          properties
          select_descriptions
      × HasDistinctIds py
          (λ (d : SwitchDescription). d.common)
          serial
          firmware
          variant
          properties
          switch_descriptions
      × HasDistinctIds py
          (λ (d : BinarySensorDescription). d.common)
          serial
          firmware
          variant
          properties
          binary_sensor_descriptions
      × HasDistinctIds py
          (λ (d : ButtonDescription). d.common)
          serial
          firmware
          variant
          properties
          button_descriptions
      × HasDistinctIds py
          (λ (d : Description). d)
          serial
          firmware
          variant
          properties
          time_descriptions
      × HasDistinctIds py
          (λ (d : Description). d)
          serial
          firmware
          variant
          properties
          update_descriptions
unique_ids-filter_supported py serial firmware variant properties = (
  platform_distinct py (λ d. d.common) firmware variant properties serial sensor_descriptions
      sensors_distinct,
  platform_distinct py (λ d. d.common) firmware variant properties serial number_descriptions
      numbers_distinct,
  platform_distinct py (λ d. d.common) firmware variant properties serial select_descriptions
      selects_distinct,
  platform_distinct py (λ d. d.common) firmware variant properties serial switch_descriptions
      switches_distinct,
  platform_distinct py (λ d. d.common) firmware variant properties serial binary_sensor_descriptions
      binary_sensors_distinct,
  platform_distinct py (λ d. d.common) firmware variant properties serial button_descriptions
      buttons_distinct,
  platform_distinct py (λ d. d) firmware variant properties serial time_descriptions times_distinct,
  platform_distinct py (λ d. d) firmware variant properties serial update_descriptions
      updates_distinct,
)
