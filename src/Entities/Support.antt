-- ===== src/Entities/Support.antt =====
-- Which entity a charger gets for its button lock: a switch up to firmware 38.4, a select from 38.5.
use ha_wattpilot.Base.{
  ◌≡◌, refl, ◌∙◌, Bool, true, false, not, ◌&&◌, ◌||◌, Option, some, List, [], ◌∷◌, arith, Text,
  codes, text_eq, if◌then◌else◌,
}
use ha_wattpilot.Json.{Dict, has}
use ha_wattpilot.Entities.Descriptions.{
  Description, uid_suffix, Packaging, at_least, less_than, is_supported, filter_supported,
  firmware_supported, matched_operator, prefix_order, starts_with, properties_present,
  variant_supported,
}
use ha_wattpilot.Entities.Platforms.{SelectDescription, SwitchDescription}
use ha_wattpilot.Entities.Tables.{select_descriptions, switch_descriptions}
use ha_wattpilot.Entities.Identity.{suffixes_of, is_among}

module _ {V : Type 0} (py : Packaging V) (firmware variant : Option Text) (properties : Dict) where
  -- Whether a description with this suffix is supported.
  supported_as : {D : Type 0} → (D → Description) → Text → List D → Bool
  supported_as common s [] = false
  supported_as common s (d ∷ ds) =
      let rest = supported_as common s ds in
      if text_eq (uid_suffix (common d)) s
      then is_supported py firmware variant properties (common d) || rest
      else rest

  is_among-filter_supported_iff :
      {D : Type 0} (common : D → Description) (s : Text) (ds : List D)
      → is_among s (suffixes_of common (filter_supported py common firmware variant properties ds))
        ≡ supported_as common s ds
  unfolding is_among suffixes_of filter_supported supported_as
  is_among-filter_supported_iff common s [] = refl
  is_among-filter_supported_iff common s (d ∷ ds) =
      ground (arith, is_among-filter_supported_iff common s ds)

  lock_switch :
      supported_as (λ (d : SwitchDescription). d.common) (codes "bac") switch_descriptions
      ≡ (firmware_supported py firmware (some (codes "<38.5")) && has (codes "bac") properties)
  unfolding supported_as switch_descriptions uid_suffix text_eq is_supported properties_present
      variant_supported
  lock_switch = ground arith

  lock_select :
      supported_as (λ (d : SelectDescription). d.common) (codes "bac") select_descriptions
      ≡ (firmware_supported py firmware (some (codes ">=38.5")) && has (codes "bac") properties)
  unfolding supported_as select_descriptions uid_suffix text_eq is_supported properties_present
      variant_supported
  lock_select = ground arith

module _ {V : Type 0} (py : Packaging V) where
  -- The comparisons of versions are those of a total order, and 38.5 is a version.
  pub record IsOrdered (split : V) : Type 0 where
    pub opposite : (v w : V) → py.compares at_least v w ≡ not (py.compares less_than v w)
    pub readable : py.parse (codes "38.5") ≡ some split

  lock_switch_by_version :
      (v split : V) (current : Text)
      → py.parse (codes "38.5") ≡ some split
      → py.parse current ≡ some v
      → firmware_supported py (some current) (some (codes "<38.5")) ≡ py.compares less_than v split
  unfolding firmware_supported matched_operator prefix_order starts_with text_eq
  lock_switch_by_version v split current e f = rw (f, e) refl

  lock_select_by_version :
      (v split : V) (current : Text)
      → py.parse (codes "38.5") ≡ some split
      → py.parse current ≡ some v
      → firmware_supported py (some current) (some (codes ">=38.5")) ≡ py.compares at_least v split
  unfolding firmware_supported matched_operator prefix_order starts_with text_eq
  lock_select_by_version v split current e f = rw (f, e) refl

-- A charger that reports its button lock and a firmware version that can be read gets exactly one
-- entity for it: the switch below 38.5 and the select from there on, given that the library's
-- comparisons of versions are opposites and that it reads 38.5.
lock_level_once :
    {V : Type 0} (py : Packaging V) (current : Text) (variant : Option Text) (properties : Dict)
    (v split : V)
    → IsOrdered py split
    → py.parse current ≡ some v
    → has (codes "bac") properties ≡ true
    → is_among (codes "bac") (
        suffixes_of
          (λ (d : SelectDescription). d.common)
          (filter_supported py
            (λ d. d.common)
            (some current)
            variant
            properties
            select_descriptions))
      ≡ not (
          is_among (codes "bac") (
            suffixes_of
              (λ (d : SwitchDescription). d.common)
              (filter_supported py
                (λ d. d.common)
                (some current)
                variant
                properties
                switch_descriptions)))
lock_level_once py current variant properties v split o readable reported =
    let by_select = lock_select_by_version py v split current o.readable readable in
    let by_switch = lock_switch_by_version py v split current o.readable readable in
    let selects =
      is_among-filter_supported_iff py (some current) variant properties
        (λ (d : SelectDescription). d.common) (codes "bac") select_descriptions
      ∙ lock_select py (some current) variant properties in
    let switches =
      is_among-filter_supported_iff py (some current) variant properties
        (λ (d : SwitchDescription). d.common) (codes "bac") switch_descriptions
      ∙ lock_switch py (some current) variant properties in
    rw (selects, switches, by_select, by_switch, reported) (rw (o.opposite v split) (ground arith))
