-- ===== src/Witnesses/Entities.antt =====
-- Concrete inputs for the theorems on the entities and the readings.
use ha_wattpilot.Base.{
  ℕ, refl, Bool, not, Option, none, some, Text, codes, text_eq, if◌then◌else◌, leb, ltb, pos, ◌==◌,
}
use ha_wattpilot.Json.{int, Dict, end, entry}
use ha_wattpilot.Entities.{
  Packaging, Comparator, at_most, at_least, equal_to, less_than, more_than, select_descriptions,
  switch_descriptions, SensorDescription, NumberDescription, SelectDescription, SwitchDescription,
  BinarySensorDescription, ButtonDescription, sensor_descriptions, number_descriptions,
  binary_sensor_descriptions, button_descriptions, time_descriptions, update_descriptions,
  Description,
}
use ha_wattpilot.Entities.Identity.{HasDistinctIds, unique_ids-filter_supported}
use ha_wattpilot.Entities.Support.{IsOrdered}

-- Two versions, as tenths of a release.
abbrev read_version : Text → Option ℕ
read_version s =
    if text_eq s (codes "38.5")
    then some 385
    else if text_eq s (codes "42.5")
    then some 425
    else none

abbrev compare_tenths : Comparator → ℕ → ℕ → Bool
compare_tenths at_most v w = leb v w
compare_tenths at_least v w = not (ltb v w)
compare_tenths equal_to v w = v == w
compare_tenths less_than v w = ltb v w
compare_tenths more_than v w = ltb w v

abbrev tenths : Packaging ℕ
tenths = record { parse = read_version; compares = compare_tenths }

tenths-IsOrdered : IsOrdered tenths 385
unfolding text_eq
tenths-IsOrdered = record { opposite = λ v w. refl; readable = refl }

abbrev reported : Dict
reported = entry (codes "bac") (int (pos 2)) (entry (codes "amp") (int (pos 16)) end)

unique_ids-filter_supported_example :
    HasDistinctIds tenths
      (λ (d : SensorDescription). d.common)
      (codes "10000001")
      (some (codes "42.5"))
      (some (codes "22"))
      reported
      sensor_descriptions
    × HasDistinctIds tenths
        (λ (d : NumberDescription). d.common)
        (codes "10000001")
        (some (codes "42.5"))
        (some (codes "22"))
        reported
        number_descriptions
    × HasDistinctIds tenths
        (λ (d : SelectDescription). d.common)
        (codes "10000001")
        (some (codes "42.5"))
        (some (codes "22"))
        reported
        select_descriptions
    × HasDistinctIds tenths
        (λ (d : SwitchDescription). d.common)
        (codes "10000001")
        (some (codes "42.5"))
        (some (codes "22"))
        reported
        switch_descriptions
    × HasDistinctIds tenths
        (λ (d : BinarySensorDescription). d.common)
        (codes "10000001")
        (some (codes "42.5"))
        (some (codes "22"))
        reported
        binary_sensor_descriptions
    × HasDistinctIds tenths
        (λ (d : ButtonDescription). d.common)
        (codes "10000001")
        (some (codes "42.5"))
        (some (codes "22"))
        reported
        button_descriptions
    × HasDistinctIds tenths
        (λ (d : Description). d)
        (codes "10000001")
        (some (codes "42.5"))
        (some (codes "22"))
        reported
        time_descriptions
    × HasDistinctIds tenths
        (λ (d : Description). d)
        (codes "10000001")
        (some (codes "42.5"))
        (some (codes "22"))
        reported
        update_descriptions
unique_ids-filter_supported_example =
    unique_ids-filter_supported tenths (codes "10000001") (some (codes "42.5")) (some (codes "22"))
      reported
