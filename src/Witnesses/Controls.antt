-- ===== src/Witnesses/Controls.antt =====
-- Concrete inputs for the theorem on the selects.
use ha_wattpilot.Base.{◌≡◌, refl, none, some, [], ◌∷◌, codes, text_eq, pos}
use ha_wattpilot.Json.{int, end}
use ha_wattpilot.Entities.{SelectDescription, select_descriptions, described}
use ha_wattpilot.Controls.{current_option, select_option}
use ha_wattpilot.Controls.Options.{select_option-current_option}

abbrev access_control : SelectDescription
access_control = record {
  common = described (codes "access_control") (codes "acs");
  select_options =
      (int (pos 0), codes "Open") ∷ (int (pos 1), codes "Authentication Required") ∷ [];
  empty_string_means = none;
}

select_option-current_option_example :
    current_option access_control (some (codes "22")) end (int (pos 1))
    ≡ some (codes "Authentication Required")
unfolding select_descriptions select_option ha_wattpilot.Controls.wire_options
    ha_wattpilot.Controls.wire_value text_eq
select_option-current_option_example =
    select_option-current_option 0 access_control (some (codes "22")) end
      (codes "Authentication Required") (int (pos 1)) refl refl
