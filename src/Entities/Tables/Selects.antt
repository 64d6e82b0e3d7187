-- ===== src/Entities/Tables/Selects.antt =====
-- SELECT_DESCRIPTIONS.
use ha_wattpilot.Base.{none, some, List, [], ◌∷◌, true, false, codes, pos}
use ha_wattpilot.Json.{bool, int, text}
use ha_wattpilot.Entities.Descriptions.{described}
use ha_wattpilot.Entities.Platforms.{SelectDescription}
use ha_wattpilot.Entities.Tables.Countries.{awattar_countries}

unfoldable pub select_descriptions : List SelectDescription
select_descriptions =
    record {
      common = described (codes "access_control") (codes "acs");
      select_options =
          (int (pos 0), codes "Open") ∷ (int (pos 1), codes "Authentication Required") ∷ [];
      empty_string_means = none;
    }
    ∷ record {
      common = described (codes "awattar_country") (codes "awc");
      select_options = awattar_countries;
      empty_string_means = none;
    }
    ∷ record {
      common = record (described (codes "lock_level_selection") (codes "bac")) {
        firmware = some (codes ">=38.5");
      };
      select_options =
          (int (pos 0), codes "Always locked")
          ∷ (int (pos 1), codes "Locked when car is connected")
          ∷ (int (pos 3), codes "Never locked")
          ∷ [];
      empty_string_means = none;
    }
    ∷ record {
      common = record (described (codes "boost_type") (codes "ebo")) {
        firmware = some (codes ">=41.7");
      };
      select_options =
          (bool true, codes "One-Time")
          ∷ (bool false, codes "Repeat for as long as vehicle is plugged in")
          ∷ [];
      empty_string_means = none;
    }
    ∷ record {
      common = described (codes "charging_mode") (codes "lmo");
      select_options =
          (int (pos 3), codes "Default")
          ∷ (int (pos 4), codes "Eco")
          ∷ (int (pos 5), codes "Next Trip")
          ∷ [];
      empty_string_means = none;
    }
    ∷ record {
      common = described (codes "phase_switch") (codes "psm");
      select_options =
          (int (pos 0), codes "Auto")
          ∷ (int (pos 1), codes "1 Phase")
          ∷ (int (pos 2), codes "3 Phases")
          ∷ [];
      empty_string_means = none;
    }
    ∷ record {
      common = described (codes "daylight_saving") (codes "tds");
      select_options =
          (int (pos 0), codes "None")
          ∷ (int (pos 1), codes "EuropeanSummerTime")
          ∷ (int (pos 2), codes "UsDaylightTime")
          ∷ (int (pos 3), codes "AUEasternDaylightTime")
          ∷ [];
      empty_string_means = none;
    }
    ∷ record {
      common = described (codes "cable_unlock") (codes "ust");
      select_options =
          (int (pos 0), codes "Normal")
          ∷ (int (pos 1), codes "AutoUnlock")
          ∷ (int (pos 2), codes "AlwaysLock")
          ∷ [];
      empty_string_means = none;
    }
    ∷ record {
      common = described (codes "car_profile") (codes "ct");
      select_options =
          (text (codes "default"), codes "Standard")
          ∷ (text (codes "MitsubishiImiev"), codes "Mitsubishi iMiev")
          ∷ (text (codes "SkodaEnyaq"), codes "Skoda Enyaq")
          ∷ (text (codes "citroenCZero"), codes "Citroen c zero")
          ∷ (text (codes "cupraBornAlternative"), codes "Cupra Born Alternativ")
          ∷ (text (codes "cupraBornStandard"), codes "Cupra Born Standard")
          ∷ (text (codes "daciaSpring"), codes "Dacia Spring")
          ∷ (text (codes "ecorsa"), codes "Opel Corsa-e")
          ∷ (text (codes "fordExplorer"), codes "Ford Explorer")
          ∷ (text (codes "kiaSoul"), codes "Kia Soul")
          ∷ (text (codes "mercedes"), codes "Mercedes")
          ∷ (text (codes "peugeotIon"), codes "Peugeot iOn")
          ∷ (text (codes "porscheTaycan"), codes "Porsche Taycan")
          ∷ (text (codes "renaultZoe"), codes "Renault Zoe/Twingo")
          ∷ (text (codes "ssangyong"), codes "Ssangyong")
          ∷ (text (codes "vwID3_2"), codes "VW ID (SW <3.2)")
          ∷ (text (codes "vwID3_4"), codes "VW ID (SW 3.2-4.1)")
          ∷ (text (codes "vwID5"), codes "VW ID (SW 5.x)")
          ∷ [];
      empty_string_means = some (text (codes "default"));
    }
    ∷ record {
      common = described (codes "force_state") (codes "frc");
      select_options =
          (int (pos 0), codes "Neutral")
          ∷ (int (pos 1), codes "Off")
          ∷ (int (pos 2), codes "On")
          ∷ [];
      empty_string_means = none;
    }
    ∷ record {
      common = record (described (codes "current_preset") (codes "amp")) {
        uid = some (codes "amp_preset");
        companion_key = some (codes "clp");
      };
      select_options = [];
      empty_string_means = none;
    }
    ∷ []
