-- ===== src/Entities/Tables/Numbers.antt =====
-- NUMBER_DESCRIPTIONS.
use ha_wattpilot.Base.{some, List, [], ◌∷◌, ◌++◌, true, Text, codes, ℕ, pos, negsuc}
use ha_wattpilot.Entities.Descriptions.{described}
use ha_wattpilot.Entities.Platforms.{NumberDescription, number}

-- `_seconds_setting`
unfoldable pub seconds_setting : Text → Text → NumberDescription
seconds_setting key charger_key = record (number (described key charger_key)) {
  set_as_int = true;
  native_min_value = pos 0;
  native_max_value = pos 86400;
  wire_scale = 1000;
}

unfoldable pub minimum_current : Text → Text → ℕ → NumberDescription
minimum_current variant uid ceiling =
    record (number
      (record (described (codes "minimum_charging_current_" ++ (variant ++ codes "kw"))
        (codes "mca")) { uid = some uid; variant = some variant })) {
          set_as_int = true;
          native_min_value = pos 6;
          native_max_value = pos ceiling;
        }

unfoldable pub minimum_currents : List NumberDescription
unfolding minimum_current
minimum_currents =
    minimum_current (codes "11") (codes "mca") 16
    ∷ minimum_current (codes "22") (codes "mca_22kw") 32
    ∷ []

unfoldable pub charging_numbers : List NumberDescription
unfolding minimum_currents
charging_numbers =
    record (number (record (described (codes "max_charging_current_11kw") (codes "amp")) {
      variant = some (codes "11");
    })) { native_min_value = pos 6; native_max_value = pos 16; set_as_int = true }
      ∷ record (number (record (described (codes "max_charging_current_22kw") (codes "amp")) {
        uid = some (codes "amp_22kw");
        variant = some (codes "22");
      })) { native_min_value = pos 6; native_max_value = pos 32; set_as_int = true }
      ∷ minimum_currents
    ++ (record (number (described (codes "max_price") (codes "awp"))) {
      native_min_value = negsuc 99998;
      native_max_value = pos 999999;
    }
        ∷ record (number (record (described (codes "boost_discharges_until") (codes "ebt")) {
          firmware = some (codes ">=41.7");
        })) { native_min_value = pos 0; native_max_value = pos 100; set_as_int = true }
        ∷ record (number (described (codes "pv_battery_threshold") (codes "fam"))) {
          native_min_value = pos 0;
          native_max_value = pos 100;
          set_as_int = true;
        }
        ∷ record (number (described (codes "min_charging_time") (codes "fmt"))) {
          native_min_value = pos 1;
          native_max_value = pos 60;
          set_as_int = true;
          wire_scale = 60000;
        }
        ∷ record (number (described (codes "ohmpilot_threshold") (codes "fot"))) {
          native_min_value = pos 0;
          native_max_value = pos 100;
          set_as_int = true;
        }
        ∷ [])

unfoldable pub limit_numbers : List NumberDescription
unfolding seconds_setting
limit_numbers =
    record (number (described (codes "start_charging_at") (codes "fst"))) {
      native_min_value = pos 0;
      native_max_value = pos 999999;
    }
    ∷ record (number (described (codes "pv_surplus_stop_hysteresis") (codes "sh"))) {
      native_min_value = pos 0;
      native_max_value = pos 999999;
    }
    ∷ record (number (described (codes "next_trip_charging") (codes "fte"))) {
      native_min_value = pos 0;
      native_max_value = pos 999999;
      set_as_int = true;
    }
    ∷ record (number (described (codes "phase_switch_delay") (codes "mpwst"))) {
      native_min_value = pos 0;
      native_max_value = pos 1666;
      set_as_int = true;
      wire_scale = 60000;
    }
    ∷ record (number (described (codes "phase_switch_interval") (codes "mptwt"))) {
      native_min_value = pos 0;
      native_max_value = pos 1666;
      set_as_int = true;
      wire_scale = 60000;
    }
    ∷ record (number (record (described (codes "pv_battery_discharges_until") (codes "pdt")) {
      firmware = some (codes ">=41.7");
    })) { native_min_value = pos 0; native_max_value = pos 100; set_as_int = true }
    ∷ record (number (described (codes "three_phase_power_level") (codes "spl3"))) {
      native_min_value = pos 0;
      native_max_value = pos 999999;
      set_as_int = true;
    }
    ∷ record (number (described (codes "car_consumption") (codes "cco"))) {
      native_min_value = pos 0;
      native_max_value = pos 100;
    }
    ∷ record (number (described (codes "charging_energy_limit") (codes "dwo"))) {
      native_min_value = pos 0;
      native_max_value = pos 999999;
      zero_means_null = true;
    }
    ∷ seconds_setting (codes "min_charge_pause") (codes "mcpd")
    ∷ seconds_setting (codes "min_charging_interval") (codes "mci")
    ∷ seconds_setting (codes "single_phase_duration") (codes "psmd")
    ∷ seconds_setting (codes "simulate_unplugging_duration") (codes "sumd")
    ∷ []
