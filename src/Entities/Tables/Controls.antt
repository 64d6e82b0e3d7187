-- ===== src/Entities/Tables/Controls.antt =====
-- The descriptions of switches, buttons, binary sensors, the time and the update.
use ha_wattpilot.Base.{some, List, [], ◌∷◌, true, false, codes, pos}
use ha_wattpilot.Json.{int}
use ha_wattpilot.Entities.Descriptions.{Description, described}
use ha_wattpilot.Entities.Platforms.{SwitchDescription, BinarySensorDescription, ButtonDescription}

unfoldable pub binary_sensor_descriptions : List BinarySensorDescription
binary_sensor_descriptions =
    record {
      common = record (described (codes "car_plugged_in") (codes "car")) {
        uid = some (codes "car_plugged_in");
      };
      on_values = int (pos 2) ∷ int (pos 3) ∷ int (pos 4) ∷ [];
      off_values = int (pos 1) ∷ [];
    }
    ∷ record {
      common = record (described (codes "car_charging") (codes "car")) {
        uid = some (codes "car_charging");
      };
      on_values = int (pos 2) ∷ [];
      off_values = int (pos 1) ∷ int (pos 3) ∷ int (pos 4) ∷ [];
    }
    ∷ []

unfoldable pub switch_descriptions : List SwitchDescription
switch_descriptions =
    record {
      common = record (described (codes "lock_level_selection") (codes "bac")) {
        firmware = some (codes "<38.5");
      };
      invert = true;
    }
    ∷ record {
      common = record (described (codes "boost") (codes "ebe")) {
        firmware = some (codes ">=41.7");
      };
      invert = false;
    }
    ∷ record { common = described (codes "charge_pause") (codes "fap"); invert = false }
    ∷ record { common = described (codes "remain_in_eco_mode") (codes "fre"); invert = false }
    ∷ record { common = described (codes "lumina_strom_awattar") (codes "ful"); invert = false }
    ∷ record { common = described (codes "pv_surplus") (codes "fup"); invert = false }
    ∷ record { common = described (codes "load_balancing") (codes "loe"); invert = false }
    ∷ record { common = described (codes "led_energy_saving") (codes "lse"); invert = false }
    ∷ record { common = described (codes "ground_check") (codes "nmo"); invert = true }
    ∷ record {
      common = record (described (codes "discharge_pv_battery") (codes "pdte")) {
        firmware = some (codes ">=41.7");
      };
      invert = false;
    }
    ∷ record { common = described (codes "simulate_unplugging") (codes "su"); invert = false }
    ∷ record { common = described (codes "network_time_protocol") (codes "tse"); invert = false }
    ∷ record { common = described (codes "unlock_power_outage") (codes "upo"); invert = false }
    ∷ record { common = described (codes "auto_disable_hotspot") (codes "wda"); invert = false }
    ∷ []

unfoldable pub button_descriptions : List ButtonDescription
button_descriptions =
    record {
      common = record (described (codes "start_charging") (codes "frc")) {
        uid = some (codes "frc0");
        requires_property = false;
      };
      press_value = int (pos 0);
    }
    ∷ record {
      common = record (described (codes "stop_charging") (codes "frc")) {
        uid = some (codes "frc1");
        requires_property = false;
      };
      press_value = int (pos 1);
    }
    ∷ record {
      common = record (described (codes "start_charging_force") (codes "frc")) {
        uid = some (codes "frc2");
        requires_property = false;
      };
      press_value = int (pos 2);
    }
    ∷ record {
      common = record (described (codes "restart") (codes "rst")) { requires_property = false };
      press_value = int (pos 1);
    }
    ∷ record {
      common = record (described (codes "authenticate") (codes "trx")) {
        requires_property = false;
      };
      press_value = int (pos 0);
    }
    ∷ []

unfoldable pub time_descriptions : List Description
time_descriptions = (described (codes "next_trip_time") (codes "ftt")) ∷ []

unfoldable pub update_descriptions : List Description
update_descriptions = (described (codes "firmware_update") (codes "onv")) ∷ []
