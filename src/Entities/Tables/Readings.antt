-- ===== src/Entities/Tables/Readings.antt =====
-- SENSOR_DESCRIPTIONS up to the readings of the charger itself.
use ha_wattpilot.Base.{
  Option, none, some, List, [], ◌∷◌, ◌++◌, true, Text, codes, ℕ, zero, suc, show_nat, pos,
}
use ha_wattpilot.Json.{int}
use ha_wattpilot.Entities.Descriptions.{described}
use ha_wattpilot.Entities.Platforms.{SensorDescription, sensor}
use ha_wattpilot.Entities.Tables.Enums.{
  car_state_enum, car_connection_enum, internal_error_enum, lock_feedback_enum,
}

-- `NRG_ATTRIBUTES`: where each reading stands in an nrg list.
abbrev pub nrg_attributes : List (Text × ℕ)
nrg_attributes =
    (codes "L1_Voltage", 0)
    ∷ (codes "L2_Voltage", 1)
    ∷ (codes "L3_Voltage", 2)
    ∷ (codes "N_Voltage", 3)
    ∷ (codes "L1_Ampere", 4)
    ∷ (codes "L2_Ampere", 5)
    ∷ (codes "L3_Ampere", 6)
    ∷ (codes "L1_Power", 7)
    ∷ (codes "L2_Power", 8)
    ∷ (codes "L3_Power", 9)
    ∷ (codes "N_Power", 10)
    ∷ (codes "TotalPower", 11)
    ∷ (codes "L1_PowerRelative", 12)
    ∷ (codes "L2_PowerRelative", 13)
    ∷ (codes "L3_PowerRelative", 14)
    ∷ (codes "N_PowerRelative", 15)
    ∷ []

abbrev chip : Text → Text → Option ℕ → ℕ → SensorDescription
chip key charger_key cards_index i =
    record (sensor (record (described key charger_key) { uid = some key })) {
      device_class = some (codes "energy");
      state_class = some (codes "total");
      native_unit_of_measurement = some (codes "Wh");
      cards_index = cards_index;
      chip_index = some i;
    }

-- Both shapes of the chips from the i-th on.
unfoldable pub chips : ℕ → ℕ → List SensorDescription
chips zero i = []
chips (suc n) i =
    chip (codes "cards_" ++ show_nat i) (codes "cards") (some i) i
    ∷ chip (codes "chip_" ++ show_nat i) (codes "c" ++ (show_nat i ++ codes "e")) none i
    ∷ chips n (suc i)

unfoldable pub total_energy : SensorDescription
total_energy = record (sensor (described (codes "total_energy") (codes "eto"))) {
  device_class = some (codes "energy");
  state_class = some (codes "total_increasing");
  native_unit_of_measurement = some (codes "Wh");
  suggested_display_precision = some 2;
  clamp_non_negative = true;
  monotonic = true;
}

unfoldable pub access_sensors : List SensorDescription
unfolding chips
access_sensors =
    record (sensor (record (described (codes "access_state") (codes "acs")) {
      uid = some (codes "access_state");
    })) {
      enum =
          some ((int (pos 0), codes "Open") ∷ (int (pos 1), codes "Authentication Required") ∷ []);
    }
      ∷ record (sensor (record (described (codes "car_connected") (codes "car")) {
        uid = some (codes "car_connected");
      })) { enum = some (car_connection_enum) }
      ∷ chips 10 0
    ++ (record (sensor (described (codes "car_state") (codes "car"))) {
      enum = some (car_state_enum);
    }
        ∷ record (sensor (described (codes "inverter") (codes "cci"))) {
          namespace_value = some (codes "label");
          namespace_attributes =
              codes "paired"
              ∷ codes "model"
              ∷ codes "commonName"
              ∷ codes "ip"
              ∷ codes "connected"
              ∷ codes "status"
              ∷ codes "message"
              ∷ [];
          html_unescape = true;
        }
        ∷ record (sensor (described (codes "wifi_connection") (codes "ccw"))) {
          namespace_value = some (codes "ssid");
          namespace_attributes =
              codes "ip" ∷ codes "netmask" ∷ codes "gw" ∷ codes "channel" ∷ codes "bssid" ∷ [];
        }
        ∷ record (sensor (described (codes "cable_unlock") (codes "cus"))) {
          enum = some (lock_feedback_enum);
        }
        ∷ record (sensor (described (codes "internal_error") (codes "err"))) {
          enum = some (internal_error_enum);
        }
        ∷ total_energy
        ∷ record (sensor (described (codes "lock_feedback") (codes "ffb"))) {
          enum = some (lock_feedback_enum);
        }
        ∷ record (sensor (described (codes "effective_lock_setting") (codes "lck"))) {
          enum = some (
              (int (pos 0), codes "Normal")
              ∷ (int (pos 1), codes "AutoUnlock")
              ∷ (int (pos 2), codes "AlwaysLock")
              ∷ (int (pos 3), codes "ForceUnlock")
              ∷ []);
        }
        ∷ [])
