-- ===== src/Entities/Tables/Session.antt =====
-- SENSOR_DESCRIPTIONS: the session and its limits.
use ha_wattpilot.Base.{some, List, [], ◌∷◌, ◌++◌, true, false, Text, codes}
use ha_wattpilot.Json.{bool}
use ha_wattpilot.Entities.Descriptions.{described}
use ha_wattpilot.Entities.Platforms.{prices, boot_clock, live_power, SensorDescription, sensor}

-- `_energy_split_sensor`
unfoldable pub energy_split_sensor : Text → Text → SensorDescription
energy_split_sensor charger_key key = record (sensor (described key charger_key)) {
  device_class = some (codes "energy");
  state_class = some (codes "total_increasing");
  native_unit_of_measurement = some (codes "Wh");
  suggested_display_precision = some 2;
  clamp_non_negative = true;
}

unfoldable pub source_sensor : Text → Text → SensorDescription
source_sensor charger_key source =
    record (sensor (described (codes "charging_power_from_" ++ source) charger_key)) {
      device_class = some (codes "power");
      state_class = some (codes "measurement");
      native_unit_of_measurement = some (codes "W");
      suggested_display_precision = some 0;
      null_is_zero = true;
    }

unfoldable pub source_sensors : List SensorDescription
unfolding source_sensor
source_sensors =
    source_sensor (codes "ws") (codes "solar")
    ∷ source_sensor (codes "wb") (codes "battery")
    ∷ source_sensor (codes "wg") (codes "grid")
    ∷ source_sensor (codes "wo") (codes "other_sources")
    ∷ []

unfoldable pub average_charging_power : SensorDescription
average_charging_power =
    record (sensor (record (described (codes "average_charging_power") (codes "tpa")) {
      companion_key = some (codes "nrg");
    })) {
      device_class = some (codes "power");
      state_class = some (codes "measurement");
      native_unit_of_measurement = some (codes "W");
      suggested_display_precision = some 0;
      companion_role = some live_power;
    }

unfoldable pub session_sensors : List SensorDescription
unfolding energy_split_sensor source_sensors
session_sensors =
    energy_split_sensor (codes "whs") (codes "session_energy_solar")
      ∷ energy_split_sensor (codes "whb") (codes "session_energy_battery")
      ∷ energy_split_sensor (codes "whg") (codes "session_energy_grid")
      ∷ energy_split_sensor (codes "who") (codes "session_energy_other")
      ∷ source_sensors
    ++ (record (sensor (described (codes "charging_allowed") (codes "alw"))) {
      enum = some ((bool true, codes "Allowed") ∷ (bool false, codes "Blocked") ∷ []);
    }
        ∷ record (sensor (described (codes "allowed_current") (codes "acu"))) {
          device_class = some (codes "current");
          state_class = some (codes "measurement");
          native_unit_of_measurement = some (codes "A");
        }
        ∷ record (sensor (described (codes "charging_current_limit") (codes "cll"))) {
          device_class = some (codes "current");
          state_class = some (codes "measurement");
          native_unit_of_measurement = some (codes "A");
          namespace_value = some (codes "currentLimitMax");
          namespace_attributes =
              codes "adapterCurrentLimit"
              ∷ codes "cableCurrentLimit"
              ∷ codes "temperatureCurrentLimit"
              ∷ codes "unsymetryCurrentLimit"
              ∷ codes "requestedCurrent"
              ∷ codes "pvSurplus"
              ∷ [];
        }
        ∷ record (sensor (described (codes "temperature_current_limit") (codes "amt"))) {
          device_class = some (codes "current");
          state_class = some (codes "measurement");
          native_unit_of_measurement = some (codes "A");
        }
        ∷ average_charging_power
        ∷ record (sensor (described (codes "grid_frequency") (codes "fhz"))) {
          device_class = some (codes "frequency");
          state_class = some (codes "measurement");
          native_unit_of_measurement = some (codes "Hz");
          suggested_display_precision = some 2;
        }
        ∷ record (sensor (record (described (codes "phases_in_use") (codes "pha")) {
          uid = some (codes "pnp");
        })) { state_class = some (codes "measurement"); switched_phases = true }
        ∷ record (sensor (record (described (codes "electricity_price") (codes "awcp")) {
          companion_key = some (codes "awpl");
        })) {
          state_class = some (codes "measurement");
          native_unit_of_measurement = some (codes "ct/kWh");
          suggested_display_precision = some 2;
          namespace_value = some (codes "marketprice");
          companion_role = some prices;
        }
        ∷ record (sensor (record (described (codes "charging_duration") (codes "cdi")) {
          companion_key = some (codes "rbt");
        })) {
          device_class = some (codes "duration");
          native_unit_of_measurement = some (codes "min");
          companion_role = some boot_clock;
        }
        ∷ [])
