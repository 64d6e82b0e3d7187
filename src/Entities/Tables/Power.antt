-- ===== src/Entities/Tables/Power.antt =====
-- SENSOR_DESCRIPTIONS: power, network and state.
use ha_wattpilot.Base.{Option, none, some, List, [], ◌∷◌, ◌++◌, true, Text, codes, ℕ}
use ha_wattpilot.Entities.Descriptions.{described}
use ha_wattpilot.Entities.Platforms.{SensorDescription, sensor}
use ha_wattpilot.Entities.Tables.Enums.{charging_reason_enum, id_chip_enum, wifi_state_enum}
use ha_wattpilot.Base.{text_eq, if◌then◌else◌}
use ha_wattpilot.Entities.Tables.Readings.{nrg_attributes}

unfoldable pub position : Text → List (Text × ℕ) → Option ℕ
position s [] = none
position s ((t, i) ∷ ts) = let rest = position s ts in if text_eq t s then some i else rest

-- One quantity of one phase, where the charger has a reading of it.
unfoldable pub phase_sensor : Text → Text → Text → Text → ℕ → Text × Text → List SensorDescription
unfolding position
phase_sensor quantity slot device_class measure precision (phase, upper) =
    let name = phase ++ (codes "_" ++ quantity) in
    elim (position (upper ++ (codes "_" ++ slot)) nrg_attributes) [
      | none ↦ []
      | some i ↦
          (record (sensor (record (described name (codes "nrg")) { uid = some name })) {
            device_class = some device_class;
            state_class = some (codes "measurement");
            native_unit_of_measurement = some measure;
            suggested_display_precision = some precision;
            value_index = some i;
          })
          ∷ []
    ]

unfoldable pub quantity_sensors : Text → Text → Text → Text → ℕ → List SensorDescription
unfolding phase_sensor
quantity_sensors quantity slot device_class measure precision =
    let sensor_of = phase_sensor quantity slot device_class measure precision in
    sensor_of (codes "l1", codes "L1")
    ++ (sensor_of (codes "l2", codes "L2")
        ++ (sensor_of (codes "l3", codes "L3") ++ sensor_of (codes "n", codes "N")))

unfoldable pub phase_sensors : List SensorDescription
unfolding quantity_sensors
phase_sensors =
    quantity_sensors (codes "voltage") (codes "Voltage") (codes "voltage") (codes "V") 1
    ++ (quantity_sensors (codes "current") (codes "Ampere") (codes "current") (codes "A") 1
        ++ (quantity_sensors (codes "power") (codes "Power") (codes "power") (codes "W") 0
            ++ quantity_sensors (codes "power_factor") (codes "PowerRelative")
                (codes "power_factor") (codes "%") 0))

unfoldable pub state_sensors : List SensorDescription
unfolding phase_sensors
state_sensors =
    record (sensor (described (codes "local_time") (codes "loc"))) {
      device_class = some (codes "timestamp");
    }
      ∷ record (sensor (described (codes "charging_reason") (codes "modelStatus"))) {
        enum = some (charging_reason_enum);
      }
      ∷ record (sensor (described (codes "charging_power") (codes "nrg"))) {
        device_class = some (codes "power");
        state_class = some (codes "measurement");
        native_unit_of_measurement = some (codes "W");
        value_index = some 11;
        index_attributes = nrg_attributes;
      }
      ∷ phase_sensors
    ++ (sensor (record (described (codes "webserver_queue") (codes "qsw")) {
      firmware = some (codes "<=40.7");
    })
        ∷ sensor (described (codes "reboot_counter") (codes "rbc"))
        ∷ record (sensor (described (codes "reboot_timer") (codes "rbt"))) {
          device_class = some (codes "duration");
          native_unit_of_measurement = some (codes "ms");
          suggested_display_precision = some 1;
        }
        ∷ record (sensor (described (codes "wifi_signal") (codes "rssi"))) {
          device_class = some (codes "signal_strength");
          native_unit_of_measurement = some (codes "dBm");
        }
        ∷ record (sensor (described (codes "charger_temp") (codes "tma"))) {
          device_class = some (codes "temperature");
          native_unit_of_measurement = some (codes "°C");
          highest_reading = true;
        }
        ∷ record (sensor (described (codes "id_chip_current") (codes "trx"))) {
          enum = some (id_chip_enum);
        }
        ∷ sensor (record (described (codes "http_clients") (codes "wcch")) {
          firmware = some (codes "<=40.7");
        })
        ∷ sensor (record (described (codes "websocket_clients") (codes "wccw")) {
          firmware = some (codes "<=40.7");
        })
        ∷ record (sensor (described (codes "session_energy") (codes "wh"))) {
          device_class = some (codes "energy");
          state_class = some (codes "total_increasing");
          native_unit_of_measurement = some (codes "Wh");
          suggested_display_precision = some 2;
          clamp_non_negative = true;
          reset_tolerant_monotonic = true;
        }
        ∷ record (sensor (described (codes "wifi_state") (codes "wst"))) {
          enum = some (wifi_state_enum);
        }
        ∷ [])
