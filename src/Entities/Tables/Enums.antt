-- ===== src/Entities/Tables/Enums.antt =====
-- The label tables of custom_components/wattpilot/descriptions.py. One row per pair, in its order.
use ha_wattpilot.Base.{[], ◌∷◌, codes, pos}
use ha_wattpilot.Json.{null, int}
use ha_wattpilot.Entities.Platforms.{Labels}

abbrev pub car_state_enum : Labels
car_state_enum =
    (int (pos 0), codes "Unknown")
    ∷ (int (pos 1), codes "Idle")
    ∷ (int (pos 2), codes "Charging")
    ∷ (int (pos 3), codes "Wait Car")
    ∷ (int (pos 4), codes "Complete")
    ∷ (int (pos 5), codes "Error")
    ∷ []

abbrev pub car_connection_enum : Labels
car_connection_enum =
    (int (pos 0), codes "Unknown")
    ∷ (int (pos 1), codes "Disconnected")
    ∷ (int (pos 2), codes "Connected")
    ∷ (int (pos 3), codes "Connected")
    ∷ (int (pos 4), codes "Connected")
    ∷ (int (pos 5), codes "Error")
    ∷ []

abbrev pub internal_error_enum : Labels
internal_error_enum =
    (int (pos 0), codes "None")
    ∷ (int (pos 1), codes "FI AC")
    ∷ (int (pos 2), codes "FI DC")
    ∷ (int (pos 3), codes "Phase")
    ∷ (int (pos 4), codes "Overvolt")
    ∷ (int (pos 5), codes "Overamp")
    ∷ (int (pos 6), codes "Diode")
    ∷ (int (pos 7), codes "PP Invalid")
    ∷ (int (pos 8), codes "Gnd Invalid")
    ∷ (int (pos 9), codes "Contactor Stuck")
    ∷ (int (pos 10), codes "Contactor Missing")
    ∷ (int (pos 11), codes "FI Unknown")
    ∷ (int (pos 12), codes "Unknown")
    ∷ (int (pos 13), codes "Overtemp")
    ∷ (int (pos 14), codes "No Comm")
    ∷ (int (pos 15), codes "Status Lock Stuck Open")
    ∷ (int (pos 16), codes "Status Lock Stuck Locked")
    ∷ (int (pos 20), codes "Reserved 20")
    ∷ (int (pos 21), codes "Reserved 21")
    ∷ (int (pos 22), codes "Reserved 22")
    ∷ (int (pos 23), codes "Reserved 23")
    ∷ (int (pos 24), codes "Reserved 24")
    ∷ []

abbrev pub charging_reason_enum : Labels
charging_reason_enum =
    (int (pos 0), codes "Not Charging - No Charge Control Data")
    ∷ (int (pos 1), codes "Not Charging - Overtemperature")
    ∷ (int (pos 2), codes "Not Charging - Access Control Wait")
    ∷ (int (pos 3), codes "Charging - Force State On")
    ∷ (int (pos 4), codes "Not Charging - Force State Off")
    ∷ (int (pos 5), codes "Not Charging - Scheduler")
    ∷ (int (pos 6), codes "Not Charging - Energy Limit")
    ∷ (int (pos 7), codes "Charging - aWattar Price Low")
    ∷ (int (pos 8), codes "Charging - Automatic Stop Test")
    ∷ (int (pos 9), codes "Charging - Automatic Stop Not Enough Time")
    ∷ (int (pos 10), codes "Charging - Automatic Stop")
    ∷ (int (pos 11), codes "Charging - Automatic Stop No Clock")
    ∷ (int (pos 12), codes "Charging - PV Surplus")
    ∷ (int (pos 13), codes "Charging - Fallback Go-e Default")
    ∷ (int (pos 14), codes "Charging - Fallback Go-e Scheduler")
    ∷ (int (pos 15), codes "Charging - Fallback Default")
    ∷ (int (pos 16), codes "Not Charging - Fallback Go-e aWattar")
    ∷ (int (pos 17), codes "Not Charging - Fallback aWattar")
    ∷ (int (pos 18), codes "Not Charging - Fallback Automatic Stop")
    ∷ (int (pos 19), codes "Charging - Car Compatibility Keep Alive")
    ∷ (int (pos 20), codes "Charging - Charge Pause Not Allowed")
    ∷ (int (pos 22), codes "Not Charging - Simulate Unplugging")
    ∷ (int (pos 23), codes "Not Charging - Phase Switch")
    ∷ (int (pos 24), codes "Not Charging - Min Pause Duration")
    ∷ (int (pos 26), codes "Not Charging - Error")
    ∷ (int (pos 27), codes "Not Charging - Load Management Doesn't Want")
    ∷ (int (pos 28), codes "Not Charging - OCPP Doesn't Want")
    ∷ (int (pos 29), codes "Not Charging - Reconnect Delay")
    ∷ (int (pos 30), codes "Not Charging - Adapter Blocking")
    ∷ (int (pos 31), codes "Not Charging - Underfrequency Control")
    ∷ (int (pos 32), codes "Not Charging - Unbalanced Load")
    ∷ (int (pos 33), codes "Charging - Discharging PV Battery")
    ∷ (int (pos 34), codes "Not Charging - Grid Monitoring")
    ∷ (int (pos 35), codes "Not Charging - OCPP Fallback")
    ∷ []

abbrev pub lock_feedback_enum : Labels
lock_feedback_enum =
    (int (pos 0), codes "Unknown")
    ∷ (int (pos 1), codes "Unlocked")
    ∷ (int (pos 2), codes "Unlock Failed")
    ∷ (int (pos 3), codes "Locked")
    ∷ (int (pos 4), codes "Lock Failed")
    ∷ (int (pos 5), codes "Lock/Unlock Power Out")
    ∷ []

abbrev pub wifi_state_enum : Labels
wifi_state_enum =
    (int (pos 0), codes "Idle")
    ∷ (int (pos 1), codes "No SSID Available")
    ∷ (int (pos 2), codes "Scan Completed")
    ∷ (int (pos 3), codes "Connected")
    ∷ (int (pos 4), codes "Connect Failed")
    ∷ (int (pos 5), codes "Connection Lost")
    ∷ (int (pos 6), codes "Disconnected")
    ∷ (int (pos 8), codes "Connecting")
    ∷ (int (pos 9), codes "Disconnecting")
    ∷ (int (pos 10), codes "No Shield")
    ∷ []

-- The ten chips that the comprehension lists.
abbrev pub id_chip_enum : Labels
id_chip_enum =
    (null, codes "No Transaction")
    ∷ (int (pos 0), codes "No Chip")
    ∷ (int (pos 1), codes "ID Chip 0")
    ∷ (int (pos 2), codes "ID Chip 1")
    ∷ (int (pos 3), codes "ID Chip 2")
    ∷ (int (pos 4), codes "ID Chip 3")
    ∷ (int (pos 5), codes "ID Chip 4")
    ∷ (int (pos 6), codes "ID Chip 5")
    ∷ (int (pos 7), codes "ID Chip 6")
    ∷ (int (pos 8), codes "ID Chip 7")
    ∷ (int (pos 9), codes "ID Chip 8")
    ∷ (int (pos 10), codes "ID Chip 9")
    ∷ (int (pos 999), codes "No Transaction")
    ∷ []
