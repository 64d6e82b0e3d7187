-- ===== src/Sensor/Restored.antt =====
-- The first number after a restart, against the total that was restored.
use ha_wattpilot.Base.{if◌then◌else◌}
use ha_wattpilot.Json.{Value}
use ha_wattpilot.Entities.{SensorDescription}
use ha_wattpilot.Sensor.Library.{SensorLibrary}
use ha_wattpilot.Sensor.Hold.{at_least_number, prepared}

-- What a restored total becomes with the first number: the number where it is no lower, the total
-- where it is lower by no more than a tenth, and otherwise the number again.
abbrev pub first_total : SensorLibrary → SensorDescription → Value → Value → Value
first_total py d total v =
    let p = prepared py d v in
    if at_least_number p total
    then p
    else if at_least_number p (py.nine_tenths total)
    then total
    else p
