-- ===== src/Entities/Tables.antt =====
-- The tables of custom_components/wattpilot/descriptions.py, cut where they are long.
mod Enums
mod Countries
mod Readings
mod Power
mod Session
mod Numbers
mod Selects
mod Controls
unfoldable pub use Enums.*
unfoldable pub use Countries.*
unfoldable pub use Readings.*
unfoldable pub use Power.*
unfoldable pub use Session.*
unfoldable pub use Numbers.*
unfoldable pub use Selects.*
unfoldable pub use Controls.*
use ha_wattpilot.Base.{List, ◌++◌}
use ha_wattpilot.Entities.Platforms.{SensorDescription, NumberDescription}

-- SENSOR_DESCRIPTIONS and NUMBER_DESCRIPTIONS, whole.
unfoldable pub sensor_descriptions : List SensorDescription
unfolding access_sensors state_sensors session_sensors
sensor_descriptions = access_sensors ++ (state_sensors ++ session_sensors)

unfoldable pub number_descriptions : List NumberDescription
unfolding charging_numbers limit_numbers
number_descriptions = charging_numbers ++ limit_numbers
