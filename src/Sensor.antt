-- ===== src/Sensor.antt =====
-- custom_components/wattpilot/sensor.py: how a pushed value becomes the state of a sensor.
mod Library
mod Convert
mod Hold
mod Prices
mod Apply
mod Compare
pub mod Held
pub mod Totals
pub mod Restored
pub mod Average
unfoldable pub use Library.*
unfoldable pub use Convert.*
unfoldable pub use Hold.*
unfoldable pub use Prices.*
unfoldable pub use Apply.*
