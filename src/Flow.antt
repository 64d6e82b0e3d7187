-- ===== src/Flow.antt =====
-- custom_components/wattpilot/config_flow.py: the flows that add, move and discover chargers.
mod State
mod Probe
mod Steps
mod Discovery
pub mod Changes
pub mod Hosts
pub mod Refines
pub mod Creates
pub mod Announces
pub mod Serials
pub mod Agreement
pub mod Adding
pub mod Addresses
pub mod Moved
unfoldable pub use State.*
unfoldable pub use Probe.*
unfoldable pub use Steps.*
unfoldable pub use Discovery.*
