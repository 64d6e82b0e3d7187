-- ===== src/Hub.antt =====
-- custom_components/wattpilot/hub.py: one hub per config entry, which fans pushes out.
mod State
mod Steps
mod Writes
pub mod Announce
pub mod Deliver
pub mod Retire
unfoldable pub use State.*
unfoldable pub use Steps.*
unfoldable pub use Writes.*
