-- ===== src/Controls.antt =====
-- custom_components/wattpilot/select.py: what a select offers, shows and writes.
mod Select
mod Switch
mod Number
mod Time
mod Unknown
pub mod Options
unfoldable pub use Select.*
unfoldable pub use Switch.*
unfoldable pub use Number.*
unfoldable pub use Time.*
