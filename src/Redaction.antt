-- ===== src/Redaction.antt =====
-- custom_components/wattpilot/redaction.py: what the diagnostics show of a charger's properties.
mod Scrub
mod Properties
pub mod Called
pub mod Clean
pub mod Companion
pub mod Alike
unfoldable pub use Scrub.*
unfoldable pub use Properties.*
