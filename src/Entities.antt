-- ===== src/Entities.antt =====
-- custom_components/wattpilot/descriptions.py and the platforms that read it.
mod Descriptions
mod Platforms
mod Tables
pub mod Identity
pub mod Support
unfoldable pub use Descriptions.*
unfoldable pub use Platforms.*
unfoldable pub use Tables.*
