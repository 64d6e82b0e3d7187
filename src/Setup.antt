-- ===== src/Setup.antt =====
-- custom_components/wattpilot/__init__.py: what the setup of an entry decides.
mod Adopt
mod Migrate
pub mod Masks
mod Entry
pub mod Fork
pub mod Firmware
pub mod Serials
unfoldable pub use Adopt.*
unfoldable pub use Migrate.*
unfoldable pub use Entry.*
