-- ===== src/Entries.antt =====
-- custom_components/wattpilot/const.py and registry_migration.py: what the config entries and the
-- entities of the registry are called, and which entry a serial belongs to.
mod Naming
mod Registry
mod Known
mod Collisions
pub mod Names
pub mod Suffixes
pub mod Targets
unfoldable pub use Naming.*
unfoldable pub use Registry.*
unfoldable pub use Known.*
unfoldable pub use Collisions.*
