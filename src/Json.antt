-- ===== src/Json.antt =====
-- The JSON values that a frame is parsed into, as Python holds them: plain containers, and the
-- namespaces that custom_components/wattpilot/api/client.py reads messages through.
pub mod Order
mod Data
mod Lookup
mod Numbers
mod Equality
pub mod Namespaces
unfoldable pub use Data.*
unfoldable pub use Lookup.*
unfoldable pub use Numbers.*
unfoldable pub use Equality.*
