-- ===== src/Api/Client.antt =====
-- custom_components/wattpilot/api/client.py: the protocol over one connection.
mod State
mod Coercion
mod Properties
mod Handshake
mod Commands
mod Messages
mod Firmware
mod Requests
pub mod Answers
pub mod Cache
pub mod Sound
pub mod Secret
pub mod Exact
pub mod Identity
pub mod Reboot
unfoldable pub use State.*
unfoldable pub use Coercion.*
unfoldable pub use Properties.*
unfoldable pub use Handshake.*
unfoldable pub use Commands.*
unfoldable pub use Messages.*
unfoldable pub use Firmware.*
unfoldable pub use Requests.*
