-- ===== src/Api/Connection.antt =====
-- custom_components/wattpilot/api/connection.py: the socket, its reader and the state of one
-- connection.
mod State
mod Lifecycle
mod Reader
mod Steps
pub mod Invariant
pub mod Ends
pub mod Backoff
pub mod Snapshot
unfoldable pub use State.*
unfoldable pub use Lifecycle.*
unfoldable pub use Reader.*
unfoldable pub use Steps.*
