-- ===== src/Client.antt =====
-- The client library: hvac_comm_client.cpp and hvac_client.cpp.
mod Defs
mod Rpc
mod Files
pub mod Redirect
pub mod Session
pub mod DataDir
pub mod Pread
pub mod Tables
pub mod Pairing
pub mod Uses
pub mod Addresses
pub mod Hosts
pub mod Failed
pub mod Unposted
unfoldable pub use Defs.*
unfoldable pub use Rpc.*
unfoldable pub use Files.*
