-- ===== src/Registration.antt =====
-- The registration of the four requests: hvac_comm.cpp, hvac_comm_client.cpp and hvac_server.cpp.
mod Defs
pub mod Dispatch
unfoldable pub use Defs.*
