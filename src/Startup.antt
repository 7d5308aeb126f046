-- ===== src/Startup.antt =====
-- How processes start: the constructor of the client library (hvac_client.cpp), `hvac_init_comm`
-- (hvac_comm.cpp) and the server's `main` (hvac_server.cpp).
mod Defs
pub mod Counting
pub mod Posting
unfoldable pub use Defs.*
