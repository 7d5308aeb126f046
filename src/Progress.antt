-- ===== src/Progress.antt =====
-- The progress thread of hvac_comm.cpp, `hvac_progress_fn`, and `hvac_shutdown_comm`.
mod Defs
pub mod Shutdown
pub mod Draining
pub mod Waiting
unfoldable pub use Defs.*
