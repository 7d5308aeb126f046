-- ===== src/Server.antt =====
-- The server: the request handlers of hvac_comm.cpp and the data mover of hvac_data_mover.cpp.
mod Defs
mod Handlers
mod Mover
mod Events
mod Thread
pub mod Cache
pub mod Crashes
pub mod Descriptors
pub mod OpenFiles
pub mod Streams
pub mod Manners
pub mod Survival
pub mod Queue
pub mod Histories
pub mod Waking
pub mod Settling
unfoldable pub use Defs.*
unfoldable pub use Handlers.*
unfoldable pub use Mover.*
unfoldable pub use Thread.*
unfoldable pub use Events.*
