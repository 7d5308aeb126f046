-- ===== src/Wrappers.antt =====
-- wrappers.c: the calls of the C library that the client intercepts, and their statistics.
mod Defs
mod Calls
pub mod Clock
pub mod Passing
pub mod Mapping
pub mod Tracked
pub mod Stranded
pub mod Tallies
pub mod Export
pub mod Unposted
pub mod Opening
unfoldable pub use Defs.*
unfoldable pub use Calls.*
