-- ===== src/CachePolicy.antt =====
-- hvac_cache_policy.h and hvac_cache_policy.cpp: where each cached file lies, and what each tier
-- holds.
mod Defs
mod Calls
mod Eviction
mod History
mod Keeps
pub mod Spec
mod Effects
pub mod Refinement
pub mod Answers
pub mod Accounting
pub mod Capacity
pub mod Victim
pub mod Endings
pub mod Placement
pub mod Init
unfoldable pub use Defs.*
unfoldable pub use Calls.*
unfoldable pub use Eviction.*
unfoldable pub use History.*
