-- ===== src/OrderedMap.antt =====
-- `std::map`, which keeps its entries in the order of their keys.
mod Defs
mod Laws
mod Sums
mod Entries
unfoldable pub use Defs.*
pub use Laws.*
pub use Sums.*
pub use Entries.*
