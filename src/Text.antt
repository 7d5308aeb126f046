-- ===== src/Text.antt =====
-- The C library's text routines that the program calls: `fprintf` and `fscanf` with %d and %s,
-- `atoi`, and `std::stoull`. Not code of the repository; its standard library as the program uses
-- it.
mod Scan
mod Print
mod Laws
unfoldable pub use Scan.*
unfoldable pub use Print.*
pub use Laws.*
