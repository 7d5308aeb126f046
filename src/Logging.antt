-- ===== src/Logging.antt =====
-- hvac_logging.c and hvac_logging.h: the set-up of log4c, and the formatting of a message.
mod Defs
mod Digits
pub mod Buffer
pub mod Settings
unfoldable pub use Defs.*
