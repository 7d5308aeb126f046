-- ===== src/Server/Defs.antt =====
-- The globals of the server, and the operating system under it.
use hvac_arc.Base.{ℕ, ℤ, Bool, Option, List, Bytes}
use hvac_arc.OrderedMap.{Map}

-- The calls of the kernel, of `std::filesystem` and of Mercury's bulk transfers that the server
-- makes. `read` and `pread` give the result and the bytes in the buffer; `registers n` and
-- `transfers size n` say whether Mercury takes a buffer of `n` bytes and a push of `size` bytes of
-- it.
pub record Kernel : Type 1 where
  pub World : Type 0
  pub open_ro : Bytes → World → ℤ × World
  pub read : ℤ → ℕ → World → ℤ × Bytes × World
  pub pread : ℤ → ℕ → ℤ → World → ℤ × Bytes × World
  pub lseek : ℤ → ℤ → ℤ → World → ℤ × World
  pub close : ℤ → World → ℤ × World
  pub mkdtemp : Bytes → World → Option Bytes × World
  pub copy : Bytes → Bytes → World → Bool × World
  pub registers : ℕ → Bool
  pub transfers : ℕ → ℕ → Bool

-- `local_list` belongs to the data mover's thread, the rest is shared.
pub record Server (World : Type 0) : Type 0 where
  pub world : World
  pub fd_to_path : Map ℤ Bytes
  pub path_cache_map : Map Bytes Bytes
  pub data_queue : List Bytes
  pub local_list : List Bytes
