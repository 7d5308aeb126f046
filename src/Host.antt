-- ===== src/Host.antt =====
-- What the client library stands on and the repository does not hold: Mercury with the servers
-- behind it, the local kernel, the file system's names, the clock, `std::hash`, and
-- `dlsym(RTLD_NEXT, ..)`, of which `resolves` says whether it finds a function. A development over
-- a `Host` holds for each of them.
use hvac_arc.Base.{Bool, ℕ, ℤ, Option, Bytes}

-- hvac_comm.h: what a request carries.
pub data Request : Type 0 where
  open_in : Bytes → Request
  read_in : (input_val accessfd offset : ℤ) → Request
  seek_in : (fd offset whence : ℤ) → Request
  close_in : ℤ → Request

-- How a forwarded request ends: the server's return value, with the bytes that it pushed into the
-- client's buffer; an error of the transport; or no answer at all.
pub data Delivery : Type 0 where
  replied : ℤ → Bytes → Delivery
  failed silent : Delivery

pub record Timespec : Type 0 where
  pub sec : ℕ
  pub nsec : ℕ

pub record Host : Type 1 where
  pub World : Type 0
  pub deliver : Bytes → Request → World → Delivery × World
  pub canonical : Bytes → World → Option Bytes
  pub current_path : World → Bytes
  pub config_file : World → Option Bytes
  pub hash : Bytes → ℕ
  pub slurm_procid : Option Bytes
  pub resolves : Bytes → Bool
  pub real_open : Bytes → ℕ → ℕ → World → ℤ × World
  pub real_close : ℤ → World → ℤ × World
  pub real_read : ℤ → ℕ → World → ℤ × Bytes × World
  pub real_pread : ℤ → ℕ → ℤ → World → ℤ × Bytes × World
  pub clock : World → Timespec × World
