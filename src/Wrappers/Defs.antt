-- ===== src/Wrappers/Defs.antt =====
-- The statistics of wrappers.c. Times are in nanoseconds where the source has seconds in a
-- `double`.
use hvac_arc.Base.{
  Bytes, codes, true, false, ℕ, ◌+◌, ◌-◌, ◌*◌, Bool, if◌then◌else◌, ltb, Prog, Outcome, returns,
  stops,
}
use hvac_arc.Host.{Timespec}
use hvac_arc.Client.{Client}

abbrev pub second : ℕ
second = 1_000_000_000

pub record Stats : Type 0 where
  pub count : ℕ
  pub total_time : ℕ

abbrev pub no_stats : Stats
no_stats = record { count = 0; total_time = 0 }

-- The pointers `__real_open` and so on: whether they are set.
pub record Mapped : Type 0 where
  pub open_fn : Bool
  pub close_fn : Bool
  pub read_fn : Bool
  pub pread_fn : Bool

abbrev pub unmapped : Mapped
unmapped = record { open_fn = false; close_fn = false; read_fn = false; pread_fn = false }

abbrev pub all_mapped : Mapped
all_mapped = record { open_fn = true; close_fn = true; read_fn = true; pread_fn = true }

pub data Symbol : Type 0 where
  open_symbol close_symbol read_symbol pread_symbol : Symbol

abbrev pub name_of : Symbol → Bytes
name_of open_symbol = codes "open"
name_of close_symbol = codes "close"
name_of read_symbol = codes "read"
name_of pread_symbol = codes "pread"

abbrev pub is_mapped : Symbol → Mapped → Bool
is_mapped open_symbol m = m.open_fn
is_mapped close_symbol m = m.close_fn
is_mapped read_symbol m = m.read_fn
is_mapped pread_symbol m = m.pread_fn

abbrev pub set_mapped : Symbol → Mapped → Mapped
set_mapped open_symbol m = record m { open_fn = true }
set_mapped close_symbol m = record m { close_fn = true }
set_mapped read_symbol m = record m { read_fn = true }
set_mapped pread_symbol m = record m { pread_fn = true }

-- A process: the globals of the client library, of wrappers.c, and the flag of its thread.
pub record Process (World : Type 0) : Type 0 where
  pub client : Client World
  pub tl_disable_redirect : Bool
  pub mapped : Mapped
  pub open_stats : Stats
  pub open_data_stats : Stats
  pub open_system_stats : Stats
  pub close_stats : Stats
  pub read_stats : Stats
  pub pread_stats : Stats

-- The `delta` that every wrapper computes. The second branch borrows a second; the additions come
-- before the subtractions here.
unfoldable pub elapsed : Timespec → Timespec → ℕ
elapsed start later =
    if ltb start.nsec later.nsec
    then later.sec * second - start.sec * second + (later.nsec - start.nsec)
    else later.sec * second + (later.nsec + second - start.nsec) - (start.sec * second + second)

unfoldable pub note_call : Timespec → Timespec → Stats → Stats
unfolding elapsed
note_call start later s = record {
  count = s.count + 1;
  total_time = s.total_time + elapsed start later;
}

-- A call of the client library.
abbrev pub keep_process : {W A : Type 0} → Process W → Outcome (Client W) A → Outcome (Process W) A
keep_process p (returns a c) = returns a (record p { client = c })
keep_process p (stops e c) = stops e (record p { client = c })

abbrev pub on_client : {W A : Type 0} → Prog (Client W) A → Prog (Process W) A
on_client m p = keep_process p (m p.client)
