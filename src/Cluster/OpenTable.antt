-- ===== src/Cluster/OpenTable.antt =====
-- What an application sees of its tracked files: a table of open files, and the calls of open, read and
-- close on it.
use hvac_arc.Base.{ℕ, ℤ, pos, int_ord, Option, none, some, List, [], ◌∷◌, Bytes, take, drop}
use hvac_arc.OrderedMap.{Map, lookup, insert, erase}
use hvac_arc.Server.{Event}

-- A call of `open`, with what the machines answer: the path to remember and its server, the bytes of
-- the file, and the kernel's descriptor.
pub record Opening : Type 0 where
  pub path : Bytes
  pub flags : ℕ
  pub mode : ℕ
  pub full : Bytes
  pub address : Bytes
  pub contents : Bytes
  pub fd : ℤ

pub data Call : Type 0 where
  opens : Opening → Call
  reads : ℤ → ℕ → Call
  closes : ℤ → Call

-- What happens before a call: events at each server, and any change of the application's own machine.
pub record Between (Local : Type 0) : Type 0 where
  pub events : Bytes → List Event
  pub local : Local

-- What the application gets: a number, or the bytes of a read.
pub data Seen : Type 0 where
  gave : ℤ → Seen
  got : Option Bytes → Seen

-- The files that are open, with the bytes that are still to be read.
abbrev pub Table : Type 0
Table = Map ℤ Bytes

abbrev pub read_entry : Option Bytes → ℤ → ℕ → Table → Seen × Table
read_entry none fd n t = (got none, t)
read_entry (some rest) fd n t = (got (some (take n rest)), insert fd (drop n rest) t)

-- A call on the table alone: no server, no copy and no other program.
unfoldable pub on_table : Call → Table → Seen × Table
on_table (opens o) t = (gave o.fd, insert o.fd o.contents t)
on_table (reads fd n) t = read_entry (lookup fd t) fd n t
on_table (closes fd) t = (gave (pos 0), erase fd t)

unfoldable pub all_on_table : {L : Type 0} → List (Between L × Call) → Table → List Seen
unfolding on_table
all_on_table [] t = []
all_on_table ((b, c) ∷ more) t = let (s, t') = on_table c t in s ∷ all_on_table more t'
