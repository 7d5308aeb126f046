-- ===== src/Tests/Shared.antt =====
-- A kernel with a descriptor for every open, and the clients of a server over it.
use hvac_arc.Base.{
  ℕ, ◌+◌, ◌≡◌, ◌≢◌, refl, ap, ℤ, pos, negsuc, minus_one, int_ord, eqb, ltb, leb, le→leb, Bool, true,
  Option, none, some, List, [], ◌∷◌, if◌then◌else◌, Bytes, bytes_ord, codes, length, take, drop,
  returns, ◌>>=◌, arith,
}
use hvac_arc.OrderedMap.{lookup}
use hvac_arc.Host.{open_in, read_in, close_in}
use hvac_arc.Server.{Kernel, Server, Event, requested, woken, copies}
use hvac_arc.Server.Cache.{StaticFiles}
use hvac_arc.Server.OpenFiles.{OpenFiles}
use hvac_arc.Cluster.{Nodes, cluster}
use hvac_arc.Cluster.Reading.{Readable}
use hvac_arc.Cluster.Streams.{Portion, read_parts}
use hvac_arc.Cluster.Programs.{program_reads_parts}
use hvac_arc.Client.{tracked_path}
use hvac_arc.Client.Redirect.{Knows}
use hvac_arc.Wrappers.{Process, wrap_open}
use hvac_arc.Tests.Samples.{
  Disk, copied, copied_keeps, copied_copies, one_file, data_file, text, machine, client, process_of,
}

-- The descriptors are given out in order; `table` holds what each has still to read, `whole` its file.
pub record Unix : Type 0 where
  pub disk : Disk
  pub next : ℕ
  pub table : ℕ → Bytes
  pub whole : ℕ → Bytes

abbrev pub opening : Option Bytes → Unix → ℤ × Unix
opening none w = (minus_one, w)
opening (some contents) w = (
  pos w.next,
  record w {
    next = w.next + 1;
    table = λ m. if eqb m w.next then contents else w.table m;
    whole = λ m. if eqb m w.next then contents else w.whole m;
  },
)

abbrev pub reading : ℤ → ℕ → Unix → ℤ × Bytes × Unix
reading (negsuc m) n w = (minus_one, [], w)
reading (pos m) n w =
    if ltb m w.next
    then (
      pos (length (take n (w.table m))),
      take n (w.table m),
      record w { table = λ i. if eqb i m then drop n (w.table m) else w.table i },
    )
    else (minus_one, [], w)

abbrev pub reading_at : ℤ → ℕ → ℤ → Unix → ℤ × Bytes × Unix
reading_at (pos m) n (pos o) w =
    if ltb m w.next
    then (pos (length (take n (drop o (w.whole m)))), take n (drop o (w.whole m)), w)
    else (minus_one, [], w)
reading_at fd n offset w = (minus_one, [], w)

abbrev pub rest_of : ℤ → Unix → Option Bytes
rest_of (negsuc m) w = none
rest_of (pos m) w = if ltb m w.next then some (w.table m) else none

abbrev pub copying : Bytes → Bytes → Unix → Bool × Unix
copying source target w =
    let (done, d) =
      copied (lookup target w.disk.files) (lookup source w.disk.files) target w.disk in
    (done, record w { disk = d })

abbrev pub unix : Kernel
unix = record {
  World = Unix;
  open_ro = λ path w. opening (lookup path w.disk.files) w;
  read = reading;
  pread = reading_at;
  lseek = λ fd offset whence w. (offset, w);
  close = λ fd w. (pos 0, w);
  mkdtemp = λ template w. (some template, w);
  copy = copying;
  registers = λ n. true;
  transfers = λ size n. leb size n;
}

pub opening-disk : (c : Option Bytes) (w : Unix) → (opening c w).1.disk ≡ w.disk
opening-disk none w = refl
opening-disk (some c) w = refl

pub reading-disk : (fd : ℤ) (n : ℕ) (w : Unix) → (reading fd n w).2.disk ≡ w.disk
reading-disk (negsuc m) n w = refl
reading-disk (pos m) n w = ground arith

pub reading_at_keeps : (fd : ℤ) (n : ℕ) (offset : ℤ) (w : Unix) → (reading_at fd n offset w).2 ≡ w
reading_at_keeps (pos m) n (pos o) w = ground arith
reading_at_keeps (pos m) n (negsuc o) w = refl
reading_at_keeps (negsuc m) n offset w = refl

abbrev pub unix_files : StaticFiles unix
unix_files = record {
  content = λ q w. lookup q w.disk.files;
  open_keeps =
      λ path w q. ap (λ (d : Disk). lookup q d.files) (opening-disk (lookup path w.disk.files) w);
  read_keeps = λ fd n w q. ap (λ (d : Disk). lookup q d.files) (reading-disk fd n w);
  pread_keeps =
      λ fd n offset w q. ap (λ (u : Unix). lookup q u.disk.files) (reading_at_keeps fd n offset w);
  lseek_keeps = λ fd offset whence w q. refl;
  close_keeps = λ fd w q. refl;
  mkdtemp_keeps = λ t w q. refl;
  copy_keeps = λ from target w. copied_keeps from target w.disk;
  copy_copies = λ from target w. copied_copies from target w.disk;
}

pub opening_new : (c : Option Bytes) (w : Unix) → rest_of (opening c w).0 w ≡ none
opening_new none w = refl
opening_new (some c) w = ground arith

pub opening_other :
    (fd : ℤ) (c : Option Bytes) (w : Unix)
    → fd ≢ (opening c w).0
    → rest_of fd (opening c w).1 ≡ rest_of fd w
opening_other fd none w other = refl
opening_other (negsuc m) (some c) w other = refl
opening_other (pos m) (some c) w other = ground arith

pub reading_own :
    (fd : ℤ) (n : ℕ) (bytes : Bytes) (w : Unix)
    → rest_of fd w ≡ some bytes
    → ((reading fd n w).0 ≡ pos (length (take n bytes)))
      × ((reading fd n w).1 ≡ take n bytes)
      × (rest_of fd (reading fd n w).2 ≡ some (drop n bytes))
reading_own (negsuc m) n bytes w h = ground arith
reading_own (pos m) n bytes w h = ground arith

pub reading_other :
    (fd g : ℤ) (n : ℕ) (w : Unix) → fd ≢ g → rest_of fd (reading g n w).2 ≡ rest_of fd w
reading_other fd (negsuc m) n w other = refl
reading_other (negsuc i) (pos m) n w other = refl
reading_other (pos i) (pos m) n w other = ground arith

pub copying_rest :
    (fd : ℤ) (from target : Bytes) (w : Unix) → rest_of fd (copying from target w).1 ≡ rest_of fd w
copying_rest (negsuc m) from target w = refl
copying_rest (pos m) from target w = refl

abbrev pub unix_open : OpenFiles unix unix_files
unix_open = record {
  rest = rest_of;
  open_new = λ path w. opening_new (lookup path w.disk.files) w;
  open_rest = λ path contents w there. rw there (ground arith);
  open_other = λ fd path w other. opening_other fd (lookup path w.disk.files) w other;
  read_own = reading_own;
  read_other = reading_other;
  pread_rest = λ fd g n offset w. ap (rest_of fd) (reading_at_keeps g n offset w);
  lseek_other = λ fd g offset whence w other. refl;
  close_other = λ fd g w other. refl;
  mkdtemp_rest = λ fd t w. refl;
  copy_rest = λ fd from target w. copying_rest fd from target w;
}

pub unix_reads :
    (c : Option Bytes) (contents : Bytes) (n : ℕ) (w : Unix)
    → c ≡ some contents
    → reading (pos w.next) n (opening c w).1 ≡ (
      pos (length (take n contents)),
      take n contents,
      (reading (pos w.next) n (opening c w).1).2,
    )
unix_reads none contents n w there = ground arith
unix_reads (some c) contents n w there = ground arith

abbrev unix_able : Readable unix unix_files
unix_able = record {
  descriptor = λ path w. w.next;
  opens = λ path contents w there. rw there refl;
  rest = λ path n w. (reading (pos w.next) n (opening (lookup path w.disk.files) w).1).2;
  reads = λ path contents n w there. unix_reads (lookup path w.disk.files) contents n w there;
  registers = λ n. refl;
  transfers = λ size n le. le→leb size n le;
}

abbrev pub unix_server : Server Unix
unix_server = record {
  world = record { disk = one_file; next = 5; table = λ m. []; whole = λ m. [] };
  fd_to_path = [];
  path_cache_map = [];
  data_queue = [];
  local_list = [];
}

-- Another client opens the same file, under the descriptor 6, reads and closes it, and the data mover
-- copies it.
abbrev pub others_first : List Event
others_first = requested (open_in data_file) ∷ requested (read_in (pos 3) (pos 6) minus_one) ∷ []

abbrev pub others_then : List Event
others_then = requested (close_in (pos 6)) ∷ woken ∷ copies (codes "/bb") ∷ []

abbrev pub unix_nodes : Nodes ℕ Unix
unix_nodes = record { local = 0; servers = λ address. unix_server; up = λ address. true }

unix_known : Knows (cluster machine unix) (client unix_nodes) data_file (codes "tcp:1")
unix_known = record { some_server = refl; posted = unfold lookup in refl; quiet = refl }

-- The third read of the program comes after its machine's own state has changed.
abbrev turns : List (Portion ℕ)
turns =
    record { events = others_first; local = 7; count = 1 }
    ∷ record { events = others_then; local = 70; count = 1 }
    ∷ record { events = []; local = 8; count = 9 }
    ∷ []

program_reads_parts_example :
    (u : Process (Nodes ℕ Unix)) × ((do
      d ← wrap_open (cluster machine unix) data_file 0 0
      read_parts machine unix (codes "tcp:1") d turns)
        (process_of (client unix_nodes))
      ≡ returns (some text) u)
program_reads_parts_example =
    program_reads_parts unix unix_files unix_able unix_open unix_server data_file text tt
      (unfold lookup in refl) machine (codes "tcp:1") (process_of (client unix_nodes)) data_file 0 0
      (pos 3) 2 unix_known refl (λ e. ground arith) refl refl refl refl refl [] refl turns
      (unfold tracked_path in refl)
      (
        (tt, ((λ e. ground arith), tt)),
        ground arith,
        (((λ e. ground arith), (tt, (tt, tt))), ground arith, (tt, ground arith, tt)),
      )
