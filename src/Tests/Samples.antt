-- ===== src/Tests/Samples.antt =====
-- A disk, a server on it, a machine and a client.
use hvac_arc.Base.{
  ℕ, ◌+◌, ◌≡◌, ◌≢◌, refl, sym, ℤ, pos, minus_one, int_ord, eqz, Bool, true, false, Option, none,
  some, [], ◌∷◌, if◌then◌else◌, leb, le→leb, Bytes, bytes_ord, codes, length, take, drop, negsuc,
  arith, Option-cases, inl, inr, ap, subst,
}
use hvac_arc.OrderedMap.{Map, lookup, insert, lookup-insert_self, lookup-insert_ne}
use hvac_arc.Host.{Host, Request, open_in, read_in, seek_in, close_in, Delivery, replied, silent}
use hvac_arc.Server.{Kernel, Server}
use hvac_arc.Server.Cache.{StaticFiles}
use hvac_arc.Wrappers.{Process, all_mapped, no_stats}
use hvac_arc.Client.{Client}
use hvac_arc.Cluster.Reading.{Readable}
use hvac_arc.Cluster.Positioned.{Positioned}

-- The files of a disk, and the one that was opened last, always as the descriptor 5.
pub record Disk : Type 0 where
  pub files : Map Bytes Bytes
  pub current : Bytes

abbrev pub first_bytes : Option Bytes → ℕ → Disk → ℤ × Bytes × Disk
first_bytes none n w = (minus_one, [], w)
first_bytes (some contents) n w = (pos (length (take n contents)), take n contents, w)

abbrev pub bytes_at : Option Bytes → ℕ → ℤ → Disk → ℤ × Bytes × Disk
bytes_at none n offset w = (minus_one, [], w)
bytes_at (some contents) n (pos o) w =
    (pos (length (take n (drop o contents))), take n (drop o contents), w)
bytes_at (some contents) n (negsuc o) w = (minus_one, [], w)

abbrev pub descriptor_of : Option Bytes → ℤ
descriptor_of none = minus_one
descriptor_of (some contents) = pos 5

abbrev pub copied : Option Bytes → Option Bytes → Bytes → Disk → Bool × Disk
copied (some old) source target w = (false, w)
copied none none target w = (false, w)
copied none (some contents) target w = (true, record w { files = insert target contents w.files })

abbrev pub disk : Kernel
disk = record {
  World = Disk;
  open_ro = λ path w. (descriptor_of (lookup path w.files), record w { current = path });
  read = λ fd n w. first_bytes (lookup w.current w.files) n w;
  pread = λ fd n offset w. bytes_at (lookup w.current w.files) n offset w;
  lseek = λ fd offset whence w. (offset, w);
  close = λ fd w. (if eqz fd minus_one then minus_one else pos 0, w);
  mkdtemp = λ template w. (some template, w);
  copy = λ source target w. copied (lookup target w.files) (lookup source w.files) target w;
  registers = λ n. true;
  transfers = λ size n. leb size n;
}

pub first_bytes_keeps : (o : Option Bytes) (n : ℕ) (w : Disk) → (first_bytes o n w).2 ≡ w
first_bytes_keeps none n w = refl
first_bytes_keeps (some contents) n w = refl

pub bytes_at_keeps :
    (o : Option Bytes) (n : ℕ) (offset : ℤ) (w : Disk) → (bytes_at o n offset w).2 ≡ w
bytes_at_keeps none n offset w = refl
bytes_at_keeps (some contents) n (pos o) w = refl
bytes_at_keeps (some contents) n (negsuc o) w = refl

pub copied_keeps :
    (from target : Bytes) (w : Disk) (q : Bytes)
    → lookup q w.files ≢ none
    → lookup q (disk.copy from target w).1.files ≡ lookup q w.files
copied_keeps from target w q there = elim (Option-cases (lookup target w.files)) [
  | inr (old, e) ↦ rw e refl
  | inl free ↦ elim (Option-cases (lookup from w.files)) [
    | inl e ↦ rw (free, e) refl
    | inr (contents, e) ↦
        rw (free, e)
          (lookup-insert_ne q target contents w.files
            (λ same. there (subst (λ r. lookup r w.files ≡ none) (sym same) free)))
  ]
]

pub copied_copies :
    (from target : Bytes) (w : Disk)
    → (disk.copy from target w).0 ≡ true
    → (lookup target (disk.copy from target w).1.files ≡ lookup from w.files)
      × (lookup from w.files ≢ none)
copied_copies from target w done = elim (Option-cases (lookup target w.files)) [
  | inr (old, e) ↦ absurd (ground arith)
  | inl free ↦ elim (Option-cases (lookup from w.files)) [
    | inl e ↦ absurd (ground arith)
    | inr (contents, e) ↦
        (rw (free, e) (lookup-insert_self target contents w.files), λ missing. ground arith)
  ]
]

abbrev pub disk_files : StaticFiles disk
disk_files = record {
  content = λ q w. lookup q w.files;
  open_keeps = λ path w q. refl;
  read_keeps =
      λ fd n w q. ap (λ v. lookup q v.files) (first_bytes_keeps (lookup w.current w.files) n w);
  pread_keeps = λ fd n offset w q.
      ap (λ v. lookup q v.files) (bytes_at_keeps (lookup w.current w.files) n offset w);
  lseek_keeps = λ fd offset whence w q. refl;
  close_keeps = λ fd w q. refl;
  mkdtemp_keeps = λ t w q. refl;
  copy_keeps = copied_keeps;
  copy_copies = copied_copies;
}

abbrev pub disk_able : Readable disk disk_files
disk_able = record {
  descriptor = λ path w. 5;
  opens = λ path contents w there. ap descriptor_of there;
  rest = λ path n w. record w { current = path };
  reads = λ path contents n w there. ap (λ o. first_bytes o n (record w { current = path })) there;
  registers = λ n. refl;
  transfers = λ size n le. le→leb size n le;
}

-- The disk reads at an offset.
abbrev pub disk_at_offset : Positioned disk disk_files disk_able
disk_at_offset = record {
  positive = λ path w. omega arith;
  rest_at = λ path n o w. record w { current = path };
  preads = λ path contents n o w there.
      ap (λ c. bytes_at c n (pos o) (record w { current = path })) there;
}

abbrev pub data_file : Bytes
data_file = codes "/d/f"

abbrev pub text : Bytes
text = codes "abc"

abbrev pub one_file : Disk
one_file = record { files = (data_file, text) ∷ []; current = [] }

abbrev pub fresh_server : Server Disk
fresh_server = record {
  world = one_file;
  fd_to_path = [];
  path_cache_map = [];
  data_queue = [];
  local_list = [];
}

abbrev pub ports : Bytes
ports = codes "0 tcp:1\n"

abbrev pub answer_to : Request → Delivery
answer_to (open_in path) = replied (pos 7) []
answer_to (read_in n fd offset) = replied (pos 3) text
answer_to (seek_in fd offset whence) = replied offset []
answer_to (close_in fd) = silent

-- The world counts what was asked of it.
abbrev pub machine : Host
machine = record {
  World = ℕ;
  deliver = λ address request w. (answer_to request, w + 1);
  canonical = λ path w. some path;
  current_path = λ w. codes "/d";
  config_file = λ w. some ports;
  hash = length;
  slurm_procid = none;
  resolves = λ name. true;
  real_open = λ path flags mode w. (pos 3, w + 1);
  real_close = λ fd w. (pos 0, w + 1);
  real_read = λ fd n w. (pos 3, text, w + 1);
  real_pread = λ fd n offset w. (pos 3, text, w + 1);
  clock = λ w. (record { sec = w; nsec = 0 }, w + 1);
}

abbrev pub client : {W : Type 0} → W → Client W
client w = record {
  world = w;
  fd_map = [];
  fd_redir_map = [];
  address_cache = (pos 0, codes "tcp:1") ∷ [];
  server_count = 1;
  data_dir = some (codes "/d");
  mercury_init = true;
  disable_redirect = false;
  initialized = true;
  done = 0;
  read_ret = minus_one;
  buffer = some [];
  pending = [];
}

-- With the data file open as 3, and as 7 at the server.
abbrev pub reader : Client ℕ
reader = record (client 0) { fd_map = (pos 3, data_file) ∷ []; fd_redir_map = (pos 3, pos 7) ∷ [] }

-- A program that has called each wrapper before.
abbrev pub process_of : {W : Type 0} → Client W → Process W
process_of c = record {
  client = c;
  tl_disable_redirect = false;
  mapped = all_mapped;
  open_stats = no_stats;
  open_data_stats = no_stats;
  open_system_stats = no_stats;
  close_stats = no_stats;
  read_stats = no_stats;
  pread_stats = no_stats;
}
