-- ===== src/Client/Files.antt =====
-- hvac_client.cpp: which files are tracked, and the remote calls on them.
use hvac_arc.Base.{
  ℕ, ◌%◌, ◌/◌, ℤ, pos, minus_one, int_ord, int32, eqz, Bool, true, false, not, Option, none, some,
  [], ◌∷◌, if◌then◌else◌, eqb, Bytes, bytes_ord, eq_bytes, contains, codes, returns, stops, exits,
  faults, pure, gets, modify, ◌>>=◌, ◌>>◌,
}
use hvac_arc.OrderedMap.{lookup, member, insert, erase}
use hvac_arc.Host.{Host}
use hvac_arc.Client.Defs.{Client, client_block, read_block, path_at, redir_at}
use hvac_arc.Client.Rpc.{Call, gen_open_rpc, gen_read_rpc, gen_seek_rpc, gen_close_rpc}

-- `std::filesystem::path::parent_path` of an absolute path: up to the last slash, which only the
-- root keeps.
abbrev pub drop_component : Bytes → Bytes
drop_component [] = []
drop_component (c ∷ s) = if eqb c b'/' then s else drop_component s

abbrev pub or_root : Bytes → Bytes
or_root [] = b'/' ∷ []
or_root (c ∷ s) = c ∷ s

abbrev pub rev : Bytes → Bytes → Bytes
rev done [] = done
rev done (c ∷ s) = rev (c ∷ done) s

unfoldable pub parent_path : Bytes → Bytes
parent_path path = or_root (rev [] (drop_component (rev [] path)))

-- `(flags & O_ACCMODE) == O_WRONLY` and `flags & O_APPEND`, with the values of Linux.
abbrev pub write_only : ℕ → Bool
write_only flags = eqb (flags % 4) 1

abbrev pub appends : ℕ → Bool
appends flags = eqb (flags / 0x400 % 2) 1

module _ (h : Host) where
  open h use {World, canonical, current_path, hash, slurm_procid}

  -- The directory test of `hvac_track_file`, on the canonical path; an exception counts as no.
  unfoldable pub in_data_dir : Client World → Bytes → Bool
  unfolding parent_path
  in_data_dir c path = elim c.data_dir [
    | some dir ↦ elim (canonical dir c.world) [
      | none ↦ false
      | some test ↦ contains (parent_path path) test
    ]
    | none ↦ eq_bytes (parent_path path) (current_path c.world)
  ]

  -- What `hvac_track_file` decides: the canonical path to remember, if the file is tracked.
  unfoldable pub tracked_path : Client World → Bytes → ℕ → Option Bytes
  unfolding in_data_dir
  tracked_path c path flags =
      if contains path (codes ".ports.cfg.")
      then none
      else if write_only flags
      then none
      else if appends flags
      then none
      else elim (canonical path c.world) [
        | none ↦ none
        | some full ↦ if in_data_dir c full then some full else none
      ]

  -- `std::hash<std::string>{}(path) % g_hvac_server_count`, stored in an `int`.
  unfoldable pub host_of : Bytes → Call h ℤ
  host_of path c =
      if eqb c.server_count 0
      then stops faults c
      else returns (int32 (pos (hash path % c.server_count))) c

  -- `if (!g_mercury_init)`: `hvac_init_comm` ends the process without a SLURM rank.
  unfoldable pub start_mercury : Call h (Unit {0})
  start_mercury c = if c.mercury_init then returns tt c else elim slurm_procid [
    | none ↦ stops (exits (pos 1)) c
    | some rank ↦ returns tt (record c { mercury_init = true })
  ]

  -- `hvac_gen_open_rpc` and the wait for its answer.
  unfoldable pub ask_open : ℤ → Call h (Unit {0})
  unfolding path_at host_of gen_open_rpc client_block
  ask_open fd = do path ← path_at fd; host ← host_of path; gen_open_rpc h host path fd; client_block

  -- The remote open of a tracked file. Mercury is started with the first.
  unfoldable pub open_remote : ℤ → Call h (Unit {0})
  unfolding start_mercury ask_open
  open_remote fd = do start_mercury; ask_open fd

  unfoldable pub track_file : Bytes → ℕ → ℤ → Call h Bool
  unfolding tracked_path open_remote
  track_file path flags fd c = elim (tracked_path c path flags) [
    | none ↦ returns false c
    | some full ↦ (do open_remote fd; pure true) (record c { fd_map = insert fd full c.fd_map })
  ]

  unfoldable pub file_tracked : ℤ → Call h Bool
  file_tracked fd = gets (λ c. member fd c.fd_map)

  unfoldable pub get_path : ℤ → Call h (Option Bytes)
  get_path fd = gets (λ c. lookup fd c.fd_map)

  -- `hvac_remote_read`, once the file is known to be tracked.
  unfoldable pub ask_read : ℤ → ℤ → ℤ → Call h ℤ
  unfolding path_at host_of gen_read_rpc read_block
  ask_read fd count offset = do
    path ← path_at fd
    host ← host_of path
    gen_read_rpc h host fd count offset
    read_block

  unfoldable pub remote_read : ℤ → ℤ → Call h ℤ
  unfolding file_tracked ask_read
  remote_read fd count = do
    tracked ← file_tracked fd
    if tracked then ask_read fd count minus_one else pure minus_one

  -- `hvac_file_tracked(fd) && fd_redir_map[fd] != 0`.
  unfoldable pub has_remote : ℤ → Call h Bool
  unfolding file_tracked redir_at
  has_remote fd = do
    tracked ← file_tracked fd
    if tracked then (do remote ← redir_at fd; pure (not (eqz remote (pos 0)))) else pure false

  unfoldable pub remote_pread : ℤ → ℤ → ℤ → Call h ℤ
  unfolding has_remote ask_read
  remote_pread fd count offset = do
    known ← has_remote fd
    if known then ask_read fd count offset else pure minus_one

  unfoldable pub ask_seek : ℤ → ℤ → ℤ → Call h ℤ
  unfolding path_at host_of gen_seek_rpc read_block
  ask_seek fd offset whence = do
    path ← path_at fd
    host ← host_of path
    gen_seek_rpc h host fd offset whence
    read_block

  unfoldable pub remote_lseek : ℤ → ℤ → ℤ → Call h ℤ
  unfolding file_tracked ask_seek
  remote_lseek fd offset whence = do
    tracked ← file_tracked fd
    if tracked then ask_seek fd offset whence else pure minus_one

  unfoldable pub ask_close : ℤ → Call h (Unit {0})
  unfolding path_at host_of gen_close_rpc
  ask_close fd = do path ← path_at fd; host ← host_of path; gen_close_rpc h host fd

  unfoldable pub remote_close : ℤ → Call h (Unit {0})
  unfolding file_tracked ask_close
  remote_close fd = do tracked ← file_tracked fd; if tracked then ask_close fd else pure tt

  -- `fd_map.erase(fd)` returns the number of entries that it erased.
  unfoldable pub remove_fd : ℤ → Call h Bool
  unfolding remote_close
  remove_fd fd = do
    remote_close fd
    tracked ← gets (λ c. member fd c.fd_map)
    modify (λ c. record c { fd_map = erase fd c.fd_map })
    pure tracked
