-- ===== src/Wrappers/Calls.antt =====
-- The four wrappers that are compiled: open, close, read and pread.
use hvac_arc.Base.{
  ℕ, ◌%◌, ◌/◌, ℤ, pos, minus_one, int_ord, int32, eqz, Bool, true, false, not, ◌||◌, Option, none,
  some, if◌then◌else◌, eqb, Bytes, codes, contains, Prog, pure, gets, modify, returns, stops, exits,
  ◌>>=◌, ◌>>◌,
}
use hvac_arc.Host.{Host, Timespec}
use hvac_arc.Client.{Client, track_file, get_path, remove_fd, remote_read, remote_pread}
use hvac_arc.Wrappers.Defs.{
  Symbol, open_symbol, close_symbol, read_symbol, pread_symbol, name_of, is_mapped, set_mapped,
  Process, note_call, on_client,
}

-- `flags & O_CREAT`.
abbrev pub creates : ℕ → Bool
creates flags = eqb (flags / 0x40 % 2) 1

abbrev pub data_set : Bytes
data_set = codes "/mnt/beegfs/ghu4/hvac/cosmoUniverse_2019_05_4parE_tf_v2_mini/"

abbrev pub with_bytes : {W : Type 0} → Bytes → W → Client W → Client W
with_bytes bytes w c = record c { world = w; buffer = some bytes }

module _ (h : Host) where
  open h use {World, resolves, real_open, real_close, real_read, real_pread, clock}

  abbrev pub Wrapper : Type 0 → Type 0
  Wrapper A = Prog (Process World) A

  unfoldable pub now : Wrapper Timespec
  now = on_client λ c. let (t, w) = clock c.world in returns t (record c { world = w })

  -- `MAP_OR_FAIL`, in the preloaded library.
  unfoldable pub map_or_fail : Symbol → Wrapper (Unit {0})
  map_or_fail symbol p =
      if is_mapped symbol p.mapped
      then returns tt p
      else if resolves (name_of symbol)
      then returns tt (record p { mapped = set_mapped symbol p.mapped })
      else stops (exits (pos 1)) p

  -- `g_disable_redirect || tl_disable_redirect`.
  unfoldable pub disabled : Wrapper Bool
  disabled = gets (λ p. p.client.disable_redirect || p.tl_disable_redirect)

  -- `log_preformatter_internal`: the thread's flag is set for the time of the message, and cleared.
  unfoldable pub log : Wrapper (Unit {0})
  log = modify (λ p. record p { tl_disable_redirect = false })

  unfoldable pub call_open : Bytes → ℕ → ℕ → Wrapper ℤ
  call_open path flags mode =
      on_client
        λ c. let (fd, w) = real_open path flags mode c.world in returns fd (record c { world = w })

  unfoldable pub call_close : ℤ → Wrapper ℤ
  call_close fd =
      on_client λ c. let (ret, w) = real_close fd c.world in returns ret (record c { world = w })

  unfoldable pub call_read : ℤ → ℕ → Wrapper ℤ
  call_read fd count =
      on_client
        λ c. let (ret, bytes, w) = real_read fd count c.world in returns ret (with_bytes bytes w c)

  unfoldable pub call_pread : ℤ → ℕ → ℤ → Wrapper ℤ
  call_pread fd count offset = on_client λ c.
      let (ret, bytes, w) = real_pread fd count offset c.world in returns ret (with_bytes bytes w c)

  -- Which statistics an open counts in.
  unfoldable pub note_open : Bool → Bytes → Timespec → Timespec → Wrapper (Unit {0})
  note_open true path start later =
      modify (λ p. record p { open_stats = note_call start later p.open_stats })
  note_open false path start later =
      if contains path data_set
      then modify (λ p. record p { open_data_stats = note_call start later p.open_data_stats })
      else modify (λ p. record p { open_system_stats = note_call start later p.open_system_stats })

  -- `open` after the local open gave a descriptor.
  unfoldable pub opened_file : Bytes → ℕ → Timespec → ℤ → Wrapper ℤ
  unfolding now note_open
  opened_file path flags start fd = do
    tracked ← on_client (track_file h path flags fd)
    later ← now
    note_open tracked path start later
    pure fd

  unfoldable pub redirect_open : Bytes → ℕ → ℕ → Timespec → Wrapper ℤ
  unfolding call_open opened_file
  redirect_open path flags mode start = do
    fd ← call_open path flags mode
    if eqz fd minus_one then pure fd else opened_file path flags start fd

  -- The mode counts only with O_CREAT.
  unfoldable pub wrap_open : Bytes → ℕ → ℕ → Wrapper ℤ
  unfolding map_or_fail now disabled call_open redirect_open
  wrap_open path flags given = do
    start ← now
    let mode = if creates flags then given else 0
    map_or_fail open_symbol
    direct ← disabled
    if direct then call_open path flags mode else redirect_open path flags mode start

  -- `if (path) hvac_remove_fd(fd)`, with its message.
  unfoldable pub forget_remote : ℤ → Option Bytes → Wrapper (Unit {0})
  unfolding log
  forget_remote fd none = pure tt
  forget_remote fd (some path) = do log; _ ← on_client (remove_fd h fd); pure tt

  unfoldable pub finish_close : ℤ → Timespec → Wrapper ℤ
  unfolding call_close now log
  finish_close fd start = do
    ret ← call_close fd
    if not (eqz ret (pos 0)) then (do log; pure ret) else (do
      later ← now
      modify (λ p. record p { close_stats = note_call start later p.close_stats })
      pure ret)

  unfoldable pub wrap_close : ℤ → Wrapper ℤ
  unfolding map_or_fail now disabled call_close forget_remote finish_close
  wrap_close fd = do
    start ← now
    map_or_fail close_symbol
    direct ← disabled
    if direct
        then call_close fd
        else (do path ← on_client (get_path h fd); forget_remote fd path; finish_close fd start)

  -- `ret` is an `int`, for the remote and for the local result.
  unfoldable pub read_or_fall_back : ℤ → ℕ → Wrapper ℤ
  unfolding call_read
  read_or_fall_back fd count = do
    remote ← on_client (remote_read h fd (pos count))
    if eqz (int32 remote) minus_one
        then (do ret ← call_read fd count; pure (int32 ret))
        else pure (int32 remote)

  unfoldable pub wrap_read : ℤ → ℕ → Wrapper ℤ
  unfolding map_or_fail now read_or_fall_back
  wrap_read fd count = do
    start ← now
    map_or_fail read_symbol
    ret ← read_or_fall_back fd count
    later ← now
    modify (λ p. record p { read_stats = note_call start later p.read_stats })
    pure ret

  -- A tracked file, whose path is known.
  unfoldable pub pread_tracked : ℤ → ℕ → ℤ → Wrapper ℤ
  unfolding log call_pread
  pread_tracked fd count offset = do
    log
    remote ← on_client (remote_pread h fd (pos count) offset)
    if eqz remote minus_one
        then (do ret ← call_pread fd count offset; log; pure ret)
        else pure remote

  unfoldable pub choose_pread : Option Bytes → ℤ → ℕ → ℤ → Wrapper ℤ
  unfolding pread_tracked call_pread
  choose_pread none fd count offset = call_pread fd count offset
  choose_pread (some path) fd count offset = pread_tracked fd count offset

  unfoldable pub wrap_pread : ℤ → ℕ → ℤ → Wrapper ℤ
  unfolding map_or_fail now choose_pread
  wrap_pread fd count offset = do
    start ← now
    map_or_fail pread_symbol
    path ← on_client (get_path h fd)
    ret ← choose_pread path fd count offset
    later ← now
    modify (λ p. record p { pread_stats = note_call start later p.pread_stats })
    pure ret
