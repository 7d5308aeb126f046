-- ===== src/Wrappers/Opening.antt =====
-- The wrapper of `open` with redirection on.
use hvac_arc.Base.{
  ℕ, ◌≡◌, ◌≢◌, ℤ, minus_one, int_ord, eqz_iff, true, false, ◌||◌, none, some, [], if◌then◌else◌,
  Bytes, contains, returns, arith,
}
use hvac_arc.OrderedMap.{insert}
use hvac_arc.Host.{Host, open_in, replied}
use hvac_arc.Client.{Client, tracked_path, track_file}
use hvac_arc.Client.Redirect.{Knows, track_file_lem}
use hvac_arc.Wrappers.Defs.{Process, note_call}
use hvac_arc.Wrappers.Calls.{creates, data_set, wrap_open}
use hvac_arc.Wrappers.Passing.{after_clock}

module _ (h : Host) (p : Process h.World)
    (on : (p.client.disable_redirect || p.tl_disable_redirect) ≡ false) (path : Bytes)
    (flags mode : ℕ) (fd : ℤ) (w : h.World) (good : fd ≢ minus_one)
    (mapped : p.mapped.open_fn ≡ true)
    (opens : h.real_open path flags
        (if creates flags then mode else 0)
        (after_clock h p p.client.world)
      ≡ (fd, w)) where
  -- The client once the local file is open.
  abbrev pub local_open : Client h.World
  local_open = record p.client { world = w }

  -- With redirection on, the real `open` found and Mercury started, a file that the kernel opens,
  -- that is tracked, and whose server is known and answers, is opened at that server as well: the
  -- caller gets the kernel's descriptor, the two tables map it to the path and to the server's
  -- descriptor, and the open is counted as one of a tracked file.
  pub wrap_open_tracked :
      (full address : Bytes) (remote : ℤ) (bytes : Bytes) (w' : h.World)
      → Knows h p.client full address
      → tracked_path h local_open path flags ≡ some full
      → p.client.mercury_init ≡ true
      → h.deliver address (open_in full) w ≡ (replied remote bytes, w')
      → wrap_open h path flags mode p
        ≡ returns fd (record p {
          client = record p.client {
            world = after_clock h p w';
            fd_map = insert fd full p.client.fd_map;
            fd_redir_map = insert fd remote p.client.fd_redir_map;
            done = 1;
            pending = [];
          };
          open_stats = note_call (h.clock p.client.world).0 (h.clock w').0 p.open_stats;
        })
  unfolding wrap_open
  wrap_open_tracked full address remote bytes w' k decided started answered = ground (
    arith,
    eqz_iff fd minus_one,
    track_file_lem h local_open fd full address
        (record { some_server = k.some_server; posted = k.posted; quiet = k.quiet }) path flags
        remote bytes w' decided started answered,
  )

  -- A file that the kernel opens and that is not tracked is not opened at any server, and counts
  -- with the data set's files if its path holds the data set's directory, and with the others if
  -- not.
  pub wrap_open_untracked :
      tracked_path h local_open path flags ≡ none
      → let stats = note_call (h.clock p.client.world).0 (h.clock w).0 in
        let client = record p.client { world = after_clock h p w } in
        wrap_open h path flags mode p
        ≡ returns fd (
            if contains path data_set
            then record p { client = client; open_data_stats = stats p.open_data_stats }
            else record p { client = client; open_system_stats = stats p.open_system_stats })
  unfolding wrap_open track_file
  wrap_open_untracked free = ground (arith, eqz_iff fd minus_one)
