-- ===== src/Wrappers/Stranded.antt =====
-- The wrappers of wrappers.c where the request to the server fails.
use hvac_arc.Base.{
  ℕ, ◌≡◌, ◌≢◌, ◌||◌, ℤ, pos, minus_one, int_ord, int32, true, false, some, [], if◌then◌else◌, Bytes,
  stops, aborts, arith, eqz_iff,
}
use hvac_arc.OrderedMap.{insert}
use hvac_arc.Host.{Host, open_in, read_in, failed}
use hvac_arc.Client.{Client, tracked_path, get_path}
use hvac_arc.Client.Redirect.{Knows, IsTracked}
use hvac_arc.Client.Failed.{remote_read_failed, remote_pread_failed, track_file_failed}
use hvac_arc.Wrappers.Defs.{Process}
use hvac_arc.Wrappers.Calls.{creates, wrap_open, wrap_read, wrap_pread}
use hvac_arc.Wrappers.Passing.{after_clock}

-- A wrapper on a process whose client knows the path's server.
module _ (h : Host) (p : Process h.World) (fd : ℤ) (full address : Bytes)
    (k : Knows h p.client full address) where
  abbrev clocked : Client h.World
  clocked = record p.client { world = after_clock h p p.client.world }

  knows : Knows h clocked full address
  knows = record { some_server = k.some_server; posted = k.posted; quiet = k.quiet }

  -- The process whose request found no server.
  abbrev pub stranded : h.World → Process h.World
  stranded w = record p {
    client = record p.client { world = w; done = 0; read_ret = minus_one; pending = [] };
  }

  module _ (remote : ℤ) (t : IsTracked h p.client fd full remote) (n : ℕ) (old : Bytes)
      (buf : p.client.buffer ≡ some old) (w : h.World) where
    tracks : IsTracked h clocked fd full remote
    tracks = record { local = t.local; redirected = t.redirected }

    pub wrap_read-stranded :
        p.mapped.read_fn ≡ true
        → h.deliver address
            (read_in (int32 (pos n)) remote minus_one)
            (after_clock h p p.client.world)
          ≡ (failed, w)
        → wrap_read h fd n p ≡ stops aborts (stranded w)
    unfolding wrap_read
    wrap_read-stranded mapped fails = ground (
      arith,
      remote_read_failed h clocked fd full address knows remote (pos n) old w tracks buf fails,
    )

    pub wrap_pread-stranded :
        (offset : ℤ)
        → p.mapped.pread_fn ≡ true
        → remote ≢ pos 0
        → h.deliver address (read_in (int32 (pos n)) remote offset) (after_clock h p p.client.world)
          ≡ (failed, w)
        → wrap_pread h fd n offset p
          ≡ stops aborts (record (stranded w) { tl_disable_redirect = false })
    unfolding wrap_pread get_path
    wrap_pread-stranded offset mapped other fails = ground (
      arith,
      t,
      remote_pread_failed h clocked fd full address knows remote (pos n) offset old w tracks other
          buf fails,
    )

  pub wrap_open-stranded :
      (path : Bytes) (flags mode : ℕ) (w w' : h.World)
      → (p.client.disable_redirect || p.tl_disable_redirect) ≡ false
      → p.mapped.open_fn ≡ true
      → p.client.mercury_init ≡ true
      → fd ≢ minus_one
      → h.real_open path flags (if creates flags then mode else 0) (after_clock h p p.client.world)
        ≡ (fd, w)
      → tracked_path h (record p.client { world = w }) path flags ≡ some full
      → h.deliver address (open_in full) w ≡ (failed, w')
      → wrap_open h path flags mode p
        ≡ stops aborts (record p {
          client = record p.client {
            world = w';
            fd_map = insert fd full p.client.fd_map;
            done = 0;
            pending = [];
          };
        })
  unfolding wrap_open
  wrap_open-stranded path flags mode w w' on mapped started good opens decided fails = ground (
    arith,
    eqz_iff fd minus_one,
    track_file_failed h (record p.client { world = w }) fd full address
        (record { some_server = k.some_server; posted = k.posted; quiet = k.quiet }) path flags w'
        decided started fails,
  )
