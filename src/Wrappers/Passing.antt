-- ===== src/Wrappers/Passing.antt =====
-- What the wrappers pass to the kernel, and what they hand to the servers.
use hvac_arc.Base.{
  ℕ, ◌≡◌, ℤ, int_ord, int32, true, ◌||◌, none, some, if◌then◌else◌, Bytes, returns, arith,
}
use hvac_arc.OrderedMap.{lookup}
use hvac_arc.Host.{Host}
use hvac_arc.Client.{remote_read, file_tracked}
use hvac_arc.Wrappers.Defs.{Process, note_call}
use hvac_arc.Wrappers.Calls.{wrap_open, wrap_close, wrap_read, creates}

module _ (h : Host) (p : Process h.World) where
  -- The world after the clock was read.
  abbrev pub after_clock : h.World → h.World
  after_clock w = (h.clock w).1

  abbrev pub in_world : h.World → Process h.World → Process h.World
  in_world w q = record q { client = record q.client { world = w } }

  -- With redirection off, for the process or the thread, open and close are the kernel's.
  pub redirection_off :
      (path : Bytes) (flags mode : ℕ) (fd : ℤ)
      → (p.client.disable_redirect || p.tl_disable_redirect) ≡ true
      → p.mapped.open_fn ≡ true
      → p.mapped.close_fn ≡ true
      → let w = after_clock p.client.world in
        let m = if creates flags then mode else 0 in
        (wrap_open h path flags mode p
          ≡ returns (h.real_open path flags m w).0 (in_world (h.real_open path flags m w).1 p))
        × (wrap_close h fd p ≡ returns (h.real_close fd w).0 (in_world (h.real_close fd w).1 p))
  unfolding wrap_open wrap_close
  redirection_off path flags mode fd off mo mc = (ground arith, ground arith)

  -- A read of a descriptor that is not tracked is the kernel's, its result as an `int`, and it is
  -- counted; no server is asked.
  pub wrap_read_untracked :
      (fd : ℤ) (count : ℕ) (n : ℤ) (bytes : Bytes) (w : h.World)
      → p.mapped.read_fn ≡ true
      → lookup fd p.client.fd_map ≡ none
      → h.real_read fd count (after_clock p.client.world) ≡ (n, bytes, w)
      → wrap_read h fd count p
        ≡ returns (int32 n) (record p {
          client = record p.client { world = after_clock w; buffer = some bytes };
          read_stats = note_call (h.clock p.client.world).0 (h.clock w).0 p.read_stats;
        })
  unfolding wrap_read remote_read file_tracked
  wrap_read_untracked fd count n bytes w mr e r = ground arith
