-- ===== src/Wrappers/Unposted.antt =====
-- The wrapper of `open` for a file whose server has not posted its address.
use hvac_arc.Base.{
  ℕ, ◌≡◌, ◌≢◌, ◌||◌, ℤ, minus_one, int_ord, true, false, Option, some, if◌then◌else◌, Bytes, stops,
  arith, eqz_iff,
}
use hvac_arc.OrderedMap.{insert}
use hvac_arc.Host.{Host}
use hvac_arc.Client.{tracked_path}
use hvac_arc.Client.Unposted.{Unposted, ending, track_file-Unposted}
use hvac_arc.Wrappers.Defs.{Process}
use hvac_arc.Wrappers.Calls.{creates, wrap_open}
use hvac_arc.Wrappers.Passing.{after_clock}

-- A program, its real open found and redirection on, on a client that has servers and has started
-- Mercury, opens a tracked file which the kernel can open. If neither the client nor the file of
-- addresses knows the address of the server that the path is hashed to, or there is no such file,
-- then the call ends the program, though the file itself is there: by a fault without the file of
-- addresses, and else by a failed assertion. No server is asked.
pub wrap_open-Unposted :
    (h : Host) (p : Process h.World) (path full : Bytes) (flags mode : ℕ) (fd : ℤ) (w : h.World)
    (file : Option Bytes)
    → (p.client.disable_redirect || p.tl_disable_redirect) ≡ false
    → p.mapped.open_fn ≡ true
    → p.client.mercury_init ≡ true
    → fd ≢ minus_one
    → h.real_open path flags (if creates flags then mode else 0) (after_clock h p p.client.world)
      ≡ (fd, w)
    → tracked_path h (record p.client { world = w }) path flags ≡ some full
    → Unposted h (record p.client { world = w }) full file
    → wrap_open h path flags mode p
      ≡ stops (ending file) (record p {
        client = record p.client { world = w; fd_map = insert fd full p.client.fd_map; done = 0 };
      })
unfolding wrap_open
wrap_open-Unposted h p path full flags mode fd w file on mapped started good opens decided u =
    ground (
      arith,
      eqz_iff fd minus_one,
      track_file-Unposted h (record p.client { world = w }) full file path flags fd u decided
          started,
    )
