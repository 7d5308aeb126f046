-- ===== src/Wrappers/Tracked.antt =====
-- The wrappers on a tracked descriptor: what the servers are asked, and when the kernel is.
use hvac_arc.Base.{
  ℕ, ◌≡◌, ◌≢◌, ℤ, pos, minus_one, int_ord, int32, eqz_iff, true, false, ◌||◌, some, [], Bytes,
  returns, arith,
}
use hvac_arc.OrderedMap.{erase}
use hvac_arc.Host.{Host, read_in, close_in, replied}
use hvac_arc.Client.{Client, get_path, remove_fd, remote_read}
use hvac_arc.Client.Redirect.{
  Knows, IsTracked, ask_read_lem, remove_fd_lem, remote_pread_lem, remote_read-tracked,
}
use hvac_arc.Wrappers.Defs.{Process, note_call}
use hvac_arc.Wrappers.Calls.{wrap_pread, wrap_close, wrap_read}
use hvac_arc.Wrappers.Passing.{after_clock}

module _ (h : Host) (p : Process h.World) (fd : ℤ) (full address : Bytes)
    (k : Knows h p.client full address) (remote : ℤ) (t : IsTracked h p.client fd full remote) where
  -- The client once the wrapper has read the clock.
  abbrev clocked : Client h.World
  clocked = record p.client { world = after_clock h p p.client.world }

  knows : Knows h clocked full address
  knows = record { some_server = k.some_server; posted = k.posted; quiet = k.quiet }

  tracks : IsTracked h clocked fd full remote
  tracks = record { local = t.local; redirected = t.redirected }

  abbrev pub answered : ℤ → Bytes → h.World → Client h.World
  answered n bytes w = record p.client {
    world = w;
    done = 1;
    read_ret = n;
    buffer = some bytes;
    pending = [];
  }

  asked :
      (count : ℕ) (n : ℤ) (old bytes : Bytes) (w : h.World)
      → p.client.buffer ≡ some old
      → h.deliver address (read_in (int32 (pos count)) remote minus_one) clocked.world
        ≡ (replied n bytes, w)
      → remote_read h fd (pos count) clocked ≡ returns n (answered n bytes w)
  asked count n old bytes w buf answer = ground (
    arith,
    remote_read-tracked h clocked fd (pos count) tracks,
    ask_read_lem h clocked fd full address knows remote (pos count) minus_one n old bytes w tracks
        buf answer,
  )

  -- Once the real `read` is found, a read of a tracked descriptor whose server is known and
  -- answers: unless the answer is -1 as an `int`, the caller gets it as an `int`, with the server's
  -- bytes in the buffer; the kernel is not asked, and the read is counted.
  pub wrap_read_tracked :
      (count : ℕ) (n : ℤ) (old bytes : Bytes) (w : h.World)
      → p.mapped.read_fn ≡ true
      → p.client.buffer ≡ some old
      → h.deliver address
          (read_in (int32 (pos count)) remote minus_one)
          (after_clock h p p.client.world)
        ≡ (replied n bytes, w)
      → int32 n ≢ minus_one
      → wrap_read h fd count p
        ≡ returns (int32 n) (record p {
          client = answered n bytes (after_clock h p w);
          read_stats = note_call (h.clock p.client.world).0 (h.clock w).0 p.read_stats;
        })
  unfolding wrap_read
  wrap_read_tracked count n old bytes w mapped buf answer good =
      ground (arith, asked count n old bytes w buf answer, eqz_iff (int32 n) minus_one)

  -- For a server that answers a read with -1, which the handler of hvac_comm.cpp never does: it fails
  -- an assertion where its own read fails. Once the real `read` is found: if the answer of the server
  -- of a tracked descriptor is -1 as an `int`, the wrapper reads with the kernel after it: the caller gets the kernel's result as an
  -- `int`, and its bytes, and the read is counted.
  pub wrap_read_falls_back :
      (count : ℕ) (n m : ℤ) (old bytes own : Bytes) (w w' : h.World)
      → p.mapped.read_fn ≡ true
      → p.client.buffer ≡ some old
      → h.deliver address
          (read_in (int32 (pos count)) remote minus_one)
          (after_clock h p p.client.world)
        ≡ (replied n bytes, w)
      → int32 n ≡ minus_one
      → h.real_read fd count w ≡ (m, own, w')
      → wrap_read h fd count p
        ≡ returns (int32 m) (record p {
          client = record (answered n bytes (after_clock h p w')) { buffer = some own };
          read_stats = note_call (h.clock p.client.world).0 (h.clock w').0 p.read_stats;
        })
  unfolding wrap_read
  wrap_read_falls_back count n m old bytes own w w' mapped buf answer bad reads =
      ground (arith, asked count n old bytes w buf answer)

  -- Once the real `pread` is found, a `pread` of a tracked descriptor whose server is known and
  -- answers, and whose server descriptor is not 0: unless the answer is -1, the caller gets it,
  -- with the server's bytes in the buffer; the kernel is not asked, the thread's flag is cleared by
  -- the message, and the call is counted.
  pub wrap_pread_tracked :
      (count : ℕ) (offset n : ℤ) (old bytes : Bytes) (w : h.World)
      → p.mapped.pread_fn ≡ true
      → remote ≢ pos 0
      → p.client.buffer ≡ some old
      → h.deliver address
          (read_in (int32 (pos count)) remote offset)
          (after_clock h p p.client.world)
        ≡ (replied n bytes, w)
      → n ≢ minus_one
      → wrap_pread h fd count offset p
        ≡ returns n (record p {
          client = answered n bytes (after_clock h p w);
          tl_disable_redirect = false;
          pread_stats = note_call (h.clock p.client.world).0 (h.clock w).0 p.pread_stats;
        })
  unfolding wrap_pread get_path
  wrap_pread_tracked count offset n old bytes w mapped other buf answer good = ground (
    arith,
    t.local,
    remote_pread_lem h clocked fd full address knows remote (pos count) offset n old bytes w tracks
        other buf answer,
    eqz_iff n minus_one,
  )

  forgotten :
      remove_fd h fd clocked
      ≡ returns true (record clocked {
        world = (h.deliver address (close_in remote) clocked.world).1;
        fd_map = erase fd clocked.fd_map;
        fd_redir_map = erase fd clocked.fd_redir_map;
      })
  forgotten = remove_fd_lem h clocked fd full address knows remote tracks

  -- With redirection on and the real `close` found, a close of a tracked descriptor whose server is
  -- known asks that server to close its own descriptor, forgets both, and closes the local
  -- descriptor; where the kernel closes it, 0 is returned and the close is counted.
  pub wrap_close_tracked :
      (w : h.World)
      → p.mapped.close_fn ≡ true
      → (p.client.disable_redirect || p.tl_disable_redirect) ≡ false
      → h.real_close fd (h.deliver address (close_in remote) (after_clock h p p.client.world)).1
        ≡ (pos 0, w)
      → wrap_close h fd p
        ≡ returns (pos 0) (record p {
          client = record p.client {
            world = after_clock h p w;
            fd_map = erase fd p.client.fd_map;
            fd_redir_map = erase fd p.client.fd_redir_map;
          };
          tl_disable_redirect = false;
          close_stats = note_call (h.clock p.client.world).0 (h.clock w).0 p.close_stats;
        })
  unfolding wrap_close get_path
  wrap_close_tracked w mapped on closes = ground (arith, forgotten, t.local)
