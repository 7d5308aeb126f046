-- ===== src/Client/Session.antt =====
-- Whole uses of a file through the client library.
use hvac_arc.Base.{
  ℕ, ◌≡◌, refl, ℤ, minus_one, int_ord, int32, true, some, [], Bytes, returns, pure, ◌>>=◌, arith,
}
use hvac_arc.OrderedMap.{insert, erase, lookup-insert_self}
use hvac_arc.Host.{Host, open_in, read_in, close_in, replied}
use hvac_arc.Client.Defs.{Client}
use hvac_arc.Client.Files.{tracked_path, track_file, remote_read, remove_fd}
use hvac_arc.Client.Redirect.{
  Knows, IsTracked, track_file_lem, ask_read_lem, remove_fd_lem, remote_read-tracked,
}

module _ (h : Host) (c : Client h.World) (fd : ℤ) (full address : Bytes)
    (k : Knows h c full address) where
  -- A tracked file is opened, read once and closed. The server of its path is asked, in this order,
  -- to open the canonical path, to read with the descriptor that it answered, at the current offset
  -- and with the count cut to 32 bits, and to close that descriptor; the caller gets the server's
  -- answer to the read and its bytes, and both tables forget the descriptor.
  pub session_lem :
      (path : Bytes) (flags : ℕ) (remote count n : ℤ) (old opened_bytes bytes : Bytes)
      (w w' : h.World)
      → tracked_path h c path flags ≡ some full
      → c.mercury_init ≡ true
      → c.buffer ≡ some old
      → h.deliver address (open_in full) c.world ≡ (replied remote opened_bytes, w)
      → h.deliver address (read_in (int32 count) remote minus_one) w ≡ (replied n bytes, w')
      → (do _ ← track_file h path flags fd; r ← remote_read h fd count; _ ← remove_fd h fd; pure r)
          c
        ≡ returns n (record c {
          world = (h.deliver address (close_in remote) w').1;
          fd_map = erase fd (insert fd full c.fd_map);
          fd_redir_map = erase fd (insert fd remote c.fd_redir_map);
          done = 1;
          read_ret = n;
          buffer = some bytes;
          pending = [];
        })
  session_lem path flags remote count n old opened_bytes bytes w w' decided started buf opens
        reads =
      ground (
        arith,
        track_file_lem h c fd full address k path flags remote opened_bytes w decided started opens,
        remote_read-tracked h tracking fd count on,
        ask_read_lem h tracking fd full address knows remote count minus_one n old bytes w' on buf
            reads,
        remove_fd_lem h after fd full address knows_after remote on_after,
      )
    where
      tracking : Client h.World
      tracking = record c {
        world = w;
        fd_map = insert fd full c.fd_map;
        fd_redir_map = insert fd remote c.fd_redir_map;
        done = 1;
        pending = [];
      }

      after : Client h.World
      after = record tracking { world = w'; read_ret = n; buffer = some bytes }

      knows : Knows h tracking full address
      knows = record { some_server = k.some_server; posted = k.posted; quiet = refl }

      knows_after : Knows h after full address
      knows_after = record { some_server = k.some_server; posted = k.posted; quiet = refl }

      on : IsTracked h tracking fd full remote
      on = record {
        local = lookup-insert_self fd full c.fd_map;
        redirected = lookup-insert_self fd remote c.fd_redir_map;
      }

      on_after : IsTracked h after fd full remote
      on_after = record { local = on.local; redirected = on.redirected }
