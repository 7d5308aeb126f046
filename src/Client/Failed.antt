-- ===== src/Client/Failed.antt =====
-- The client of a server that has ended: hvac_read_cb and hvac_open_cb assert that the transport
-- reported success.
use hvac_arc.Base.{
  ℕ, ◌≡◌, ◌≢◌, ℤ, pos, minus_one, int_ord, int32, eqz_iff, true, some, [], Bytes, stops, aborts,
  arith,
}
use hvac_arc.OrderedMap.{insert, index, lookup-insert_self}
use hvac_arc.Host.{Host, open_in, read_in, failed}
use hvac_arc.Client.Defs.{
  Client, run_callback, wait_done, client_block, read_block, path_at, redir_at,
}
use hvac_arc.Client.Rpc.{lookup_addr, forward, gen_open_rpc, gen_read_rpc}
use hvac_arc.Client.Files.{
  tracked_path, host_of, start_mercury, ask_open, open_remote, track_file, file_tracked, ask_read,
  remote_read, has_remote, remote_pread,
}
use hvac_arc.Client.Redirect.{Knows, IsTracked}

module _ (h : Host) (c : Client h.World) (fd : ℤ) (full address : Bytes)
    (k : Knows h c full address) where
  -- A request to read whose transport fails ends the client.
  ask_read_failed :
      (remote count offset : ℤ) (old : Bytes) (w : h.World)
      → IsTracked h c fd full remote
      → c.buffer ≡ some old
      → h.deliver address (read_in (int32 count) remote offset) c.world ≡ (failed, w)
      → ask_read h fd count offset c
        ≡ stops aborts (record c { world = w; done = 0; read_ret = minus_one; pending = [] })
  unfolding ask_read path_at redir_at index host_of gen_read_rpc lookup_addr forward read_block
      client_block wait_done run_callback
  ask_read_failed remote count offset old w t buf fails = ground (arith, k, t)

  pub remote_read_failed :
      (remote count : ℤ) (old : Bytes) (w : h.World)
      → IsTracked h c fd full remote
      → c.buffer ≡ some old
      → h.deliver address (read_in (int32 count) remote minus_one) c.world ≡ (failed, w)
      → remote_read h fd count c
        ≡ stops aborts (record c { world = w; done = 0; read_ret = minus_one; pending = [] })
  unfolding remote_read file_tracked
  remote_read_failed remote count old w t buf fails =
      ground (arith, t, ask_read_failed remote count minus_one old w t buf fails)

  pub remote_pread_failed :
      (remote count offset : ℤ) (old : Bytes) (w : h.World)
      → IsTracked h c fd full remote
      → remote ≢ pos 0
      → c.buffer ≡ some old
      → h.deliver address (read_in (int32 count) remote offset) c.world ≡ (failed, w)
      → remote_pread h fd count offset c
        ≡ stops aborts (record c { world = w; done = 0; read_ret = minus_one; pending = [] })
  unfolding remote_pread has_remote file_tracked redir_at index
  remote_pread_failed remote count offset old w t other buf fails =
      ground
        (arith, t, ask_read_failed remote count offset old w t buf fails, eqz_iff remote (pos 0))

  pub track_file_failed :
      (path : Bytes) (flags : ℕ) (w : h.World)
      → tracked_path h c path flags ≡ some full
      → c.mercury_init ≡ true
      → h.deliver address (open_in full) c.world ≡ (failed, w)
      → track_file h path flags fd c
        ≡ stops aborts
            (record c { world = w; fd_map = insert fd full c.fd_map; done = 0; pending = [] })
  unfolding track_file open_remote ask_open start_mercury path_at index host_of gen_open_rpc
      lookup_addr forward client_block wait_done run_callback
  track_file_failed path flags w decided started fails =
      ground (arith, k, lookup-insert_self fd full c.fd_map)
