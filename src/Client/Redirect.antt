-- ===== src/Client/Redirect.antt =====
-- The descriptors of the client and of the server: hvac_track_file and the remote calls.
use hvac_arc.Base.{
  ℕ, ◌%◌, ◌≡◌, ◌≢◌, ℤ, pos, minus_one, int_ord, int32, eqz_iff, true, false, none, some, [], eqb,
  Bytes, returns, arith,
}
use hvac_arc.OrderedMap.{lookup, insert, erase, index, lookup-insert_self}
use hvac_arc.Host.{Host, open_in, read_in, seek_in, close_in, replied}
use hvac_arc.Client.Defs.{
  Client, run_callback, wait_done, client_block, read_block, path_at, redir_at,
}
use hvac_arc.Client.Rpc.{
  lookup_addr, forward, forward_only, gen_open_rpc, gen_read_rpc, gen_seek_rpc, gen_close_rpc,
}
use hvac_arc.Client.Files.{
  tracked_path, host_of, start_mercury, open_remote, track_file, file_tracked, ask_read,
  remote_read, has_remote, remote_pread, ask_seek, remote_lseek, ask_close, remote_close, remove_fd,
}

module _ (h : Host) where
  -- The server of a path, among those that the client knows.
  abbrev pub rank_of : Client h.World → Bytes → ℤ
  rank_of c full = int32 (pos (h.hash full % c.server_count))

  -- The client has servers, and knows the address of the path's.
  pub record Knows (c : Client h.World) (full address : Bytes) : Type 0 where
    pub some_server : eqb c.server_count 0 ≡ false
    pub posted : lookup (rank_of c full) c.address_cache ≡ some address
    pub quiet : c.pending ≡ []

  -- `fd` is open on the path, under the server's descriptor `remote`.
  pub record IsTracked (c : Client h.World) (fd : ℤ) (full : Bytes) (remote : ℤ) : Type 0 where
    pub local : lookup fd c.fd_map ≡ some full
    pub redirected : lookup fd c.fd_redir_map ≡ some remote

  module _ (c : Client h.World) (fd : ℤ) (full address : Bytes) (k : Knows c full address) where
    -- What `track_file` does with a file that is tracked, where the path's server answers.
    pub track_file_lem :
        (path : Bytes) (flags : ℕ) (remote : ℤ) (bytes : Bytes) (w : h.World)
        → tracked_path h c path flags ≡ some full
        → c.mercury_init ≡ true
        → h.deliver address (open_in full) c.world ≡ (replied remote bytes, w)
        → track_file h path flags fd c
          ≡ returns true (record c {
            world = w;
            fd_map = insert fd full c.fd_map;
            fd_redir_map = insert fd remote c.fd_redir_map;
            done = 1;
            pending = [];
          })
    unfolding track_file open_remote start_mercury path_at index host_of gen_open_rpc lookup_addr
        forward client_block wait_done run_callback
    track_file_lem path flags remote bytes w decided started answered =
        ground (arith, k, lookup-insert_self fd full c.fd_map)

    -- The request behind both reads, and the waits for its answer.
    pub ask_read_lem :
        (remote count offset : ℤ) (n : ℤ) (old bytes : Bytes) (w : h.World)
        → IsTracked c fd full remote
        → c.buffer ≡ some old
        → h.deliver address (read_in (int32 count) remote offset) c.world ≡ (replied n bytes, w)
        → ask_read h fd count offset c
          ≡ returns n
              (record c { world = w; done = 1; read_ret = n; buffer = some bytes; pending = [] })
    unfolding ask_read path_at redir_at index host_of gen_read_rpc lookup_addr forward read_block
        client_block wait_done run_callback
    ask_read_lem remote count offset n old bytes w t buf answered = ground (arith, k, t)

    -- The request behind a seek, and the wait for its answer.
    pub ask_seek_lem :
        (remote offset whence n : ℤ) (bytes : Bytes) (w : h.World)
        → IsTracked c fd full remote
        → h.deliver address (seek_in remote offset whence) c.world ≡ (replied n bytes, w)
        → ask_seek h fd offset whence c
          ≡ returns n (record c { world = w; done = 1; read_ret = n; pending = [] })
    unfolding ask_seek path_at redir_at index host_of gen_seek_rpc lookup_addr forward read_block
        client_block wait_done run_callback
    ask_seek_lem remote offset whence n bytes w t answered = ground (arith, k, t)

    -- What forgetting a tracked descriptor asks of its server.
    pub remove_fd_lem :
        (remote : ℤ)
        → IsTracked c fd full remote
        → remove_fd h fd c
          ≡ returns true (record c {
            world = (h.deliver address (close_in remote) c.world).1;
            fd_map = erase fd c.fd_map;
            fd_redir_map = erase fd c.fd_redir_map;
          })
    unfolding remove_fd remote_close file_tracked ask_close path_at redir_at index host_of
        gen_close_rpc lookup_addr forward_only
    remove_fd_lem remote t = ground (arith, k, t)

  -- A descriptor that is not tracked: every remote call says -1 or does nothing, asks no server,
  -- and leaves the client as it was.
  pub untracked_idle :
      (c : Client h.World) (fd count offset whence : ℤ)
      → lookup fd c.fd_map ≡ none
      → (remote_read h fd count c ≡ returns minus_one c)
        × (remote_pread h fd count offset c ≡ returns minus_one c)
        × (remote_lseek h fd offset whence c ≡ returns minus_one c)
        × (remote_close h fd c ≡ returns tt c)
  unfolding remote_read remote_pread has_remote remote_lseek remote_close file_tracked
  untracked_idle c fd count offset whence e =
      (ground arith, ground arith, ground arith, ground arith)

  pub remote_read-tracked :
      (c : Client h.World) (fd count : ℤ) {full : Bytes} {remote : ℤ}
      → IsTracked c fd full remote
      → remote_read h fd count c ≡ ask_read h fd count minus_one c
  unfolding remote_read file_tracked
  remote_read-tracked c fd count t = ground (arith, t)

  module _ (c : Client h.World) (fd : ℤ) (full address : Bytes) (k : Knows c full address) where
    -- A seek on a tracked descriptor whose server is known and answers asks that server to seek on
    -- the server's descriptor, with the caller's offset and whence, and returns the answer; the
    -- client's tables stay.
    pub remote_lseek_lem :
        (remote offset whence n : ℤ) (bytes : Bytes) (w : h.World)
        → IsTracked c fd full remote
        → h.deliver address (seek_in remote offset whence) c.world ≡ (replied n bytes, w)
        → remote_lseek h fd offset whence c
          ≡ returns n (record c { world = w; done = 1; read_ret = n; pending = [] })
    unfolding remote_lseek file_tracked
    remote_lseek_lem remote offset whence n bytes w t answered =
        ground
          (arith, t, ask_seek_lem c fd full address k remote offset whence n bytes w t answered)

    -- A `pread` on a tracked descriptor whose server is known and answers, and whose server
    -- descriptor is not 0, asks that server to read with the server's descriptor, at the caller's
    -- offset and with the count cut to 32 bits; the caller gets the answer and its bytes, and the
    -- client's tables stay.
    pub remote_pread_lem :
        (remote count offset n : ℤ) (old bytes : Bytes) (w : h.World)
        → IsTracked c fd full remote
        → remote ≢ pos 0
        → c.buffer ≡ some old
        → h.deliver address (read_in (int32 count) remote offset) c.world ≡ (replied n bytes, w)
        → remote_pread h fd count offset c
          ≡ returns n
              (record c { world = w; done = 1; read_ret = n; buffer = some bytes; pending = [] })
    unfolding remote_pread has_remote file_tracked redir_at index
    remote_pread_lem remote count offset n old bytes w t other buf answered = ground (
      arith,
      t,
      eqz_iff remote (pos 0),
      ask_read_lem c fd full address k remote count offset n old bytes w t buf answered,
    )
