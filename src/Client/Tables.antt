-- ===== src/Client/Tables.antt =====
-- fd_map and fd_redir_map, over any use of the client library.
use hvac_arc.Base.{
  minus_one, Stop, Outcome-cases, ◌≡◌, inl, inr, ◌⊎◌, ℤ, pos, int_ord, Bool, Option, none, some, [],
  Bytes, returns, stops, arith,
}
use hvac_arc.OrderedMap.{lookup, insert, erase, index}
use hvac_arc.Host.{Host, open_in, Delivery, replied, failed, silent}
use hvac_arc.Client.Defs.{
  Client, run_callback, wait_done, client_block, read_block, path_at, redir_at,
}
use hvac_arc.Client.Rpc.{
  read_config, lookup_addr, forward, forward_only, gen_open_rpc, gen_read_rpc, gen_seek_rpc,
  gen_close_rpc,
}
use hvac_arc.Client.Files.{
  host_of, ask_open, file_tracked, ask_read, ask_seek, ask_close, remote_close, remove_fd,
}
use hvac_arc.Client.Redirect.{rank_of}

module _ (h : Host) where
  -- The tables and the answers to come are as they were.
  pub record SameTables (c d : Client h.World) : Type 0 where
    pub paths : d.fd_map ≡ c.fd_map
    pub remotes : d.fd_redir_map ≡ c.fd_redir_map
    pub waiting : d.pending ≡ c.pending

  lookup_addr-SameTables :
      (rank : ℤ) (c d : Client h.World) (a : Option Bytes)
      → lookup_addr h rank c ≡ returns a d
      → SameTables c d
  unfolding lookup_addr read_config
  lookup_addr-SameTables rank c d a e = ground arith

  -- What a lookup does to the client, if it returns.
  looked_up :
      (rank : ℤ) (c : Client h.World)
      → ((a : Option Bytes) × ((d : Client h.World) × (lookup_addr h rank c ≡ returns a d)
            × SameTables c d))
        ⊎ ((s : Stop) × ((d : Client h.World) × (lookup_addr h rank c ≡ stops s d)))
  looked_up rank c = elim (Outcome-cases (lookup_addr h rank c)) [
    | inl (a, (d, e)) ↦ inl (a, (d, e, lookup_addr-SameTables rank c d a e))
    | inr stop ↦ inr stop
  ]

  pub ask_read-SameTables :
      (fd count offset n : ℤ) (c d : Client h.World) (full : Bytes) (remote : ℤ)
      → c.pending ≡ []
      → lookup fd c.fd_map ≡ some full
      → lookup fd c.fd_redir_map ≡ some remote
      → ask_read h fd count offset c ≡ returns n d
      → SameTables c d
  unfolding ask_read path_at redir_at index host_of gen_read_rpc forward read_block client_block
      wait_done run_callback
  ask_read-SameTables fd count offset n c d full remote quiet known far e =
      ground (arith, looked_up (rank_of h c full) (record c { done = 0; read_ret = minus_one }))

  pub ask_seek-SameTables :
      (fd offset whence n : ℤ) (c d : Client h.World) (full : Bytes) (remote : ℤ)
      → c.pending ≡ []
      → lookup fd c.fd_map ≡ some full
      → lookup fd c.fd_redir_map ≡ some remote
      → ask_seek h fd offset whence c ≡ returns n d
      → SameTables c d
  unfolding ask_seek path_at redir_at index host_of gen_seek_rpc forward read_block client_block
      wait_done run_callback
  ask_seek-SameTables fd offset whence n c d full remote quiet known far e =
      ground (arith, looked_up (rank_of h c full) (record c { done = 0; read_ret = minus_one }))

  -- The number in a server's answer.
  abbrev answer_of : Delivery → ℤ
  answer_of (replied r bytes) = r
  answer_of failed = pos 0
  answer_of silent = pos 0

  -- What a remote open leaves in the tables: the answer of a server.
  pub ask_open-tables :
      (fd : ℤ) (c d : Client h.World) (full : Bytes) (r : Unit {0})
      → c.pending ≡ []
      → lookup fd c.fd_map ≡ some full
      → ask_open h fd c ≡ returns r d
      → (remote : ℤ) × ((d.fd_map ≡ c.fd_map)
          × (d.fd_redir_map ≡ insert fd remote c.fd_redir_map)
          × (d.pending ≡ []))
  unfolding ask_open path_at index host_of gen_open_rpc forward client_block wait_done run_callback
  ask_open-tables fd c d full r quiet known e =
      elim (looked_up (rank_of h c full) (record c { done = 0 })) [
        | inl (none, (c', seen, same)) ↦ (pos 0, ground (arith, seen))
        | inl (some address, (c', seen, same)) ↦
            (answer_of (h.deliver address (open_in full) c'.world).0, ground (arith, seen, same))
        | inr (s, (c', seen)) ↦ (pos 0, ground (arith, seen))
      ]

  pub remove_fd-tables :
      (fd : ℤ) (c d : Client h.World) (erased : Bool) (full : Bytes) (remote : ℤ)
      → lookup fd c.fd_map ≡ some full
      → lookup fd c.fd_redir_map ≡ some remote
      → remove_fd h fd c ≡ returns erased d
      → (d.fd_map ≡ erase fd c.fd_map)
        × (d.fd_redir_map ≡ erase fd c.fd_redir_map)
        × (d.pending ≡ c.pending)
  unfolding remove_fd remote_close file_tracked ask_close path_at redir_at index host_of
      gen_close_rpc forward_only
  remove_fd-tables fd c d erased full remote known far e =
      ground (arith, looked_up (rank_of h c full) c)
