-- ===== src/Server/Crashes.antt =====
-- The assertions of the handlers of hvac_comm.cpp.
use hvac_arc.Base.{
  ℕ, ◌-◌, ◌^◌, ◌≤◌, ◌<◌, ◌≡◌, ℤ, pos, minus_one, int32, true, false, Bytes, word, [], returns,
  stops, aborts, state_of, arith, int_ord,
}
use hvac_arc.Host.{open_in, read_in, close_in, replied}
use hvac_arc.Server.Defs.{Kernel, Server}
use hvac_arc.Server.Handlers.{redirect, read_file, serve}

module _ (k : Kernel) (s : Server k.World) where
  -- A request to read between 2 and 4 GiB, whose count is sent in 32 bits, ends the server,
  -- whatever the descriptor: the count arrives negative, and the server asserts that it could
  -- allocate so much.
  pub large_read_aborts :
      (count : ℕ) (fd offset : ℤ)
      → 2 ^ 31 ≤ count
      → count < 2 ^ 32
      → serve k (read_in (int32 (pos count)) fd offset) s ≡ stops aborts s
  unfolding serve
  large_read_aborts count fd offset lo hi = ground arith

  -- Where Mercury refuses to push more bytes than the buffer has, a read that the kernel fails ends
  -- the server: the result -1 is taken for the largest size.
  pub failed_read_aborts :
      (n : ℕ) (fd offset : ℤ)
      → ((size : ℕ) → n < size → k.transfers size n ≡ false)
      → n < 2 ^ 31
      → k.registers n ≡ true
      → (read_file k fd n offset s.world).0 ≡ minus_one
      → serve k (read_in (pos n) fd offset) s
        ≡ stops aborts (record s { world = (read_file k fd n offset s.world).2 })
  unfolding serve
  failed_read_aborts n fd offset refuses small taken fails = ground (arith, refuses (word - 1))

  -- If the kernel cannot open the file, the server answers the client with the descriptor -1; and
  -- when the client closes what it was given, and the kernel refuses to close -1, the server's
  -- assertion fails and ends it.
  pub close_unopened_aborts :
      (path : Bytes)
      → ((w : k.World) → (k.close minus_one w).0 ≡ minus_one)
      → (k.open_ro (redirect path s.path_cache_map) s.world).0 ≡ minus_one
      → (t : Server k.World) × ((serve k (open_in path) s ≡ returns (replied minus_one []) t)
          × (serve k (close_in minus_one) t
              ≡ stops aborts (record t { world = (k.close minus_one t.world).1 })))
  unfolding serve
  close_unopened_aborts path bad missing =
      let w = (k.open_ro (redirect path s.path_cache_map) s.world).1 in
      (
        state_of (serve k (open_in path) s),
        (ground (arith, missing), ground (arith, missing, bad w)),
      )
