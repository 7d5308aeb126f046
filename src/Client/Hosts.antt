-- ===== src/Client/Hosts.antt =====
-- hvac_client.cpp and hvac_comm_client.cpp: the server that a path is hashed to has an address.
use hvac_arc.Base.{
  ℕ, ◌%◌, ◌^◌, ◌<◌, ◌≤◌, ◌≡◌, ◌≢◌, inl, inr, pos, int_ord, int32_small, none, some, List, [], Bytes,
  returns, arith, Option-cases,
}
use hvac_arc.Registry.RoundTrip.{Server, Tokens, post_all, first_of_rank}
use hvac_arc.Host.{Host}
use hvac_arc.Client.Defs.{Client}
use hvac_arc.Client.Rpc.{lookup_addr}
use hvac_arc.Client.Files.{host_of}
use hvac_arc.Client.Addresses.{Agrees, lookup_addr-post_all}

-- A server of each of the first `n` ranks is among them.
abbrev pub Covers : ℕ → List Server → Type 0
Covers n ss = (rank : ℕ) → rank < n → first_of_rank (pos rank) ss ≢ none

module _ (h : Host) (c : Client h.World) (full : Bytes) where
  -- The rank that a path is hashed to.
  abbrev pub rank_in : ℕ
  rank_in = h.hash full % c.server_count

  host_of_small :
      0 < c.server_count
      → c.server_count ≤ 2 ^ 31
      → (rank_in < c.server_count) × (host_of h full c ≡ returns (pos rank_in) c)
  unfolding host_of
  host_of_small some_server few = (ground arith, ground (arith, int32_small rank_in))

  -- With at least one and at most 2 ^ 31 servers, all of which have posted their addresses, and the
  -- ranks below the count among them: any path is hashed to a rank below the count, and a client
  -- that sees the file finds the address that the first server of that rank posted, never a null
  -- address.
  pub host_of-Covers :
      (ss : List Server) (file : Bytes)
      → 0 < c.server_count
      → c.server_count ≤ 2 ^ 31
      → Tokens ss
      → post_all ss [] ≡ returns tt file
      → Covers c.server_count ss
      → Agrees h file c
      → (rank_in < c.server_count)
        × (host_of h full c ≡ returns (pos rank_in) c)
        × ((address : Bytes) × ((d : Client h.World) × (first_of_rank (pos rank_in) ss
                ≡ some address)
              × (lookup_addr h (pos rank_in) c ≡ returns (some address) d)))
  host_of-Covers ss file some_server few tokens posted covers agrees =
      let (below, host) = host_of_small some_server few in
      let (d, says, _) = lookup_addr-post_all h ss file (pos rank_in) c tokens posted agrees in
      elim (Option-cases (first_of_rank (pos rank_in) ss)) [
        | inl missing ↦ absurd (covers rank_in below missing)
        | inr (address, found) ↦ (below, host, (address, (d, found, ground (arith, says, found))))
      ]
