-- ===== src/Client/Unposted.antt =====
-- hvac_track_file where the path's server has not posted its address.
use hvac_arc.Base.{
  ◌≡◌, ℕ, ℤ, int_ord, true, false, Option, none, some, eqb, Bytes, stops, Stop, aborts, faults,
  arith,
}
use hvac_arc.OrderedMap.{lookup, insert, index, lookup-insert_self}
use hvac_arc.Host.{Host}
use hvac_arc.Client.Defs.{Client, path_at}
use hvac_arc.Client.Rpc.{lookup_addr, read_config, forward, gen_open_rpc}
use hvac_arc.Client.Files.{tracked_path, host_of, start_mercury, ask_open, open_remote, track_file}
use hvac_arc.Client.Redirect.{rank_of}
use hvac_arc.Client.Addresses.{in_file}

-- What the file, if there is one, says of a rank.
abbrev pub posted_as : Option Bytes → ℤ → Option Bytes
posted_as none rank = none
posted_as (some file) rank = in_file file rank

-- Without the file the client reads from a null stream; without the rank it asserts that a request
-- to a null address can be made.
abbrev pub ending : Option Bytes → Stop
ending none = faults
ending (some file) = aborts

-- The client has servers, but neither it nor the file knows an address of the path's.
pub record Unposted (h : Host) (c : Client h.World) (full : Bytes) (file : Option Bytes)
    : Type 0 where
  pub some_server : eqb c.server_count 0 ≡ false
  pub unknown : lookup (rank_of h c full) c.address_cache ≡ none
  pub reads : h.config_file c.world ≡ file
  pub unposted : posted_as file (rank_of h c full) ≡ none

request-Unposted :
    (h : Host) (c : Client h.World) (full : Bytes) (file : Option Bytes) (fd : ℤ)
    → Unposted h c full file
    → gen_open_rpc h (rank_of h c full) full fd c ≡ stops (ending file) (record c { done = 0 })
unfolding gen_open_rpc lookup_addr read_config forward
request-Unposted h c full none fd u = ground (arith, u)
request-Unposted h c full (some file) fd u = ground (arith, u)

pub track_file-Unposted :
    (h : Host) (c : Client h.World) (full : Bytes) (file : Option Bytes) (path : Bytes) (flags : ℕ)
    (fd : ℤ)
    → Unposted h c full file
    → tracked_path h c path flags ≡ some full
    → c.mercury_init ≡ true
    → track_file h path flags fd c
      ≡ stops (ending file) (record c { fd_map = insert fd full c.fd_map; done = 0 })
unfolding track_file open_remote ask_open start_mercury path_at index host_of
track_file-Unposted h c full file path flags fd u decided started =
    let asks =
      request-Unposted h (record c { fd_map = insert fd full c.fd_map }) full file fd
        (record {
          some_server = u.some_server;
          unknown = u.unknown;
          reads = u.reads;
          unposted = u.unposted;
        }) in
    ground (arith, u, lookup-insert_self fd full c.fd_map, asks)
