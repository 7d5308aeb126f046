-- ===== src/Tests/Clients.antt =====
-- The client library, the wrappers and the file of addresses.
use mathlib.Core.List.{Mem, Memᴰ}
use mathlib.Core.List.Perm
use mathlib.Core.List.Memᴰ.{not-nil}
use mathlib.Core.Logic.{∥∥₁_elim}
use hvac_arc.Registry.Order.{OnePerRank}
use hvac_arc.Base.{
  ℕ, ◌+◌, ◌≡◌, ◌<◌, ◌↔◌, ◌++◌, refl, pos, int_ord, true, some, List, [], ◌∷◌, Bytes, bytes_ord,
  codes, length, returns, pure, ◌>>=◌, arith,
}
use hvac_arc.OrderedMap.{lookup, insert, erase, lookup-insert_self}
use hvac_arc.Text.{print_int}
use hvac_arc.Host.{Host}
use hvac_arc.Registry.{find_rank, line, list_addr}
use hvac_arc.Registry.RoundTrip.{Server, Tokens, post_all, first_of_rank, find_rank-post_all}
use hvac_arc.Client.{
  Client, parent_path, tracked_path, in_data_dir, track_file, remote_read, remove_fd, lookup_addr,
  host_of,
}
use hvac_arc.Client.Pairing.{IsPaired}
use hvac_arc.Client.Uses.{Uses, ended, between, tracks, closes, Uses-IsPaired}
use hvac_arc.Client.Redirect.{track_file_lem, remove_fd_lem, Knows, IsTracked}
use hvac_arc.Client.Hosts.{Covers, rank_in, host_of-Covers}
use hvac_arc.Client.Session.{session_lem}
use hvac_arc.Client.DataDir.{in_data_dir_iff}
use hvac_arc.Client.Addresses.{Agrees, lookup_addr-Perm}
use hvac_arc.Tests.Samples.{machine, client, reader, data_file, text, ports}

abbrev first_server : Bytes
first_server = codes "tcp:1"

known : Knows machine (client 0) data_file first_server
known = record { some_server = refl; posted = unfold lookup in refl; quiet = refl }

reader-Knows : Knows machine reader data_file first_server
reader-Knows = record { some_server = refl; posted = unfold lookup in refl; quiet = refl }

reader_tracks : IsTracked machine reader (pos 3) data_file (pos 7)
reader_tracks = record { local = unfold lookup in refl; redirected = unfold lookup in refl }

session_lem_example :
    (do
      _ ← track_file machine data_file 0 (pos 3)
      r ← remote_read machine (pos 3) (pos 9)
      _ ← remove_fd machine (pos 3)
      pure r)
      (client 0)
    ≡ returns (pos 3) (record (client 0) {
      world = 3;
      fd_map = erase (pos 3) (insert (pos 3) data_file []);
      fd_redir_map = erase (pos 3) (insert (pos 3) (pos 7) []);
      done = 1;
      read_ret = pos 3;
      buffer = some text;
      pending = [];
    })
session_lem_example =
    session_lem machine (client 0) (pos 3) data_file first_server known data_file 0 (pos 7) (pos 9)
      (pos 3) [] [] text 1 2 (unfold tracked_path in refl) refl refl refl refl

-- A file is opened, and removed after another buffer was offered.
abbrev opened_client : Client ℕ
opened_client = record (client 0) {
  world = 1;
  fd_map = insert (pos 3) data_file [];
  fd_redir_map = insert (pos 3) (pos 7) [];
  done = 1;
  pending = [];
}

opened-Knows : Knows machine opened_client data_file first_server
opened-Knows = record { some_server = refl; posted = unfold lookup in refl; quiet = refl }

opened-IsTracked : IsTracked machine opened_client (pos 3) data_file (pos 7)
opened-IsTracked = record {
  local = lookup-insert_self (pos 3) data_file [];
  redirected = lookup-insert_self (pos 3) (pos 7) [];
}

abbrev closed_client : Client ℕ
closed_client = record opened_client {
  world = 2;
  fd_map = erase (pos 3) (insert (pos 3) data_file []);
  fd_redir_map = erase (pos 3) (insert (pos 3) (pos 7) []);
}

use_once : Uses machine (client 0) closed_client
use_once =
    tracks data_file 0 (pos 3) true (client 0) opened_client closed_client
      (track_file_lem machine (client 0) (pos 3) data_file first_server known data_file 0 (pos 7) []
        1 (unfold tracked_path in refl) refl refl)
      (between 1 (some []) opened_client closed_client (
        closes (pos 3) true opened_client closed_client closed_client
          (remove_fd_lem machine opened_client (pos 3) data_file first_server opened-Knows (pos 7)
            opened-IsTracked)
          (ended closed_client)))

Uses-IsPaired_example : IsPaired machine closed_client
Uses-IsPaired_example =
    Uses-IsPaired machine (client 0) closed_client use_once
      (record { both = λ fd. unfold lookup in refl; quiet = refl })

in_data_dir_iff_example : (in_data_dir machine (client 0) data_file ≡ true) ↔ (
    (before : Bytes) × ((after : Bytes) × (parent_path data_file
        ≡ before ++ (codes "/d" ++ after))))
in_data_dir_iff_example =
    in_data_dir_iff machine (client 0) (codes "/d") (codes "/d") data_file refl refl

-- The server's descriptor is 0.
abbrev zero_reader : Client ℕ
zero_reader = record reader { fd_redir_map = (pos 3, pos 0) ∷ [] }

abbrev servers : List Server
servers =
    record { rank = pos 0; address = first_server }
    ∷ record { rank = pos 12; address = codes "tcp:2" }
    ∷ []

servers-Tokens : Tokens servers
servers-Tokens = (
  ((refl, (refl, (refl, (refl, (refl, tt))))), λ e. ground arith),
  (((refl, (refl, (refl, (refl, (refl, tt))))), λ e. ground arith), tt),
)

find_rank-post_all_example :
    (file : Bytes) × (post_all servers [] ≡ returns tt file)
    × (find_rank (length file + 1) (pos 12) file ≡ first_of_rank (pos 12) servers)
find_rank-post_all_example = find_rank-post_all servers (pos 12) servers-Tokens

-- A client that remembers no address.
abbrev newcomer : Client ℕ
newcomer = record (client 0) { address_cache = [] }

abbrev second_server : Server
second_server = record { rank = pos 12; address = codes "tcp:2" }

at_most : (s t : Server) → Memᴰ s servers → Memᴰ t servers → s.rank ≡ t.rank → s.address ≡ t.address
at_most s t (Memᴰ.head e) (Memᴰ.head f) same = ground arith
at_most s t (Memᴰ.head e) (Memᴰ.tail (Memᴰ.head f)) same = ground arith
at_most s t (Memᴰ.tail (Memᴰ.head e)) (Memᴰ.head f) same = ground arith
at_most s t (Memᴰ.tail (Memᴰ.head e)) (Memᴰ.tail (Memᴰ.head f)) same = ground arith
at_most s t (Memᴰ.tail (Memᴰ.tail m)) k same = absurd (not-nil m)
at_most s t m (Memᴰ.tail (Memᴰ.tail k)) same = absurd (not-nil k)

servers-OnePerRank : OnePerRank servers
servers-OnePerRank s t m k same =
    ∥∥₁_elim m (hlevel) λ d. ∥∥₁_elim k (hlevel) λ e. at_most s t d e same

-- The second server posted first.
abbrev posted_late : List Server
posted_late = second_server ∷ record { rank = pos 0; address = first_server } ∷ []

abbrev late_machine : Host
late_machine = record machine { config_file = λ w. some (codes "12 tcp:2\n0 tcp:1\n") }

lookup_addr-Perm_example :
    (d : Client ℕ) × (lookup_addr late_machine (pos 0) newcomer
      ≡ returns (first_of_rank (pos 0) servers) d)
    × ((address : Bytes)
        → (first_of_rank (pos 0) servers ≡ some address)
          ↔ Mem (record { rank = pos 0; address = address }) servers)
    × Agrees late_machine (codes "12 tcp:2\n0 tcp:1\n") d
lookup_addr-Perm_example =
    lookup_addr-Perm late_machine servers posted_late (codes "12 tcp:2\n0 tcp:1\n") (pos 0) newcomer
      (servers-Tokens.1.0, (servers-Tokens.0, tt)) servers-OnePerRank
      (Perm.swap (record { rank = pos 0; address = first_server }) second_server [])
      (unfold post_all list_addr line print_int in refl) (record { reads = refl; cached = tt })

abbrev only_server : List Server
only_server = record { rank = pos 0; address = first_server } ∷ []

-- The count is 1, and the one server has the rank 0.
only_server-Covers : Covers 1 only_server
only_server-Covers rank below = ground arith

host_of-Covers_example :
    (rank_in machine newcomer data_file < newcomer.server_count)
    × (host_of machine data_file newcomer
        ≡ returns (pos (rank_in machine newcomer data_file)) newcomer)
    × ((address : Bytes) × ((d : Client ℕ) × (first_of_rank
              (pos (rank_in machine newcomer data_file))
              only_server
            ≡ some address)
          × (lookup_addr machine (pos (rank_in machine newcomer data_file)) newcomer
              ≡ returns (some address) d)))
host_of-Covers_example =
    host_of-Covers machine newcomer data_file only_server ports (omega arith) (omega arith)
      (servers-Tokens.0, tt) (unfold post_all list_addr line print_int in refl) only_server-Covers
      (record { reads = refl; cached = tt })
