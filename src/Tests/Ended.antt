-- ===== src/Tests/Ended.antt =====
-- Clients of a server that ends.
use hvac_arc.Base.{ℕ, ◌^◌, refl, pos, int_ord, false, [], ◌∷◌, codes, Bytes, state_of, arith}
use hvac_arc.OrderedMap.{lookup}
use hvac_arc.Client.{Client, tracked_path}
use hvac_arc.Client.Redirect.{Knows, IsTracked}
use hvac_arc.Wrappers.{Process, wrap_read, wrap_pread, wrap_open}
use hvac_arc.Cluster.{Nodes, cluster}
use hvac_arc.Cluster.Failure.{Aborts, dead_server-Aborts, large_read-Aborts}
use hvac_arc.Tests.Samples.{machine, client, data_file, process_of}
use hvac_arc.Tests.Shared.{Unix, unix, unix_nodes}

-- With the data file open as 3, and as 5 at the server.
abbrev reading_it : Nodes ℕ Unix → Client (Nodes ℕ Unix)
reading_it w = record (client w) {
  fd_map = (pos 3, data_file) ∷ [];
  fd_redir_map = (pos 3, pos 5) ∷ [];
}

abbrev at : Bytes
at = codes "tcp:1"

reading_it-Knows : (w : Nodes ℕ Unix) → Knows (cluster machine unix) (reading_it w) data_file at
reading_it-Knows w = record { some_server = refl; posted = unfold lookup in refl; quiet = refl }

reading_it-IsTracked :
    (w : Nodes ℕ Unix) → IsTracked (cluster machine unix) (reading_it w) (pos 3) data_file (pos 5)
reading_it-IsTracked w = record {
  local = unfold lookup in refl;
  redirected = unfold lookup in refl;
}

abbrev stopped : Nodes ℕ Unix
stopped = record unix_nodes { up = λ address. false }

dead_server-Aborts_example :
    Aborts (wrap_read (cluster machine unix) (pos 3) 2 (process_of (reading_it stopped)))
    × Aborts (wrap_pread (cluster machine unix) (pos 3) 2 (pos 1) (process_of (reading_it stopped)))
    × Aborts (wrap_open (cluster machine unix) data_file 0 0 (process_of (reading_it stopped)))
dead_server-Aborts_example =
    dead_server-Aborts machine unix at (process_of (reading_it stopped)) (pos 3) (pos 5) data_file
      [] 2 (pos 1) data_file data_file 0 0 (pos 3) 2 refl refl refl refl refl
      (reading_it-Knows stopped) (reading_it-IsTracked stopped) (λ e. ground arith)
      (reading_it-Knows stopped) (λ e. ground arith) refl (unfold tracked_path in refl)

abbrev first_reader : Process (Nodes ℕ Unix)
first_reader = process_of (reading_it unix_nodes)

-- Another reader, on the servers that the first leaves.
abbrev left_nodes : Nodes ℕ Unix
left_nodes =
    (state_of (wrap_read (cluster machine unix) (pos 3) (2 ^ 31) first_reader)).client.world

large_read-Aborts_example :
    Aborts (wrap_read (cluster machine unix) (pos 3) (2 ^ 31) first_reader)
    × Aborts (wrap_read (cluster machine unix) (pos 3) 1 (process_of (reading_it left_nodes)))
large_read-Aborts_example =
    large_read-Aborts machine unix at first_reader (process_of (reading_it left_nodes)) (pos 3)
      (pos 5) data_file [] (2 ^ 31) (pos 3) (pos 5) data_file [] 1 (ground arith) (ground arith)
      refl refl refl (reading_it-Knows unix_nodes) (reading_it-IsTracked unix_nodes) refl refl refl
      (reading_it-Knows left_nodes) (reading_it-IsTracked left_nodes)
