-- ===== src/Tests/Table.antt =====
-- A program beside its table of open files.
use hvac_arc.Base.{
  ℕ, ◌+◌, ◌≡◌, ◌≢◌, refl, ℤ, pos, int_ord, some, List, [], ◌∷◌, bytes_ord, codes, returns, arith,
}
use hvac_arc.OrderedMap.{lookup, insert, erase}
use hvac_arc.Host.{Host}
use hvac_arc.Client.{tracked_path, track_file, run_callback, remote_read}
use hvac_arc.Wrappers.{Process, wrap_open, wrap_read, wrap_close}
use hvac_arc.Cluster.{Nodes, deliver_to}
use hvac_arc.Server.{serve, happen, happen_all}
use hvac_arc.Cluster.OpenTable.{
  Opening, Call, opens, reads, closes, Between, on_table, all_on_table,
}
use hvac_arc.Cluster.Agreement.{Agrees}
use hvac_arc.Cluster.Transparency.{make, make_all, IsSound, make_all-on_table}
use hvac_arc.Tests.Samples.{machine, client, process_of, data_file, text}
use hvac_arc.Tests.Polite.{unix_transfers, unix-Posix}
use hvac_arc.Tests.Shared.{Unix, unix, unix_files, unix_open, unix_nodes, others_first, others_then}

-- A machine that gives a new descriptor for each open.
abbrev counting : Host
counting = record machine { real_open = λ path flags mode w. (pos w, w + 1) }

abbrev opening : Opening
opening = record {
  path = data_file;
  flags = 0;
  mode = 0;
  full = data_file;
  address = codes "tcp:1";
  contents = text;
  fd = pos 10;
}

abbrev program : List (Between ℕ × Call)
program =
    (record { events = λ a. []; local = 9 }, opens opening)
    ∷ (record { events = λ a. others_first; local = 70 }, reads (pos 10) 1)
    ∷ (record { events = λ a. others_then; local = 7 }, reads (pos 10) 9)
    ∷ (record { events = λ a. []; local = 8 }, closes (pos 10))
    ∷ []

abbrev start : Process (Nodes ℕ Unix)
start = process_of (client unix_nodes)

start-Agrees : Agrees counting unix unix_files unix_open [] start
start-Agrees = record {
  mapped = refl;
  on = refl;
  quiet = refl;
  started = refl;
  old = [];
  buffered = refl;
  cached = λ a runs. tt;
  held = λ fd rest listed. absurd (unfold lookup in ground arith);
  apart = λ fd gd far rest other address listed. absurd (unfold lookup in ground arith);
}

only_far : (fd far : ℤ) → lookup fd ((pos 10, pos 5) ∷ []) ≡ some far → far ≢ pos 6
unfolding lookup
only_far fd far e same = ground arith

-- The other client's descriptor is 6, the program's is 5.
program-IsSound : IsSound counting unix unix_files unix_open program [] start
unfolding make wrap_open wrap_read wrap_close track_file lookup insert erase deliver_to serve
    run_callback happen_all happen on_table remote_read
program-IsSound = (
  (λ fd far address s. tt),
  record {
    knows = record { some_server = refl; posted = refl; quiet = refl };
    runs = refl;
    there = refl;
    own = 11;
    opens = refl;
    good = λ e. ground arith;
    fresh = refl;
    decided = unfold tracked_path in refl;
  },
  (
    (λ fd far address s. (tt, (only_far fd far s.tracks.redirected, tt))),
    ((λ missing. ground arith), ground arith),
    (
      (λ fd far address s. (only_far fd far s.tracks.redirected, (tt, (tt, tt)))),
      ((λ missing. ground arith), ground arith),
      ((λ fd far address s. tt), ((λ missing. ground arith), λ m. refl), tt),
    ),
  ),
)

make_all-on_table_example :
    (u : Process (Nodes ℕ Unix)) × (make_all counting unix unix_files unix_open program start
      ≡ returns (all_on_table program []) u)
make_all-on_table_example =
    make_all-on_table counting unix unix_files unix_open unix_transfers unix-Posix program [] start
      start-Agrees program-IsSound
