-- ===== src/Tests/Calls.antt =====
-- Calls of the wrappers.
use hvac_arc.Base.{
  ℕ, ◌+◌, ◌≡◌, refl, pos, int_ord, true, some, List, [], ◌∷◌, Bytes, codes, stops, aborts, arith,
}
use hvac_arc.OrderedMap.{lookup, insert}
use hvac_arc.Text.{scan_int, skip_space, scan_unsigned, scan_word, read_word, read_digits}
use hvac_arc.Registry.{find_rank}
use hvac_arc.Host.{Host}
use hvac_arc.Client.{Client, tracked_path}
use hvac_arc.Wrappers.{wrap_open}
use hvac_arc.Wrappers.Tallies.{
  WrapperCall, open_call, close_call, read_call, pread_call, made, count_if, is_tracked_open,
  is_data_open, is_system_open, is_close, is_read, is_pread,
}
use hvac_arc.Wrappers.Export.{report, export_stats_to_file, made-export_stats_to_file}
use hvac_arc.Wrappers.Unposted.{wrap_open-Unposted}
use hvac_arc.Tests.Samples.{machine, client, data_file, process_of}

-- A client that remembers no address, where only the server of another rank has posted.
abbrev early_machine : Host
early_machine = record machine { config_file = λ w. some (codes "12 tcp:2\n") }

abbrev early_client : ℕ → Client ℕ
early_client w = record (client w) { address_cache = [] }

wrap_open-Unposted_example :
    wrap_open early_machine data_file 0 0 (process_of (early_client 0))
    ≡ stops aborts
        (process_of (record (early_client 2) { fd_map = insert (pos 3) data_file []; done = 0 }))
unfolding scan_int skip_space scan_unsigned scan_word read_word read_digits
wrap_open-Unposted_example =
    wrap_open-Unposted early_machine (process_of (early_client 0)) data_file data_file 0 0 (pos 3) 2
      (some (codes "12 tcp:2\n")) refl refl refl (λ e. ground arith) refl
      (unfold tracked_path in refl)
      (record {
        some_server = refl;
        unknown = unfold lookup in refl;
        reads = refl;
        unposted = unfold find_rank in refl;
      })

abbrev calls : List WrapperCall
calls =
    open_call data_file 0 0
    ∷ read_call (pos 3) 9
    ∷ read_call (pos 4) 2
    ∷ pread_call (pos 3) 1 (pos 1)
    ∷ close_call (pos 3)
    ∷ []

-- A rendering of the times.
abbrev no_time : ℕ → Bytes
no_time n = codes "0.000000"

made-export_stats_to_file_example :
    let (done, q) = made machine calls (process_of (client 0)) in
    export_stats_to_file no_time true q
    ≡ some (
        report no_time
          (record {
            tracked_opens = 0 + count_if is_tracked_open done;
            data_opens = 0 + count_if is_data_open done;
            system_opens = 0 + count_if is_system_open done;
            closes = 0 + count_if is_close done;
            reads = 0 + count_if is_read done;
            preads = 0 + count_if is_pread done;
          })
          q)
made-export_stats_to_file_example =
    made-export_stats_to_file no_time machine calls (process_of (client 0))
