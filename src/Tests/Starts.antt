-- ===== src/Tests/Starts.antt =====
-- Starting processes, and the wrappers on a tracked file.
use hvac_arc.Base.{
  false, ℕ, ◌≡◌, refl, pos, int_ord, true, false, none, some, if◌then◌else◌, Bytes, bytes_ord, ◌==◌,
  codes, stops, faults, state_of,
}
use hvac_arc.OrderedMap.{insert}
use hvac_arc.Text.{scan_int, skip_space, scan_unsigned}
use hvac_arc.CachePolicy.Init.{Env}
use hvac_arc.Client.{Client, tracked_path, track_file}
use hvac_arc.Startup.{client_init, data_dir_name}
use hvac_arc.Startup.Counting.{track_file-client_init}
use hvac_arc.Tests.Samples.{machine, client, data_file}

-- Every variable is the text `s`, but for the data directory, which is not set.
abbrev settings : Bytes → Env
settings s name = if name == data_dir_name then none else some s

abbrev unborn : Client ℕ
unborn = record (client 0) { initialized = false; disable_redirect = true; server_count = 0 }

track_file-client_init_example :
    let d = state_of (client_init (settings (codes "x")) unborn) in
    track_file machine data_file 0 (pos 3) d
    ≡ stops faults (record d { fd_map = insert (pos 3) data_file unborn.fd_map })
track_file-client_init_example =
    track_file-client_init machine (settings (codes "x")) unborn (codes "x") data_file data_file 0
      (pos 3) refl refl (unfold scan_int skip_space scan_unsigned in refl) refl
      (unfold client_init tracked_path in refl)
