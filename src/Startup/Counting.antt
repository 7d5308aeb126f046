-- ===== src/Startup/Counting.antt =====
-- The number of servers that a client is told.
use mathlib.Core.List.{append-nil}
use hvac_arc.Base.{
  ℕ, ◌^◌, ◌<◌, ◌≡◌, refl, sym, ap, ◌∙◌, ℤ, pos, int_ord, int32_small, true, false, none, some, [],
  Bytes, returns, stops, faults, state_of, ◌>>◌, arith,
}
use hvac_arc.OrderedMap.{insert, index, lookup-insert_self}
use hvac_arc.Text.{atoi, scan_int, print_int, scan_int-print_int}
use hvac_arc.CachePolicy.Init.{Env}
use hvac_arc.Host.{Host}
use hvac_arc.Client.{Client, tracked_path, track_file, open_remote, start_mercury, path_at, host_of}
use hvac_arc.Startup.Defs.{client_init, or_before, server_count_name, data_dir_name}

-- A number that fits in an `int` is read back from its text.
pub atoi-print_int : (n : ℕ) → n < 2 ^ 31 → atoi (print_int (pos n)) ≡ pos n
unfolding atoi
atoi-print_int n small =
    let whole : scan_int (print_int (pos n)) ≡ some (pos n, []) =
      ap scan_int (sym (append-nil (print_int (pos n)))) ∙ scan_int-print_int (pos n) [] refl in
    rw (whole, atoi) (int32_small n (ground (arith, small)))

module _ {W : Type 0} (getenv : Env) (c : Client W) where
  -- Run for the first time, the constructor turns redirection on, with the number of servers that
  -- HVAC_SERVER_COUNT says, if it is below 2 ^ 31, and the data directory of HVAC_DATA_DIR, or the
  -- former one; run again, it changes nothing.
  pub client_init_lem :
      (n : ℕ)
      → n < 2 ^ 31
      → c.initialized ≡ false
      → getenv server_count_name ≡ some (print_int (pos n))
      → let d = record c {
        server_count = n;
        data_dir = or_before (getenv data_dir_name) c.data_dir;
        initialized = true;
        disable_redirect = false;
      } in
        (client_init getenv c ≡ returns tt d)
        × ((client_init getenv >> client_init getenv) c ≡ returns tt d)
  unfolding client_init
  client_init_lem n small new count =
      (ground (arith, atoi-print_int n small), ground (arith, atoi-print_int n small))

-- If HVAC_SERVER_COUNT is no number, the constructor counts 0 servers, and the first file that is
-- tracked, once Mercury is started, makes the client divide by zero.
pub track_file-client_init :
    (h : Host) (getenv : Env) (c : Client h.World) (text path full : Bytes) (flags : ℕ) (fd : ℤ)
    → c.initialized ≡ false
    → getenv server_count_name ≡ some text
    → scan_int text ≡ none
    → c.mercury_init ≡ true
    → let d = state_of (client_init getenv c) in
      tracked_path h d path flags ≡ some full
      → track_file h path flags fd d ≡ stops faults (record d { fd_map = insert fd full c.fd_map })
unfolding client_init track_file open_remote start_mercury path_at index host_of atoi
track_file-client_init h getenv c text path full flags fd new count bad started decided =
    ground (arith, lookup-insert_self fd full c.fd_map)
