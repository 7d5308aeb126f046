-- ===== src/Registry.antt =====
-- The file `./.ports.cfg.<job>`, by which clients find the servers: `hvac_comm_list_addr` of
-- hvac_comm.cpp writes it, and the loop of `hvac_client_comm_lookup_addr` in hvac_comm_client.cpp
-- reads it.
pub mod RoundTrip
pub mod Order
use hvac_arc.Base.{
  ℕ, zero, suc, ℤ, pos, int_ord, Bool, true, false, Option, none, some, List, [], ◌∷◌, ◌++◌,
  if◌then◌else◌, ◌==◌, Bytes, Prog, returns, stops, exits,
}
use hvac_arc.Text.{skip_space, scan_int, scan_word, print_int}

-- `fprintf(na_config, "%d %s\n", rank, address)`.
unfoldable pub line : ℤ → Bytes → Bytes
line rank address = print_int rank ++ b' ' ∷ (address ++ 10 ∷ [])

-- The state is the contents of the file, which is opened for appending. Without the file or its
-- lock the server ends.
unfoldable pub list_addr : Bool → Bool → ℤ → Bytes → Prog Bytes (Unit {0})
unfolding line
list_addr false locks rank address file = stops (exits (pos 0)) file
list_addr true false rank address file = stops (exits (pos 1)) file
list_addr true true rank address file = returns tt (file ++ line rank address)

-- `fscanf(na_config, "%d %s\n", &svr_rank, svr_str) == 2`, with what is left to read.
abbrev pub scan_address : Option (ℤ × Bytes) → Option (ℤ × Bytes × Bytes)
scan_address none = none
scan_address (some (rank, s)) = elim (scan_word (skip_space s)) [
  | none ↦ none
  | some (address, rest) ↦ some (rank, address, skip_space rest)
]

unfoldable pub scan_line : Bytes → Option (ℤ × Bytes × Bytes)
scan_line s = scan_address (scan_int s)

-- The loop, with the number of rounds that it may take. It ends at the first line of the rank.
unfoldable pub find_rank : ℕ → ℤ → Bytes → Option Bytes
unfolding scan_line
find_rank zero rank s = none
find_rank (suc fuel) rank s = elim (scan_line s) [
  | none ↦ none
  | some (r, address, rest) ↦ if r == rank then some address else find_rank fuel rank rest
]
