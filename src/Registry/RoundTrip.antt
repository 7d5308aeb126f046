-- ===== src/Registry/RoundTrip.antt =====
-- The lines of hvac_comm_list_addr, read by the loop of hvac_client_comm_lookup_addr.
use mathlib.Core.List.{append_assoc, append-nil}
use hvac_arc.Base.{
  ℕ, zero, suc, ◌+◌, ◌<◌, ◌≤◌, ◌≡◌, refl, sym, ap, ◌∙◌, ℤ, pos, negsuc, int_ord, length,
  length-append, true, Option, none, some, List, [], ◌∷◌, ◌++◌, if◌then◌else◌, ◌==◌, Bytes, arith,
  returns, Prog, pure, ◌>>◌,
}
use hvac_arc.Text.{
  skip_space, scan_int, scan_word, print_int, IsToken, scan_int-print_int, scan_word_token, digits,
  digits_start, starts_with_digit,
}
use hvac_arc.Registry.{line, list_addr, scan_line, find_rank}

-- Servers that post in this order.
pub record Server : Type 0 where
  pub rank : ℤ
  pub address : Bytes

abbrev pub Tokens : List Server → Type 0
Tokens [] = Unit
Tokens (s ∷ ss) = IsToken s.address × Tokens ss

unfoldable pub post_all : List Server → Prog Bytes (Unit {0})
post_all [] = pure tt
post_all (s ∷ ss) = do list_addr true true s.rank s.address; post_all ss

-- The first server of the list with the rank.
abbrev pub first_of_rank : ℤ → List Server → Option Bytes
first_of_rank rank [] = none
first_of_rank rank (s ∷ ss) = if s.rank == rank then some s.address else first_of_rank rank ss

abbrev lines : List Server → Bytes
lines [] = []
lines (s ∷ ss) = line s.rank s.address ++ lines ss

post_all-lines :
    (ss : List Server) (file : Bytes) → post_all ss file ≡ returns tt (file ++ lines ss)
unfolding post_all list_addr
post_all-lines [] file = ap (returns tt) (sym (append-nil file))
post_all-lines (s ∷ ss) file =
    post_all-lines ss (file ++ line s.rank s.address)
    ∙ ap (returns tt) (append_assoc file (line s.rank s.address) (lines ss))

line_tail :
    (rank : ℤ) (address rest : Bytes)
    → line rank address ++ rest ≡ print_int rank ++ b' ' ∷ (address ++ 10 ∷ rest)
unfolding line
line_tail rank address rest = simp append_assoc

skip_token : (s rest : Bytes) → IsToken s → skip_space (s ++ rest) ≡ s ++ rest
unfolding skip_space
skip_token [] rest h = absurd (h.1 refl)
skip_token (c ∷ s) rest h = ground arith

skip_digits :
    (fuel n : ℕ) (rest : Bytes)
    → n < fuel
    → skip_space (digits fuel n ++ rest) ≡ digits fuel n ++ rest
unfolding skip_space
skip_digits fuel n rest h = go (digits fuel n ++ rest) (digits_start fuel n rest h)
  where
    go : (s : Bytes) → starts_with_digit s ≡ true → skip_space s ≡ s
    go [] e = refl
    go (c ∷ s) e = ground arith

skip_print_int : (z : ℤ) (rest : Bytes) → skip_space (print_int z ++ rest) ≡ print_int z ++ rest
unfolding print_int
skip_print_int (pos n) rest = skip_digits (suc n) n rest (omega arith)
skip_print_int (negsuc n) rest = unfold skip_space in refl

skip_lines : (ss : List Server) → skip_space (lines ss) ≡ lines ss
skip_lines [] = unfold skip_space in refl
skip_lines (s ∷ ss) = rw line_tail (skip_print_int s.rank (b' ' ∷ (s.address ++ 10 ∷ lines ss)))

scan_address_part :
    (address : Bytes) (ss : List Server)
    → IsToken address
    → scan_word (skip_space (b' ' ∷ (address ++ 10 ∷ lines ss))) ≡ some (address, 10 ∷ lines ss)
scan_address_part address ss h =
    rw (blank, skip_token address (10 ∷ lines ss) h) (scan_word_token address (lines ss) 10 h refl)
  where
    blank : skip_space (b' ' ∷ (address ++ 10 ∷ lines ss)) ≡ skip_space (address ++ 10 ∷ lines ss)
    blank = unfold skip_space in refl

skip_newline : (ss : List Server) → skip_space (10 ∷ lines ss) ≡ lines ss
unfolding skip_space
skip_newline ss = skip_lines ss

-- One line is read back whole, up to the next.
scan_line-line :
    (rank : ℤ) (address : Bytes) (ss : List Server)
    → IsToken address
    → scan_line (line rank address ++ lines ss) ≡ some (rank, address, lines ss)
unfolding scan_line
scan_line-line rank address ss h = rw line_tail (
    ground (
      arith,
      scan_int-print_int rank (b' ' ∷ (address ++ 10 ∷ lines ss)) refl,
      scan_address_part address ss h,
      skip_newline ss,
    ))

find_rank-lines :
    (ss : List Server) (fuel : ℕ) (rank : ℤ)
    → Tokens ss
    → length ss < fuel
    → find_rank fuel rank (lines ss) ≡ first_of_rank rank ss
unfolding find_rank
find_rank-lines ss zero rank t h = absurd (omega arith)
find_rank-lines [] (suc fuel) rank t h = unfold scan_line scan_int skip_space in refl
find_rank-lines (s ∷ ss) (suc fuel) rank t h =
    ground (arith, scan_line-line s.rank s.address ss t.0, find_rank-lines ss fuel rank t.1)

-- The rounds that the file's length allows are enough.
append_cons-positive : (s t : Bytes) (c : ℕ) → 0 < length (s ++ c ∷ t)
append_cons-positive s t c = omega (arith, length-append s (c ∷ t))

line-positive : (rank : ℤ) (address : Bytes) → 0 < length (line rank address)
unfolding line
line-positive rank address = append_cons-positive (print_int rank) (address ++ 10 ∷ []) b' '

lines-long : (ss : List Server) → length ss ≤ length (lines ss)
lines-long [] = omega arith
lines-long (s ∷ ss) =
    rw (length-append (line s.rank s.address) (lines ss))
      (omega (arith, line-positive s.rank s.address, lines-long ss))

-- Servers post one after the other in a file that was empty, each under the file's lock, with
-- addresses that are not empty and hold no white space. Then a client that reads the file finds,
-- for each rank, the address that the first server of that rank posted, and nothing for any other
-- rank; as many rounds as the file has bytes, and one, are enough.
pub find_rank-post_all :
    (ss : List Server) (rank : ℤ)
    → Tokens ss
    → (file : Bytes) × (post_all ss [] ≡ returns tt file)
      × (find_rank (length file + 1) rank file ≡ first_of_rank rank ss)
find_rank-post_all ss rank t = (
  lines ss,
  post_all-lines ss [],
  find_rank-lines ss (length (lines ss) + 1) rank t (omega (arith, lines-long ss)),
)
