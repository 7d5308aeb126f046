-- ===== src/Text/Print.antt =====
-- Printing: %d.
use hvac_arc.Base.{
  ℕ, zero, suc, ◌+◌, ◌/◌, ◌%◌, ℤ, pos, negsuc, [], ◌∷◌, ◌++◌, if◌then◌else◌, ltb, Bytes,
}

-- The decimal digits of `n`, from at least `n + 1` rounds.
unfoldable pub digits : ℕ → ℕ → Bytes
digits zero n = []
digits (suc fuel) n =
    let more = digits fuel (n / 10) in
    if ltb n 10 then (b'0' + n) ∷ [] else more ++ (b'0' + n % 10) ∷ []

unfoldable pub print_int : ℤ → Bytes
unfolding digits
print_int (pos n) = digits (suc n) n
print_int (negsuc n) = b'-' ∷ digits (suc (suc n)) (suc n)
