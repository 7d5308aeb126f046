-- ===== src/Text/Scan.antt =====
-- Reading: white space, decimal numbers, words.
use hvac_arc.Base.{
  ℕ, ◌+◌, ◌-◌, ◌*◌, ℤ, pos, negsuc, Bool, false, ◌&&◌, ◌||◌, Option, none, some, [], ◌∷◌,
  if◌then◌else◌, ltb, leb, eqb, Bytes, word, int32,
}

-- `isspace`: blank, and 9 to 13.
abbrev pub is_space : ℕ → Bool
is_space c = eqb c 32 || (leb 9 c && leb c 13)

abbrev pub is_digit : ℕ → Bool
is_digit c = leb b'0' c && leb c b'9'

unfoldable pub skip_space : Bytes → Bytes
skip_space [] = []
skip_space (c ∷ s) = if is_space c then skip_space s else c ∷ s

unfoldable pub read_digits : ℕ → Bytes → ℕ × Bytes
read_digits acc [] = (acc, [])
read_digits acc (c ∷ s) =
    let more = read_digits (acc * 10 + (c - b'0')) s in if is_digit c then more else (acc, c ∷ s)

abbrev pub starts_with_digit : Bytes → Bool
starts_with_digit [] = false
starts_with_digit (c ∷ s) = is_digit c

unfoldable pub scan_unsigned : Bytes → Option (ℕ × Bytes)
scan_unsigned s = if starts_with_digit s then some (read_digits 0 s) else none

abbrev pub negate : ℕ → ℤ
negate n = if eqb n 0 then pos 0 else negsuc (n - 1)

abbrev pub positive : Option (ℕ × Bytes) → Option (ℤ × Bytes)
positive none = none
positive (some (n, s)) = some (pos n, s)

abbrev pub negative : Option (ℕ × Bytes) → Option (ℤ × Bytes)
negative none = none
negative (some (n, s)) = some (negate n, s)

abbrev pub scan_signed : Bytes → Option (ℤ × Bytes)
scan_signed [] = none
scan_signed (c ∷ s) =
    if eqb c b'-'
    then negative (scan_unsigned s)
    else if eqb c b'+'
    then positive (scan_unsigned s)
    else positive (scan_unsigned (c ∷ s))

-- %d
unfoldable pub scan_int : Bytes → Option (ℤ × Bytes)
scan_int s = scan_signed (skip_space s)

unfoldable pub read_word : Bytes → Bytes × Bytes
read_word [] = ([], [])
read_word (c ∷ s) = let (w, rest) = read_word s in if is_space c then ([], c ∷ s) else (c ∷ w, rest)

abbrev pub nonempty : Bytes × Bytes → Option (Bytes × Bytes)
nonempty ([], s) = none
nonempty (c ∷ w, s) = some (c ∷ w, s)

-- %s
unfoldable pub scan_word : Bytes → Option (Bytes × Bytes)
scan_word s = nonempty (read_word (skip_space s))

-- `atoi`: 0 where no number stands.
unfoldable pub atoi : Bytes → ℤ
atoi s = elim (scan_int s) [ none ↦ pos 0 | some (z, rest) ↦ int32 z ]

-- `std::stoull`: it throws where no number stands or the number is no 64-bit word, and a minus sign
-- negates modulo 2 ^ 64.
unfoldable pub stoull : Bytes → Option ℕ
stoull s = elim (scan_int s) [
  | none ↦ none
  | some (pos n, rest) ↦ if ltb n word then some n else none
  | some (negsuc n, rest) ↦ if ltb (n + 1) word then some (word - (n + 1)) else none
]
