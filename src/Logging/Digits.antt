-- ===== src/Logging/Digits.antt =====
-- How many bytes `%d` takes for a number that is not negative.
use hvac_arc.Base.{
  ℕ, zero, suc, ◌+◌, ◌/◌, ◌%◌, ◌^◌, ◌<◌, ◌≤◌, ◌≡◌, pos, [], ◌∷◌, ltb, leb, length, length-append,
  Bool-cases, inl, inr, arith,
}
use hvac_arc.Text.{digits, print_int}

digits_nonempty : (fuel n : ℕ) → n < fuel → 0 < length (digits fuel n)
unfolding digits
digits_nonempty zero n h = absurd (omega arith)
digits_nonempty (suc fuel) n h = elim (Bool-cases (ltb n 10)) [
  | inl one ↦ rw one (ground arith)
  | inr more ↦ rw (more, length-append (digits fuel (n / 10)) ((b'0' + n % 10) ∷ [])) (ground arith)
]

-- A power of ten with at least one zero.
ten_le : (k : ℕ) → 10 ≤ 10 ^ suc k
ten_le zero = ground arith
ten_le (suc k) = omega (arith, ten_le k)

length-digits :
    (k fuel n : ℕ) → n < fuel → leb (length (digits fuel n)) (suc k) ≡ ltb n (10 ^ suc k)
unfolding digits
length-digits k zero n h = absurd (omega arith)
length-digits zero (suc fuel) n h = elim (Bool-cases (ltb n 10)) [
  | inl one ↦ rw one (ground arith)
  | inr more ↦ rw more (
      ground (
        arith,
        length-append (digits fuel (n / 10)) ((b'0' + n % 10) ∷ []),
        digits_nonempty fuel (n / 10),
      ))
]
length-digits (suc k) (suc fuel) n h = elim (Bool-cases (ltb n 10)) [
  | inl one ↦ rw one (ground (arith, ten_le (suc k)))
  | inr more ↦
      rw (more, length-append (digits fuel (n / 10)) ((b'0' + n % 10) ∷ []))
        (ground (arith, length-digits k fuel (n / 10), ten_le k))
]

pub length-print_int : (n : ℕ) → leb (length (print_int (pos n))) 5 ≡ ltb n 100000
unfolding print_int
length-print_int n = length-digits 4 (suc n) n (omega arith)
