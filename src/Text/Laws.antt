-- ===== src/Text/Laws.antt =====
-- Texts that are printed and then scanned.
use mathlib.Core.List.{append_assoc}
use hvac_arc.Base.{
  ℕ, zero, suc, ◌+◌, ◌-◌, ◌*◌, ◌/◌, ◌%◌, ◌<◌, ◌≡◌, ◌≢◌, refl, ap, ◌∙◌, ℤ, pos, negsuc, true, false,
  some, [], ◌∷◌, ◌++◌, ltb, Bytes, arith, inl, inr, Bool-cases,
}
use hvac_arc.Text.Scan.{
  is_space, skip_space, read_digits, starts_with_digit, scan_unsigned, scan_int, read_word,
  scan_word,
}
use hvac_arc.Text.Print.{digits, print_int}

-- A text that begins with no digit.
abbrev pub StartsOther : Bytes → Type 0
StartsOther s = starts_with_digit s ≡ false

read_digits_other : (acc : ℕ) (s : Bytes) → StartsOther s → read_digits acc s ≡ (acc, s)
unfolding read_digits
read_digits_other acc [] h = refl
read_digits_other acc (c ∷ s) h = ground arith

read_digits_step :
    (acc d : ℕ) (s : Bytes)
    → d < 10
    → read_digits acc ((b'0' + d) ∷ s) ≡ read_digits (acc * 10 + d) s
unfolding read_digits
read_digits_step acc d s h = let same : b'0' + d - b'0' ≡ d = omega arith in rw same (ground arith)

-- The digits of a number read back as the number, and what follows is read after them.
read_digits-digits :
    (fuel n : ℕ) (s : Bytes) → n < fuel → read_digits 0 (digits fuel n ++ s) ≡ read_digits n s
unfolding digits
read_digits-digits zero n s h = absurd (omega arith)
read_digits-digits (suc fuel) n s h = elim (Bool-cases (ltb n 10)) [
  | inl one ↦
      rw one (read_digits_step 0 n s (ground arith) ∙ ap (λ (a : ℕ). read_digits a s) (omega arith))
  | inr more ↦
      rw (more, append_assoc (digits fuel (n / 10)) ((b'0' + n % 10) ∷ []) s)
        (read_digits-digits fuel (n / 10) ((b'0' + n % 10) ∷ s) (ground arith)
          ∙ read_digits_step (n / 10) (n % 10) s (omega arith)
          ∙ ap (λ (a : ℕ). read_digits a s) (omega arith))
]

pub digits_start :
    (fuel n : ℕ) (s : Bytes) → n < fuel → starts_with_digit (digits fuel n ++ s) ≡ true
unfolding digits
digits_start zero n s h = absurd (omega arith)
digits_start (suc fuel) n s h = elim (Bool-cases (ltb n 10)) [
  | inl one ↦ rw one (ground arith)
  | inr more ↦
      rw (more, append_assoc (digits fuel (n / 10)) ((b'0' + n % 10) ∷ []) s)
        (digits_start fuel (n / 10) ((b'0' + n % 10) ∷ s) (ground arith))
]

scan_unsigned-digits :
    (fuel n : ℕ) (s : Bytes)
    → n < fuel
    → StartsOther s
    → scan_unsigned (digits fuel n ++ s) ≡ some (n, s)
unfolding scan_unsigned
scan_unsigned-digits fuel n s h other =
    rw (digits_start fuel n s h, read_digits-digits fuel n s h, read_digits_other n s other)

-- A text that begins with a digit is read as an unsigned number.
scan_int_unsigned :
    (s rest : Bytes) (n : ℕ)
    → starts_with_digit s ≡ true
    → scan_unsigned s ≡ some (n, rest)
    → scan_int s ≡ some (pos n, rest)
unfolding scan_int skip_space
scan_int_unsigned [] rest n h e = ground arith
scan_int_unsigned (c ∷ s) rest n h e = ground arith

-- What `%d` prints, `%d` reads back, and it stops where no digit follows.
pub scan_int-print_int :
    (z : ℤ) (s : Bytes) → StartsOther s → scan_int (print_int z ++ s) ≡ some (z, s)
unfolding print_int
scan_int-print_int (pos n) s h =
    scan_int_unsigned (digits (suc n) n ++ s) s n (digits_start (suc n) n s (omega arith))
      (scan_unsigned-digits (suc n) n s (omega arith) h)
scan_int-print_int (negsuc n) s h =
    unfold scan_int skip_space in
    rw (scan_unsigned-digits (suc (suc n)) (suc n) s (omega arith) h) (ground arith)

-- A text that `%s` reads whole: not empty, with no white space.
abbrev pub NoSpace : Bytes → Type 0
NoSpace [] = Unit
NoSpace (c ∷ s) = (is_space c ≡ false) × NoSpace s

abbrev pub IsToken : Bytes → Type 0
IsToken s = NoSpace s × (s ≢ [])

read_word_token :
    (w s : Bytes) (c : ℕ) → NoSpace w → is_space c ≡ true → read_word (w ++ c ∷ s) ≡ (w, c ∷ s)
unfolding read_word
read_word_token [] s c h sp = ground arith
read_word_token (b ∷ w) s c h sp = ground (arith, read_word_token w s c h.1)

skip_space_token : (w s : Bytes) → IsToken w → skip_space (w ++ s) ≡ w ++ s
unfolding skip_space
skip_space_token [] s h = absurd (h.1 refl)
skip_space_token (b ∷ w) s h = ground arith

-- `%s` reads such a text up to the white space behind it.
pub scan_word_token :
    (w s : Bytes) (c : ℕ) → IsToken w → is_space c ≡ true → scan_word (w ++ c ∷ s) ≡ some (w, c ∷ s)
unfolding scan_word
scan_word_token [] s c h sp = absurd (h.1 refl)
scan_word_token (b ∷ w) s c h sp =
    rw (skip_space_token (b ∷ w) (c ∷ s) h, read_word_token (b ∷ w) s c h.0 sp) refl
