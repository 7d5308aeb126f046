-- ===== src/Base/Int.antt =====
-- C's signed integers: descriptors, byte counts and return codes.
use Prim.Native.Nat.{ℕ, ◌-◌, ◌%◌, ◌^◌}
use mathlib.Core.Path.{◌≡◌}
use mathlib.Core.Logic.{◌↔◌, ◌⊎◌, ◌≢◌, inl, inr}
use mathlib.Core.Bool.{Bool, true, false}
use native.Mathlib.Omega.{arith}
use hvac_arc.Base.Tests.{ltb, eqb, eqb_iff, if◌then◌else◌, Ord, Bool-cases}

-- `negsuc n` is -(n + 1).
pub data ℤ : Type 0 where
  pos : ℕ → ℤ
  negsuc : ℕ → ℤ

abbrev pub minus_one : ℤ
minus_one = negsuc 0

abbrev pub ltz : ℤ → ℤ → Bool
ltz (pos a) (pos b) = ltb a b
ltz (pos a) (negsuc b) = false
ltz (negsuc a) (pos b) = true
ltz (negsuc a) (negsuc b) = ltb b a

abbrev pub eqz : ℤ → ℤ → Bool
eqz (pos a) (pos b) = eqb a b
eqz (pos a) (negsuc b) = false
eqz (negsuc a) (pos b) = false
eqz (negsuc a) (negsuc b) = eqb a b

pub eqz_iff : (a b : ℤ) → (eqz a b ≡ true) ↔ (a ≡ b)
eqz_iff a b = ground arith

pub eqz-cases : (a b : ℤ) → (a ≡ b) ⊎ (a ≢ b)
eqz-cases a b = elim (Bool-cases (eqz a b)) [
  | inl same ↦ inl ((eqz_iff a b).0 same)
  | inr other ↦ inr (λ e. ground (arith, eqz_iff a b))
]

pub ltz_irrefl : (a : ℤ) → ltz a a ≡ false
ltz_irrefl a = ground arith

pub ltz_trans : (a b c : ℤ) → ltz a b ≡ true → ltz b c ≡ true → ltz a c ≡ true
ltz_trans a b c p q = ground arith

pub ltz_total : (a b : ℤ) → eqz a b ≡ false → ltz a b ≡ false → ltz b a ≡ true
ltz_total a b p q = ground arith

instance abbrev pub int_ord : Ord ℤ
int_ord = record {
  lt = ltz;
  eq = eqz;
  eq_iff = eqz_iff;
  lt_irrefl = ltz_irrefl;
  lt_trans = ltz_trans;
  lt_total = ltz_total;
}

pub ltb_irrefl : (a : ℕ) → ltb a a ≡ false
ltb_irrefl a = ground arith

pub ltb_trans : (a b c : ℕ) → ltb a b ≡ true → ltb b c ≡ true → ltb a c ≡ true
ltb_trans a b c p q = ground arith

pub ltb_total : (a b : ℕ) → eqb a b ≡ false → ltb a b ≡ false → ltb b a ≡ true
ltb_total a b p q = ground arith

instance abbrev pub nat_ord : Ord ℕ
nat_ord = record {
  lt = ltb;
  eq = eqb;
  eq_iff = eqb_iff;
  lt_irrefl = ltb_irrefl;
  lt_trans = ltb_trans;
  lt_total = ltb_total;
}

-- The residue of a number modulo 2 ^ w.
abbrev pub bits : ℕ → ℤ → ℕ
bits w (pos n) = n % 2 ^ w
bits w (negsuc n) = 2 ^ w - 1 - n % 2 ^ w

-- Conversion to `int32_t`: the low 32 bits, read with their sign.
abbrev pub int32 : ℤ → ℤ
int32 z = let n = bits 32 z in if ltb n (2 ^ 31) then pos n else negsuc (2 ^ 32 - 1 - n)

pub int32_small : (n : ℕ) → ltb n (2 ^ 31) ≡ true → int32 (pos n) ≡ pos n
int32_small n h = ground arith
