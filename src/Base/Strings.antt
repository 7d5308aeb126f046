-- ===== src/Base/Strings.antt =====
-- Texts as the bytes that C and C++ see, ordered as `std::string` orders them.
use Prim.Native.Nat.{ℕ}
use Prim.Native.Char.{code}
use Prim.Native.String.{String}
use mathlib.Core.Path.{◌≡◌, refl}
use mathlib.Core.Logic.{◌↔◌}
use mathlib.Core.Bool.{Bool, true, false, ◌&&◌}
use mathlib.Core.List.{List, [], ◌∷◌}
use native.Mathlib.Omega.{arith}
use hvac_arc.Base.Tests.{ltb, eqb, if◌then◌else◌, Ord}

abbrev pub Bytes : Type 0
Bytes = List ℕ

-- The bytes of an ASCII text.
abbrev pub codes : String → Bytes
codes String.[] = []
codes (String.◌∷◌ c s) = code c ∷ codes s

abbrev pub eq_bytes : Bytes → Bytes → Bool
eq_bytes [] [] = true
eq_bytes [] (b ∷ t) = false
eq_bytes (a ∷ s) [] = false
eq_bytes (a ∷ s) (b ∷ t) = eqb a b && eq_bytes s t

abbrev pub lt_bytes : Bytes → Bytes → Bool
lt_bytes s [] = false
lt_bytes [] (b ∷ t) = true
lt_bytes (a ∷ s) (b ∷ t) =
    let rest = lt_bytes s t in if ltb a b then true else if eqb a b then rest else false

pub eq_bytes_refl : (s : Bytes) → eq_bytes s s ≡ true
eq_bytes_refl [] = refl
eq_bytes_refl (a ∷ s) = ground (arith, eq_bytes_refl s)

eq_bytes→eq : (s t : Bytes) → eq_bytes s t ≡ true → s ≡ t
eq_bytes→eq [] [] h = refl
eq_bytes→eq [] (b ∷ t) h = ground arith
eq_bytes→eq (a ∷ s) [] h = ground arith
eq_bytes→eq (a ∷ s) (b ∷ t) h = ground (arith, eq_bytes→eq s t)

pub eq_bytes_iff : (s t : Bytes) → (eq_bytes s t ≡ true) ↔ (s ≡ t)
eq_bytes_iff s t = (eq_bytes→eq s t, λ e. ground (arith, eq_bytes_refl s))

pub lt_bytes_irrefl : (s : Bytes) → lt_bytes s s ≡ false
lt_bytes_irrefl [] = refl
lt_bytes_irrefl (a ∷ s) = ground (arith, lt_bytes_irrefl s)

pub lt_bytes_trans :
    (s t u : Bytes) → lt_bytes s t ≡ true → lt_bytes t u ≡ true → lt_bytes s u ≡ true
lt_bytes_trans s t [] p q = ground arith
lt_bytes_trans s [] (c ∷ u) p q = ground arith
lt_bytes_trans [] (b ∷ t) (c ∷ u) p q = refl
lt_bytes_trans (a ∷ s) (b ∷ t) (c ∷ u) p q = ground (arith, lt_bytes_trans s t u)

pub lt_bytes_total :
    (s t : Bytes) → eq_bytes s t ≡ false → lt_bytes s t ≡ false → lt_bytes t s ≡ true
lt_bytes_total [] [] p q = ground arith
lt_bytes_total [] (b ∷ t) p q = ground arith
lt_bytes_total (a ∷ s) [] p q = refl
lt_bytes_total (a ∷ s) (b ∷ t) p q = ground (arith, lt_bytes_total s t)

instance abbrev pub bytes_ord : Ord Bytes
bytes_ord = record {
  lt = lt_bytes;
  eq = eq_bytes;
  eq_iff = eq_bytes_iff;
  lt_irrefl = lt_bytes_irrefl;
  lt_trans = lt_bytes_trans;
  lt_total = lt_bytes_total;
}

abbrev pub starts_with : Bytes → Bytes → Bool
starts_with [] t = true
starts_with (a ∷ s) [] = false
starts_with (a ∷ s) (b ∷ t) = eqb a b && starts_with s t

-- `strstr(t, s) != NULL`, and `t.find(s) != npos`.
abbrev pub contains : Bytes → Bytes → Bool
contains [] s = starts_with s []
contains (b ∷ t) s = let rest = contains t s in if starts_with s (b ∷ t) then true else rest
