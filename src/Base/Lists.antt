-- ===== src/Base/Lists.antt =====
-- Lengths over the native numbers.
use Prim.Native.Nat.{ℕ, zero, suc, ◌+◌, ◌≤◌}
use mathlib.Core.Path.{◌≡◌, ap, ◌∙◌}
use mathlib.Core.List.{List, [], ◌∷◌, ◌++◌}
use native.Mathlib.Omega.{arith}

module _ {ℓ} {A : Type ℓ} where
  abbrev pub length : List A → ℕ
  length [] = 0
  length (x ∷ xs) = suc (length xs)

  pub length-append : (xs ys : List A) → length (xs ++ ys) ≡ length xs + length ys
  length-append [] ys = omega arith
  length-append (x ∷ xs) ys = omega (arith, length-append xs ys)

  abbrev pub take : ℕ → List A → List A
  take zero xs = []
  take (suc n) [] = []
  take (suc n) (x ∷ xs) = x ∷ take n xs

  abbrev pub drop : ℕ → List A → List A
  drop zero xs = xs
  drop (suc n) [] = []
  drop (suc n) (x ∷ xs) = drop n xs

  pub length-take-le : (n : ℕ) (xs : List A) → length (take n xs) ≤ n
  length-take-le zero xs = omega arith
  length-take-le (suc n) [] = omega arith
  length-take-le (suc n) (x ∷ xs) = omega (arith, length-take-le n xs)

  pub take_add : (n m : ℕ) (xs : List A) → take (n + m) xs ≡ take n xs ++ take m (drop n xs)
  take_add zero m xs = let same : 0 + m ≡ m = omega arith in ap (λ (i : ℕ). take i xs) same
  take_add (suc n) zero [] =
      let same : suc n + 0 ≡ suc n = omega arith in ap (λ (i : ℕ). take i []) same
  take_add (suc n) (suc m) [] =
      let same : suc n + suc m ≡ suc (n + suc m) = omega arith in ap (λ (i : ℕ). take i []) same
  take_add (suc n) m (x ∷ xs) =
      let same : suc n + m ≡ suc (n + m) = omega arith in
      ap (λ (i : ℕ). take i (x ∷ xs)) same ∙ ap (λ v. x ∷ v) (take_add n m xs)
