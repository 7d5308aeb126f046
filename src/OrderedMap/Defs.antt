-- ===== src/OrderedMap/Defs.antt =====
-- The operations of `std::map` that the program calls, on the list of the entries.
use hvac_arc.Base.{
  ℕ, ◌+◌, Bool, true, false, Option, none, some, List, [], ◌∷◌, if◌then◌else◌, Ord, ◌==◌, ◌≡◌,
}

abbrev pub Map {ℓ κ} : Type ℓ → Type κ → Type (ℓ ⊔ κ)
Map K V = List (K × V)

module _ {ℓ κ} {K : Type ℓ} {V : Type κ} ⦃o : Ord K⦄ where
  -- `find`.
  unfoldable pub lookup : K → Map K V → Option V
  lookup k [] = none
  lookup k ((j, v) ∷ m) = if j == k then some v else lookup k m

  -- `find(k) != end()`.
  abbrev pub member : K → Map K V → Bool
  member k m = elim (lookup k m) [ none ↦ false | some _ ↦ true ]

  -- `m[k] = v`.
  unfoldable pub insert : K → V → Map K V → Map K V
  insert k v [] = (k, v) ∷ []
  insert k v ((j, w) ∷ m) =
      let rest = insert k v m in
      if j == k then (k, v) ∷ m else if o.lt k j then (k, v) ∷ (j, w) ∷ m else (j, w) ∷ rest

  unfoldable pub erase : K → Map K V → Map K V
  erase k [] = []
  erase k ((j, v) ∷ m) = let rest = erase k m in if j == k then rest else (j, v) ∷ rest

  -- `m[k]` where it is read: a missing key is first given the value `d`.
  unfoldable pub index : V → K → Map K V → V × Map K V
  index d k m = elim (lookup k m) [ some v ↦ (v, m) | none ↦ (d, insert k d m) ]

-- A property of every entry.
abbrev pub AllEntries {ℓ κ μ} : {K : Type ℓ} {V : Type κ} → (K → V → Type μ) → Map K V → Type μ
AllEntries P [] = Unit
AllEntries P ((k, v) ∷ m) = P k v × AllEntries P m

-- Every key of the map is after `k`.
abbrev pub After {ℓ κ} : {K : Type ℓ} {V : Type κ} → ⦃o : Ord K⦄ → K → Map K V → Type 0
After ⦃o⦄ k [] = Unit
After ⦃o⦄ k ((j, v) ∷ m) = (o.lt k j ≡ true) × After k m

abbrev pub IsSorted {ℓ κ} : {K : Type ℓ} {V : Type κ} → ⦃o : Ord K⦄ → Map K V → Type 0
IsSorted ⦃o⦄ [] = Unit
IsSorted ⦃o⦄ ((k, v) ∷ m) = After k m × IsSorted m

abbrev pub total {ℓ κ} : {K : Type ℓ} {V : Type κ} → (V → ℕ) → Map K V → ℕ
total f [] = 0
total f ((k, v) ∷ m) = f v + total f m
