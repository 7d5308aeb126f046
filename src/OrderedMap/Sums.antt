-- ===== src/OrderedMap/Sums.antt =====
-- Sums over the entries of a map.
use hvac_arc.Base.{ℕ, ◌+◌, ◌≡◌, refl, none, some, [], ◌∷◌, arith, Ord}
use hvac_arc.OrderedMap.Defs.{Map, lookup, insert, erase, IsSorted, total}
use hvac_arc.OrderedMap.Laws.{lookup-After, After-trans}

module _ {ℓ κ} {K : Type ℓ} {V : Type κ} ⦃o : Ord K⦄ (f : V → ℕ) where
  pub total-insert_new :
      (k : K) (v : V) (m : Map K V) → lookup k m ≡ none → total f (insert k v m) ≡ f v + total f m
  unfolding lookup insert
  total-insert_new k v [] h = refl
  total-insert_new k v ((j, w) ∷ m) h = ground (arith, total-insert_new k v m)

  pub total-insert_old :
      (k : K) (v w : V) (m : Map K V)
      → IsSorted m
      → lookup k m ≡ some w
      → total f (insert k v m) + f w ≡ total f m + f v
  unfolding lookup insert
  total-insert_old k v w [] s h = absurd (ground arith)
  total-insert_old k v w ((j, u) ∷ m) s h =
      ground (arith, total-insert_old k v w m s.1, lookup-After k m, After-trans k j m)

  total-erase-none : (k : K) (m : Map K V) → lookup k m ≡ none → total f (erase k m) ≡ total f m
  unfolding lookup erase
  total-erase-none k [] h = refl
  total-erase-none k ((j, u) ∷ m) h = ground (arith, total-erase-none k m)

  pub total-erase :
      (k : K) (w : V) (m : Map K V)
      → IsSorted m
      → lookup k m ≡ some w
      → total f (erase k m) + f w ≡ total f m
  unfolding lookup erase
  total-erase k w [] s h = absurd (ground arith)
  total-erase k w ((j, u) ∷ m) s h =
      ground (arith, o.eq_iff j k, total-erase k w m s.1, total-erase-none k m, lookup-After j m)
