-- ===== src/OrderedMap/Laws.antt =====
-- What the operations of a map do to a lookup, to the order of the keys, and to a property of all
-- entries.
use hvac_arc.Base.{◌≡◌, refl, ◌≢◌, true, none, some, [], ◌∷◌, arith, if◌then◌else◌, Ord, ◌==◌}
use hvac_arc.OrderedMap.Defs.{Map, lookup, insert, erase, AllEntries, After, IsSorted}

pub eq_refl {ℓ} : {K : Type ℓ} ⦃o : Ord K⦄ (k : K) → (k == k) ≡ true
eq_refl ⦃o⦄ k = (o.eq_iff k k).1 refl

module _ {ℓ κ} {K : Type ℓ} {V : Type κ} ⦃o : Ord K⦄ where
  pub lookup-insert :
      (j k : K) (v : V) (m : Map K V)
      → lookup j (insert k v m) ≡ (if k == j then some v else lookup j m)
  unfolding lookup insert
  lookup-insert j k v [] = refl
  lookup-insert j k v ((i, w) ∷ m) =
      ground (arith, o.eq_iff k j, o.eq_iff i k, o.eq_iff i j, lookup-insert j k v m)

  pub lookup-erase :
      (j k : K) (m : Map K V) → lookup j (erase k m) ≡ (if k == j then none else lookup j m)
  unfolding lookup erase
  lookup-erase j k [] = ground arith
  lookup-erase j k ((i, w) ∷ m) =
      ground (arith, o.eq_iff k j, o.eq_iff i k, o.eq_iff i j, lookup-erase j k m)

  pub lookup-insert_self : (k : K) (v : V) (m : Map K V) → lookup k (insert k v m) ≡ some v
  lookup-insert_self k v m = ground (arith, lookup-insert k k v m, eq_refl k)

  pub lookup-insert_ne :
      (j k : K) (v : V) (m : Map K V) → j ≢ k → lookup j (insert k v m) ≡ lookup j m
  lookup-insert_ne j k v m h = ground (arith, lookup-insert j k v m, o.eq_iff k j)

  pub lookup-erase_self : (k : K) (m : Map K V) → lookup k (erase k m) ≡ none
  lookup-erase_self k m = ground (arith, lookup-erase k k m, eq_refl k)

  pub lookup-erase_ne : (j k : K) (m : Map K V) → j ≢ k → lookup j (erase k m) ≡ lookup j m
  lookup-erase_ne j k m h = ground (arith, lookup-erase j k m, o.eq_iff k j)

  pub erase_missing : (k : K) (m : Map K V) → lookup k m ≡ none → erase k m ≡ m
  unfolding lookup erase
  erase_missing k [] e = refl
  erase_missing k ((j, w) ∷ m) e = ground (arith, erase_missing k m)

  -- Taking a new key out again gives the map back.
  pub erase-insert : (k : K) (v : V) (m : Map K V) → lookup k m ≡ none → erase k (insert k v m) ≡ m
  unfolding lookup insert erase
  erase-insert k v [] e = ground (arith, eq_refl k)
  erase-insert k v ((j, w) ∷ m) e = ground (arith, eq_refl k, erase-insert k v m, erase_missing k m)

  pub After-insert :
      (i k : K) (v : V) (m : Map K V) → o.lt i k ≡ true → After i m → After i (insert k v m)
  unfolding insert
  After-insert i k v [] h a = (h, tt)
  After-insert i k v ((j, w) ∷ m) h a = ground (arith, After-insert i k v m h a.1)

  pub After-erase : (i k : K) (m : Map K V) → After i m → After i (erase k m)
  unfolding erase
  After-erase i k [] a = tt
  After-erase i k ((j, w) ∷ m) a = ground (arith, After-erase i k m a.1)

  pub After-trans : (i k : K) (m : Map K V) → o.lt i k ≡ true → After k m → After i m
  After-trans i k [] h a = tt
  After-trans i k ((j, w) ∷ m) h a = (o.lt_trans i k j h a.0, After-trans i k m h a.1)

  pub insert-IsSorted : (k : K) (v : V) (m : Map K V) → IsSorted m → IsSorted (insert k v m)
  unfolding insert
  insert-IsSorted k v [] s = (tt, tt)
  insert-IsSorted k v ((j, w) ∷ m) s = ground (
    arith,
    o.eq_iff j k,
    insert-IsSorted k v m s.1,
    o.lt_total k j,
    o.eq_iff k j,
    After-insert j k v m,
    After-trans k j m,
  )

  pub erase-IsSorted : (k : K) (m : Map K V) → IsSorted m → IsSorted (erase k m)
  unfolding erase
  erase-IsSorted k [] s = tt
  erase-IsSorted k ((j, w) ∷ m) s = ground (arith, erase-IsSorted k m s.1, After-erase j k m s.0)

  pub lookup-After : (k : K) (m : Map K V) → After k m → lookup k m ≡ none
  unfolding lookup
  lookup-After k [] a = refl
  lookup-After k ((j, w) ∷ m) a = ground (arith, o.eq_iff j k, o.lt_irrefl k, lookup-After k m a.1)

module _ {ℓ κ μ} {K : Type ℓ} {V : Type κ} (P : K → V → Type μ) ⦃o : Ord K⦄ where
  pub AllEntries-insert :
      (k : K) (v : V) (m : Map K V) → P k v → AllEntries P m → AllEntries P (insert k v m)
  unfolding insert
  AllEntries-insert k v [] p a = (p, tt)
  AllEntries-insert k v ((j, w) ∷ m) p a = ground (arith, AllEntries-insert k v m p a.1)

  pub AllEntries-erase : (k : K) (m : Map K V) → AllEntries P m → AllEntries P (erase k m)
  unfolding erase
  AllEntries-erase k [] a = tt
  AllEntries-erase k ((j, w) ∷ m) a = ground (arith, AllEntries-erase k m a.1)

  pub AllEntries-lookup :
      (k : K) (m : Map K V) (v : V) → AllEntries P m → lookup k m ≡ some v → P k v
  unfolding lookup
  AllEntries-lookup k [] v a h = absurd (ground arith)
  AllEntries-lookup k ((j, w) ∷ m) v a h = ground (arith, o.eq_iff j k, AllEntries-lookup k m v a.1)
