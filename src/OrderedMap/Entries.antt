-- ===== src/OrderedMap/Entries.antt =====
-- The entries of a sorted map against its lookups.
use hvac_arc.Base.{◌≡◌, some, [], ◌∷◌, arith, Ord}
use hvac_arc.OrderedMap.Defs.{Map, lookup, AllEntries, After, IsSorted}
use hvac_arc.OrderedMap.Laws.{eq_refl}

module _ {ℓ κ} {K : Type ℓ} {V : Type κ} where
  pub AllEntries-map {μ ν} :
      (P : K → V → Type μ) (Q : K → V → Type ν) (m : Map K V)
      → ((k : K) (v : V) → P k v → Q k v)
      → AllEntries P m
      → AllEntries Q m
  AllEntries-map P Q [] f a = tt
  AllEntries-map P Q ((k, v) ∷ m) f a = (f k v a.0, AllEntries-map P Q m f a.1)

module _ {ℓ κ} {K : Type ℓ} {V : Type κ} ⦃o : Ord K⦄ where
  found_behind :
      (j : K) (w : V) (m rest : Map K V)
      → After j rest
      → AllEntries (λ k v. lookup k m ≡ some v) rest
      → AllEntries (λ k v. lookup k ((j, w) ∷ m) ≡ some v) rest
  unfolding lookup
  found_behind j w m [] a h = tt
  found_behind j w m ((k, v) ∷ rest) a h =
      (ground (arith, o.eq_iff j k, o.lt_irrefl k, a.0, h.0), found_behind j w m rest a.1 h.1)

  -- Every entry of a sorted map is found under its key.
  pub entries_found : (m : Map K V) → IsSorted m → AllEntries (λ k v. lookup k m ≡ some v) m
  unfolding lookup
  entries_found [] s = tt
  entries_found ((j, w) ∷ m) s =
      (ground (arith, eq_refl j), found_behind j w m m s.0 (entries_found m s.1))
