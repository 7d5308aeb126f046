-- ===== src/CachePolicy/Keeps.antt =====
-- Rules for properties of the globals that every call keeps, however it ends.
use hvac_arc.Base.{
  ℕ, pos, ◌≡◌, refl, inl, inr, Bool, true, false, none, some, List, [], ◌∷◌, if◌then◌else◌, Bytes,
  bytes_ord, eq_bytes, leb, Prog, Outcome, returns, stops, hangs, pure, ◌>>=◌, continue, state_of,
  Bool-cases, Option-cases,
}
use hvac_arc.OrderedMap.{lookup, insert, erase}
use hvac_arc.CachePolicy.Defs.{Policy, FileMeta, Tier, unlock, with_lock, same_tier}
use hvac_arc.CachePolicy.Calls.{
  add_file, add_file_locked, place, update_access, update_access_locked, move_to, update_tier,
  update_tier_locked, set_open_state, set_open_state_locked, get_tier, get_tier_locked, release,
  remove_file, remove_file_locked, get_usage_bytes, get_usage_bytes_locked,
}
use hvac_arc.CachePolicy.Eviction.{
  select_victim, select_victim_locked, evict_victim, evict_chosen, evict_if_needed,
  evict_if_needed_locked,
}
use hvac_arc.CachePolicy.History.{
  Call, add, accessed, moved, opened, asked, moved_out, selects, evicts, measured, step, run,
}

-- `P` holds of the globals after a call, if it held before.
abbrev pub Keeps {ℓ κ} : {A : Type ℓ} → (Policy → Type κ) → Prog Policy A → Type κ
Keeps P m = (p : Policy) → P p → P (state_of (m p))

abbrev pub All {ℓ} : (Call → Type ℓ) → List Call → Type ℓ
All P [] = Unit
All P (c ∷ cs) = P c × All P cs

-- A call whose size, if it has one, is as `Q` says.
abbrev pub Sized : (ℕ → Type 0) → Call → Type 0
Sized Q (add path size) = Q size
Sized Q _ = Unit

-- A property that the four changes of hvac_cache_policy.cpp keep.
pub record IsKept (Q : ℕ → Type 0) (P : Policy → Type 0) : Type 0 where
  pub relock : (p : Policy) (b : Bool) → P p → P (record p { locked = b })
  pub places :
      (path : Bytes) (size : ℕ) (p : Policy)
      → Q size
      → lookup path p.files ≡ none
      → P p
      → P (place path size p)
  pub updates :
      (path : Bytes) (p : Policy) (meta new : FileMeta)
      → lookup path p.files ≡ some meta
      → new.path ≡ meta.path
      → new.current_tier ≡ meta.current_tier
      → new.size ≡ meta.size
      → P p
      → P (record p { files = insert path new p.files })
  pub moves :
      (path : Bytes) (p : Policy) (meta : FileMeta) (tier : Tier)
      → lookup path p.files ≡ some meta
      → P p
      → P (state_of (move_to tier path meta p))
  pub releases :
      (path : Bytes) (p : Policy) (meta : FileMeta)
      → lookup path p.files ≡ some meta
      → P p
      → P (record (release meta p) { files = erase path (release meta p).files })

module _ {ℓ} (P : Policy → Type ℓ) where
  pub state_of-unlock {κ} :
      {A : Type κ} (r : Outcome Policy A)
      → ((p : Policy) (b : Bool) → P p → P (record p { locked = b }))
      → P (state_of r)
      → P (state_of (unlock r))
  state_of-unlock (returns a p) relock h = relock p false h
  state_of-unlock (stops e p) relock h = h

  pub Keeps-with_lock {κ} :
      {A : Type κ} (body : Prog Policy A)
      → ((p : Policy) (b : Bool) → P p → P (record p { locked = b }))
      → Keeps P body
      → Keeps P (with_lock body)
  Keeps-with_lock body relock keep p h = go p.locked
    where
      taken : Policy
      taken = record p { locked = true }

      go : (b : Bool) → P (state_of (if b then stops hangs p else unlock (body taken)))
      go true = h
      go false = state_of-unlock (body taken) relock (keep taken (relock p true h))

  pub Keeps-bind {κ μ} :
      {A : Type κ} {B : Type μ} (m : Prog Policy A) (f : A → Prog Policy B)
      → Keeps P m
      → ((a : A) → Keeps P (f a))
      → Keeps P (m >>= f)
  Keeps-bind m f keep rest p h = go (m p) (keep p h)
    where
      go : (r : Outcome Policy _) → P (state_of r) → P (state_of (continue f r))
      go (returns a q) k = rest a q k
      go (stops e q) k = k

module _ {Q : ℕ → Type 0} {P : Policy → Type 0} (k : IsKept Q P) where
  add_file-Keeps : (path : Bytes) (size : ℕ) → Q size → Keeps P (add_file path size)
  unfolding add_file
  add_file-Keeps path size q = Keeps-with_lock P (add_file_locked path size) k.relock λ p h.
      elim (Option-cases (lookup path p.files)) [
        | inl new ↦ rw (new, add_file_locked) (k.places path size p q new h)
        | inr (meta, old) ↦ rw (old, add_file_locked) h
      ]

  update_access-Keeps : (path : Bytes) → Keeps P (update_access path)
  unfolding update_access
  update_access-Keeps path = Keeps-with_lock P (update_access_locked path) k.relock λ p h.
      elim (Option-cases (lookup path p.files)) [
        | inl missing ↦ rw (missing, update_access_locked) h
        | inr (meta, found) ↦
            rw (found, update_access_locked) (k.updates path p meta _ found refl refl refl h)
      ]

  update_tier-Keeps : (path : Bytes) (tier : Tier) → Keeps P (update_tier path tier)
  unfolding update_tier
  update_tier-Keeps path tier = Keeps-with_lock P (update_tier_locked path tier) k.relock λ p h.
      elim (Option-cases (lookup path p.files)) [
        | inl missing ↦ rw (missing, update_tier_locked) h
        | inr (meta, found) ↦
            rw (found, update_tier_locked)
              (elim (Bool-cases (same_tier meta.current_tier tier)) [
                | inl same ↦ rw same h
                | inr other ↦ rw other (k.moves path p meta tier found h)
              ])
      ]

  set_open_state-Keeps : (path : Bytes) (is_open : Bool) → Keeps P (set_open_state path is_open)
  unfolding set_open_state
  set_open_state-Keeps path is_open =
      Keeps-with_lock P (set_open_state_locked path is_open) k.relock λ p h.
        elim (Option-cases (lookup path p.files)) [
          | inl missing ↦ rw (missing, set_open_state_locked) h
          | inr (meta, found) ↦
              rw (found, set_open_state_locked) (k.updates path p meta _ found refl refl refl h)
        ]

  get_tier-Keeps : (path : Bytes) → Keeps P (get_tier path)
  unfolding get_tier
  get_tier-Keeps path = Keeps-with_lock P (get_tier_locked path) k.relock λ p h.
      elim (Option-cases (lookup path p.files)) [
        | inl missing ↦ rw (missing, get_tier_locked) h
        | inr (meta, found) ↦ rw (found, get_tier_locked) h
      ]

  remove_file-Keeps : (path : Bytes) → Keeps P (remove_file path)
  unfolding remove_file
  remove_file-Keeps path = Keeps-with_lock P (remove_file_locked path) k.relock λ p h.
      elim (Option-cases (lookup path p.files)) [
        | inl missing ↦ rw (missing, remove_file_locked) h
        | inr (meta, found) ↦ rw (found, remove_file_locked) (k.releases path p meta found h)
      ]

  select_victim-Keeps : Keeps P select_victim
  unfolding select_victim
  select_victim-Keeps = Keeps-with_lock P select_victim_locked k.relock λ p h. h

  evict_victim-Keeps : Keeps P evict_victim
  unfolding evict_victim evict_chosen
  evict_victim-Keeps = Keeps-bind P select_victim evict_chosen select_victim-Keeps λ victim p h.
      elim (Bool-cases (eq_bytes victim [])) [
        | inl no_victim ↦ rw no_victim h
        | inr found ↦ rw found (
            Keeps-bind P (remove_file victim) (λ _. pure (pos 0)) (remove_file-Keeps victim)
              (λ _ q h'. h') p h)
      ]

  evict_if_needed-Keeps : Keeps P evict_if_needed
  unfolding evict_if_needed
  evict_if_needed-Keeps = Keeps-with_lock P evict_if_needed_locked k.relock λ p h.
      elim (Bool-cases (leb p.fsdax_used p.fsdax_capacity)) [
        | inl within ↦ rw within h
        | inr over ↦ rw over (evict_victim-Keeps p h)
      ]

  pub step-Keeps : (c : Call) → Sized Q c → Keeps P (step c)
  unfolding step get_usage_bytes
  step-Keeps (add path size) q = add_file-Keeps path size q
  step-Keeps (accessed path) q = update_access-Keeps path
  step-Keeps (moved path tier) q = update_tier-Keeps path tier
  step-Keeps (opened path is_open) q = set_open_state-Keeps path is_open
  step-Keeps (asked path) q =
      Keeps-bind P (get_tier path) (λ _. pure tt) (get_tier-Keeps path) λ _ p h. h
  step-Keeps (moved_out path) q = remove_file-Keeps path
  step-Keeps selects q = Keeps-bind P select_victim (λ _. pure tt) select_victim-Keeps λ _ p h. h
  step-Keeps evicts q = Keeps-bind P evict_if_needed (λ _. pure tt) evict_if_needed-Keeps λ _ p h. h
  step-Keeps measured q =
      Keeps-bind P get_usage_bytes (λ _. pure tt)
        (Keeps-with_lock P get_usage_bytes_locked k.relock λ p h. h) λ _ p h. h

  pub run-Keeps : (cs : List Call) → All (Sized Q) cs → Keeps P (run cs)
  unfolding run
  run-Keeps [] q p h = h
  run-Keeps (c ∷ cs) q p h =
      Keeps-bind P (step c) (λ _. run cs) (step-Keeps c q.0) (λ _. run-Keeps cs q.1) p h
