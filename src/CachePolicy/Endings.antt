-- ===== src/CachePolicy/Endings.antt =====
-- Which calls of hvac_cache_policy.h do not return, and what a call leaves alone.
use hvac_arc.Base.{
  ℕ, ◌≡◌, ◌≢◌, sym, ap, Option-cases, inl, inr, Bool, false, Option, none, some, if◌then◌else◌, leb,
  ◌&&◌, not, Bytes, bytes_ord, add64, minus_one, Stop, exits, hangs, Outcome, returns, stops,
  state_of, arith,
}
use hvac_arc.OrderedMap.{lookup, insert, member, lookup-insert_ne, lookup-erase_ne}
use hvac_arc.CachePolicy.Defs.{Tier, fsdax, ssd, FileMeta, Policy, same_tier}
use hvac_arc.CachePolicy.Calls.{
  new_entry, add_file, update_access, update_tier, move_to, set_open_state, get_tier, remove_file,
  get_usage_bytes,
}
use hvac_arc.CachePolicy.Eviction.{select_victim, evict_if_needed}
use hvac_arc.CachePolicy.History.{
  Call, add, accessed, moved, opened, asked, moved_out, evicts, step,
}

-- Why a call did not return, if it did not.
abbrev pub stop_of {ℓ κ} : {S : Type ℓ} {A : Type κ} → Outcome S A → Option Stop
stop_of (returns a s) = none
stop_of (stops e s) = some e

-- A file in PM that SSD has no room for.
abbrev pub no_room_below : Option FileMeta → Policy → Bool
no_room_below none p = false
no_room_below (some meta) p =
    same_tier meta.current_tier fsdax && not (leb (add64 p.ssd_used meta.size) p.ssd_capacity)

-- The whole list of the calls that end the process or never return, with the lock free.
abbrev pub ending : Call → Policy → Option Stop
ending (opened path is_open) p = if member path p.files then none else some (exits minus_one)
ending (moved_out path) p = if member path p.files then none else some (exits minus_one)
ending (moved path ssd) p =
    if no_room_below (lookup path p.files) p then some (exits minus_one) else none
ending evicts p = if leb p.fsdax_used p.fsdax_capacity then none else some hangs
ending _ p = none

module _ (p : Policy) (free : p.locked ≡ false) where
  -- With the lock free, a call fails to return exactly as `ending` lists, and the list says how it
  -- ends.
  pub step-ending : (c : Call) → stop_of (step c p) ≡ ending c p
  unfolding step add_file update_access update_tier move_to set_open_state get_tier remove_file
      select_victim evict_if_needed get_usage_bytes
  step-ending (moved path ssd) = ground arith
  step-ending c = ground arith

  -- A call that finds the lock free, and returns, has released it.
  pub step-IsUnlocked : (c : Call) → ending c p ≡ none → (state_of (step c p)).locked ≡ false
  unfolding step add_file update_access update_tier move_to set_open_state get_tier remove_file
      select_victim evict_if_needed get_usage_bytes
  step-IsUnlocked (moved path ssd) e = ground arith
  step-IsUnlocked c e = ground arith

-- The file that a call names.
abbrev pub names : Call → Option Bytes
names (add path size) = some path
names (accessed path) = some path
names (moved path tier) = some path
names (opened path is_open) = some path
names (asked path) = some path
names (moved_out path) = some path
names _ = none

module _ (p : Policy) (q path : Bytes) (other : q ≢ path) where
  inserted : (file : FileMeta) → lookup q (insert path file p.files) ≡ lookup q p.files
  inserted file = lookup-insert_ne q path file p.files other

  add_file_other : (size : ℕ) → lookup q (state_of (add_file path size p)).files ≡ lookup q p.files
  unfolding add_file
  add_file_other size =
      ground (arith, inserted (new_entry path size fsdax), inserted (new_entry path size ssd))

  update_access_other : lookup q (state_of (update_access path p)).files ≡ lookup q p.files
  unfolding update_access
  update_access_other = elim (Option-cases (lookup path p.files)) [
    | inl e ↦ ground arith
    | inr (meta, e) ↦
        ground (arith, inserted (record meta { access_count = add64 meta.access_count 1 }))
  ]

  update_tier_other :
      (tier : Tier) → lookup q (state_of (update_tier path tier p)).files ≡ lookup q p.files
  unfolding update_tier
  update_tier_other tier = elim (Option-cases (lookup path p.files)) [
    | inl e ↦ ground arith
    | inr (meta, e) ↦ ground (
      arith,
      inserted (record meta { current_tier = fsdax }),
      inserted (record meta { current_tier = ssd }),
    )
  ]

  set_open_state_other :
      (is_open : Bool)
      → lookup q (state_of (set_open_state path is_open p)).files ≡ lookup q p.files
  unfolding set_open_state
  set_open_state_other is_open = elim (Option-cases (lookup path p.files)) [
    | inl e ↦ ground arith
    | inr (meta, e) ↦ ground (arith, inserted (record meta { is_open = is_open }))
  ]

  remove_file_other : lookup q (state_of (remove_file path p)).files ≡ lookup q p.files
  unfolding remove_file
  remove_file_other = ground (arith, lookup-erase_ne q path p.files other)

-- A call leaves the entry of every file that it does not name.
pub step-lookup_other :
    (c : Call) (p : Policy) (q : Bytes)
    → names c ≢ some q
    → lookup q (state_of (step c p)).files ≡ lookup q p.files
unfolding step get_tier select_victim evict_if_needed get_usage_bytes
step-lookup_other (add path size) p q h = add_file_other p q path (λ e. h (ap some (sym e))) size
step-lookup_other (accessed path) p q h = update_access_other p q path (λ e. h (ap some (sym e)))
step-lookup_other (moved path tier) p q h =
    update_tier_other p q path (λ e. h (ap some (sym e))) tier
step-lookup_other (opened path is_open) p q h =
    set_open_state_other p q path (λ e. h (ap some (sym e))) is_open
step-lookup_other (moved_out path) p q h = remove_file_other p q path (λ e. h (ap some (sym e)))
step-lookup_other c p q h = ground arith
