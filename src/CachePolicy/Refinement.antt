-- ===== src/CachePolicy/Refinement.antt =====
-- The calls of hvac_cache_policy.cpp against the promises of the header.
use hvac_arc.Base.{
  ℕ, ◌≡◌, refl, sym, ap, subst, Prog, ◌∙◌, inl, inr, List, [], ◌∷◌, Bool, false, Bytes, bytes_ord,
  add64, Outcome, returns, stops, state_of, Bool-cases, Option-cases, continue, ◌>>◌,
}
use hvac_arc.OrderedMap.{lookup}
use hvac_arc.CachePolicy.Defs.{Tier, Policy, same_tier}
use hvac_arc.CachePolicy.Calls.{
  add_file, add_file_locked, update_access, update_access_locked, update_tier, update_tier_locked,
  set_open_state, set_open_state_locked, remove_file, remove_file_locked, get_tier, get_tier_locked,
  get_usage_bytes, get_usage_bytes_locked,
}
use hvac_arc.CachePolicy.Eviction.{select_victim, select_victim_locked}
use hvac_arc.CachePolicy.History.{
  Call, add, accessed, moved, opened, asked, moved_out, selects, evicts, measured, step, run,
}
use hvac_arc.CachePolicy.Capacity.{IsBounded, IsSmall, evict_if_needed_idle, IsBounded-kept}
use hvac_arc.CachePolicy.Keeps.{All, Sized, step-Keeps}
use hvac_arc.CachePolicy.Spec.{Spec, spec_of, seen, Verdict, goes, spec_step, spec_run, and_then}
use hvac_arc.CachePolicy.Effects.{
  seen-unlock, place-spec, move_to-spec, stays, release-spec, entries-insert,
}
use hvac_arc.CachePolicy.Endings.{stop_of, step-ending, step-IsUnlocked}

module _ (p : Policy) (b : IsBounded p) (free : p.locked ≡ false) where
  add_refines :
      (path : Bytes) (size : ℕ)
      → IsSmall size
      → seen (step (add path size) p) ≡ spec_step (add path size) (spec_of p)
  unfolding step add_file spec_step
  add_refines path size w = elim (Option-cases (lookup path p.files)) [
    | inr (meta, old) ↦ rw (free, old, add_file_locked) refl
    | inl new ↦ rw (free, new, add_file_locked) (ap goes (place-spec p b path size w))
  ]

  accessed_refines :
      (path : Bytes) → seen (step (accessed path) p) ≡ spec_step (accessed path) (spec_of p)
  unfolding step update_access spec_step
  accessed_refines path = elim (Option-cases (lookup path p.files)) [
    | inl missing ↦ rw (free, missing, update_access_locked) refl
    | inr (meta, found) ↦
        rw
          (
            free,
            found,
            update_access_locked,
            entries-insert path (record meta { access_count = add64 meta.access_count 1 }) p.files,
          )
          refl
  ]

  moved_refines :
      (path : Bytes) (tier : Tier)
      → seen (step (moved path tier) p) ≡ spec_step (moved path tier) (spec_of p)
  unfolding step update_tier spec_step
  moved_refines path tier = elim (Option-cases (lookup path p.files)) [
    | inl missing ↦ rw (free, missing, update_tier_locked) refl
    | inr (meta, found) ↦
        rw (free, found, update_tier_locked)
          (elim (Bool-cases (same_tier meta.current_tier tier)) [
            | inl same ↦ rw same (sym (stays p b path meta found tier same))
            | inr other ↦ rw other (seen-unlock _ ∙ move_to-spec p b path meta found tier other)
          ])
  ]

  opened_refines :
      (path : Bytes) (is_open : Bool)
      → seen (step (opened path is_open) p) ≡ spec_step (opened path is_open) (spec_of p)
  unfolding step set_open_state spec_step
  opened_refines path is_open = elim (Option-cases (lookup path p.files)) [
    | inl missing ↦ rw (free, missing, set_open_state_locked) refl
    | inr (meta, found) ↦
        rw
          (
            free,
            found,
            set_open_state_locked,
            entries-insert path (record meta { is_open = is_open }) p.files,
          )
          refl
  ]

  moved_out_refines :
      (path : Bytes) → seen (step (moved_out path) p) ≡ spec_step (moved_out path) (spec_of p)
  unfolding step remove_file spec_step
  moved_out_refines path = elim (Option-cases (lookup path p.files)) [
    | inl missing ↦ rw (free, missing, remove_file_locked) refl
    | inr (meta, found) ↦
        rw (free, found, remove_file_locked) (ap goes (release-spec p b path meta found))
  ]

  -- In a state where no counter has wrapped and the lock is free, each call does to the recorded
  -- entries and the counters what the promise says.
  pub step-refines : (c : Call) → Sized IsSmall c → seen (step c p) ≡ spec_step c (spec_of p)
  unfolding step get_tier select_victim get_usage_bytes spec_step
  step-refines (add path size) w = add_refines path size w
  step-refines (accessed path) w = accessed_refines path
  step-refines (moved path tier) w = moved_refines path tier
  step-refines (opened path is_open) w = opened_refines path is_open
  step-refines (moved_out path) w = moved_out_refines path
  step-refines (asked path) w = elim (Option-cases (lookup path p.files)) [
    | inl missing ↦ rw (free, missing, get_tier_locked) refl
    | inr (meta, found) ↦ rw (free, found, get_tier_locked) refl
  ]
  step-refines selects w = rw (free, select_victim_locked) refl
  step-refines evicts w = rw (evict_if_needed_idle p b free) refl
  step-refines measured w = rw (free, get_usage_bytes_locked) refl

-- A call that returned left the lock free.
pub returned-free :
    (c : Call) (p q : Policy) → p.locked ≡ false → step c p ≡ returns tt q → q.locked ≡ false
returned-free c p q free e =
    ap (λ (r : Outcome Policy (Unit {0})). (state_of r).locked) (sym e)
    ∙ step-IsUnlocked p free c
        (sym (step-ending p free c) ∙ ap (λ (r : Outcome Policy (Unit {0})). stop_of r) e)

-- What follows a call, once it is right for any state that the call may leave.
continue-refines :
    (c : Call) (p : Policy) (rest : Prog Policy (Unit {0})) (promise : Spec → Verdict)
    → Sized IsSmall c
    → IsBounded p
    → p.locked ≡ false
    → ((q : Policy) → IsBounded q → q.locked ≡ false → seen (rest q) ≡ promise (spec_of q))
    → seen ((step c >> rest) p) ≡ and_then (spec_step c (spec_of p)) promise
continue-refines c p rest promise w b free ih =
    go (step c p) refl ∙ ap (λ v. and_then v promise) (step-refines p b free c w)
  where
    go :
        (r : Outcome Policy (Unit {0}))
        → step c p ≡ r
        → seen (continue (λ _. rest) r) ≡ and_then (seen r) promise
    go (stops s q) e = refl
    go (returns a q) e =
        ih q
          (subst (λ (r : Outcome Policy (Unit {0})). IsBounded (state_of r)) e
            (step-Keeps IsBounded-kept c w p b))
          (returned-free c p q free e)

-- From globals with the lock free, where capacities and sizes are below 2 ^ 63, the counters are
-- right and each tier's files fit in its capacity: any calls with such sizes end as the promise
-- does, in the same way and with the same entries and counters. The promise has no lock, no order of
-- the entries, and counters of bytes that do not wrap.
pub run-refines :
    (cs : List Call) (p : Policy)
    → All (Sized IsSmall) cs
    → IsBounded p
    → p.locked ≡ false
    → seen (run cs p) ≡ spec_run cs (spec_of p)
unfolding run spec_run
run-refines [] p w b free = refl
run-refines (c ∷ cs) p w b free =
    continue-refines c p (run cs) (spec_run cs) w.0 b free λ q bq fq. run-refines cs q w.1 bq fq
