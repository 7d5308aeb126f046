-- ===== src/CachePolicy/History.antt =====
-- Any sequence of calls of hvac_cache_policy.h after `cache_policy_init`.
use hvac_arc.Base.{ℕ, Bool, List, [], ◌∷◌, Bytes, Prog, pure, ◌>>=◌, ◌>>◌}
use hvac_arc.CachePolicy.Defs.{Tier, Policy}
use hvac_arc.CachePolicy.Calls.{
  add_file, update_access, update_tier, set_open_state, get_tier, remove_file, get_usage_bytes,
}
use hvac_arc.CachePolicy.Eviction.{select_victim, evict_if_needed}

pub data Call : Type 0 where
  add : Bytes → ℕ → Call
  accessed moved_out asked : Bytes → Call
  moved : Bytes → Tier → Call
  opened : Bytes → Bool → Call
  selects evicts measured : Call

unfoldable pub step : Call → Prog Policy (Unit {0})
step (add path size) = add_file path size
step (accessed path) = update_access path
step (moved path tier) = update_tier path tier
step (opened path is_open) = set_open_state path is_open
step (asked path) = do _ ← get_tier path; pure tt
step (moved_out path) = remove_file path
step selects = do _ ← select_victim; pure tt
step evicts = do _ ← evict_if_needed; pure tt
step measured = do _ ← get_usage_bytes; pure tt

unfoldable pub run : List Call → Prog Policy (Unit {0})
run [] = pure tt
run (c ∷ cs) = do step c; run cs
