-- ===== src/CachePolicy/Answers.antt =====
-- What the calls of hvac_cache_policy.cpp answer, against the promises of the header.
use hvac_arc.Base.{
  ℕ, ◌≤◌, ◌≡◌, ◌≢◌, pos, ℤ, Option, none, some, [], false, Bytes, bytes_ord, Prog, Outcome, returns,
  stops, pure, ◌>>=◌,
}
use hvac_arc.CachePolicy.Defs.{Tier, fsdax, unknown, Policy}
use hvac_arc.CachePolicy.Calls.{
  add_file, update_access, update_tier, set_open_state, get_tier, remove_file, get_usage_bytes,
}
use hvac_arc.CachePolicy.Eviction.{select_victim, evict_if_needed}
use hvac_arc.CachePolicy.History.{
  Call, add, accessed, moved, opened, asked, moved_out, selects, evicts, measured,
}
use hvac_arc.CachePolicy.Spec.{Entry, Spec}

pub data Answer : Type 0 where
  nothing : Answer
  tier_is : Tier → Answer
  names : Bytes → Answer
  status : ℤ → Answer
  usage : ℕ × ℕ → Answer

-- A call, with what it answers.
unfoldable pub answering : Call → Prog Policy Answer
answering (add path size) = do _ ← add_file path size; pure nothing
answering (accessed path) = do _ ← update_access path; pure nothing
answering (moved path tier) = do _ ← update_tier path tier; pure nothing
answering (opened path is_open) = do _ ← set_open_state path is_open; pure nothing
answering (asked path) = do tier ← get_tier path; pure (tier_is tier)
answering (moved_out path) = do _ ← remove_file path; pure nothing
answering selects = do victim ← select_victim; pure (names victim)
answering evicts = do code ← evict_if_needed; pure (status code)
answering measured = do used ← get_usage_bytes; pure (usage used)

-- A closed file in PM, under a path that is not empty.
pub record MayGo (s : Spec) (path : Bytes) (e : Entry) : Type 0 where
  pub recorded : s.entry path ≡ some e
  pub in_pm : e.tier ≡ fsdax
  pub closed : e.is_open ≡ false
  pub named : path ≢ []

-- The victim that the header promises: the least used file that may go, or the empty path if there
-- is none.
pub data IsPromised (s : Spec) (victim : Bytes) : Type 0 where
  no_file : victim ≡ [] → ((path : Bytes) (e : Entry) → ¬ MayGo s path e) → IsPromised s victim
  least :
      (e : Entry)
      → MayGo s victim e
      → ((path : Bytes) (other : Entry) → MayGo s path other → e.accesses ≤ other.accesses)
      → IsPromised s victim

abbrev pub tier_in : Option Entry → Tier
tier_in none = unknown
tier_in (some e) = e.tier

-- The answer that a call promises.
abbrev pub IsAnswer : Call → Spec → Answer → Type 0
IsAnswer (add path size) s a = a ≡ nothing
IsAnswer (accessed path) s a = a ≡ nothing
IsAnswer (moved path tier) s a = a ≡ nothing
IsAnswer (opened path is_open) s a = a ≡ nothing
IsAnswer (asked path) s a = a ≡ tier_is (tier_in (s.entry path))
IsAnswer (moved_out path) s a = a ≡ nothing
IsAnswer selects s a = (victim : Bytes) × ((a ≡ names victim) × IsPromised s victim)
IsAnswer evicts s a = a ≡ status (pos 0)
IsAnswer measured s a = a ≡ usage (s.fsdax_used, s.ssd_used)

-- If the call returns, its answer is the promised one.
abbrev pub Answers : Call → Spec → Outcome Policy Answer → Type 0
Answers c s (returns a p) = IsAnswer c s a
Answers c s (stops e p) = Unit
