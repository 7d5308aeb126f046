-- ===== src/CachePolicy/Eviction.antt =====
-- `cache_policy_select_victim_for_eviction` and `cache_policy_evict_if_needed`.
use hvac_arc.Base.{
  ℕ, ℤ, pos, minus_one, Bool, not, ◌&&◌, none, some, [], ◌∷◌, if◌then◌else◌, ltb, leb, Bytes,
  bytes_ord, eq_bytes, Prog, returns, pure, ◌>>=◌, ◌>>◌,
}
use hvac_arc.OrderedMap.{Map, lookup}
use hvac_arc.CachePolicy.Defs.{fsdax, FileMeta, Policy, same_tier, with_lock}
use hvac_arc.CachePolicy.Calls.{remove_file}

-- Only files in PM that are closed may go.
abbrev pub is_candidate : FileMeta → Bool
is_candidate file = same_tier file.current_tier fsdax && not file.is_open

-- `g_fileMetaMap[path].access_count`: a missing key would read as a new entry, which counts 0.
unfoldable pub count_of : Map Bytes FileMeta → Bytes → ℕ
count_of m path = elim (lookup path m) [ none ↦ 0 | some file ↦ file.access_count ]

-- One round of the loop, on the victim so far; the empty path stands for none.
unfoldable pub better : Map Bytes FileMeta → Bytes → Bytes → FileMeta → Bytes
unfolding count_of
better m victim path file =
    if is_candidate file
    then if eq_bytes victim []
      then path
      else if ltb file.access_count (count_of m victim)
      then path
      else victim
    else victim

-- The loop over the map `m`, whose entries are in the order of their paths.
unfoldable pub scan : Map Bytes FileMeta → Bytes → Map Bytes FileMeta → Bytes
unfolding better
scan m victim [] = victim
scan m victim ((path, file) ∷ rest) = scan m (better m victim path file) rest

unfoldable pub select_victim_locked : Prog Policy Bytes
unfolding scan
select_victim_locked p = returns (scan p.files [] p.files) p

unfoldable pub select_victim : Prog Policy Bytes
unfolding select_victim_locked
select_victim = with_lock select_victim_locked

-- What is done with the victim, if there is one.
unfoldable pub evict_chosen : Bytes → Prog Policy ℤ
unfolding remove_file
evict_chosen victim =
    if eq_bytes victim [] then pure minus_one else (do remove_file victim; pure (pos 0))

-- After the test that PM is over its capacity, with the lock held.
unfoldable pub evict_victim : Prog Policy ℤ
unfolding select_victim evict_chosen
evict_victim = do victim ← select_victim; evict_chosen victim

unfoldable pub evict_if_needed_locked : Prog Policy ℤ
unfolding evict_victim
evict_if_needed_locked p =
    if leb p.fsdax_used p.fsdax_capacity then returns (pos 0) p else evict_victim p

unfoldable pub evict_if_needed : Prog Policy ℤ
unfolding evict_if_needed_locked
evict_if_needed = with_lock evict_if_needed_locked
