-- ===== src/CachePolicy/Calls.antt =====
-- The calls of hvac_cache_policy.cpp that read or change the entry of one file.
use hvac_arc.Base.{
  ℕ, Bool, true, none, some, if◌then◌else◌, leb, Bytes, bytes_ord, add64, sub64, minus_one, Prog,
  returns, stops, exits, pure,
}
use hvac_arc.OrderedMap.{lookup, insert, erase}
use hvac_arc.CachePolicy.Defs.{
  Tier, fsdax, ssd, pfs, unknown, FileMeta, Policy, same_tier, with_lock,
}

-- The new entry of `cache_policy_add_file`, in the tier where it fits.
abbrev pub new_entry : Bytes → ℕ → Tier → FileMeta
new_entry path size tier = record {
  path = path;
  current_tier = tier;
  size = size;
  access_count = 0;
  is_open = true;
}

-- The first tier with room; a file that fits in neither is not recorded.
unfoldable pub place : Bytes → ℕ → Policy → Policy
place path size p =
    if leb (add64 p.fsdax_used size) p.fsdax_capacity
    then record p {
      files = insert path (new_entry path size fsdax) p.files;
      fsdax_used = add64 p.fsdax_used size;
    }
    else if leb (add64 p.ssd_used size) p.ssd_capacity
    then record p {
      files = insert path (new_entry path size ssd) p.files;
      ssd_used = add64 p.ssd_used size;
    }
    else p

unfoldable pub add_file_locked : Bytes → ℕ → Prog Policy (Unit {0})
unfolding place
add_file_locked path size p = elim (lookup path p.files) [
  | some _ ↦ returns tt p
  | none ↦ returns tt (place path size p)
]

unfoldable pub add_file : Bytes → ℕ → Prog Policy (Unit {0})
unfolding add_file_locked
add_file path size = with_lock (add_file_locked path size)

unfoldable pub update_access_locked : Bytes → Prog Policy (Unit {0})
update_access_locked path p = elim (lookup path p.files) [
  | none ↦ returns tt p
  | some meta ↦
      let seen : FileMeta = record meta { access_count = add64 meta.access_count 1 } in
      returns tt (record p { files = insert path seen p.files })
]

unfoldable pub update_access : Bytes → Prog Policy (Unit {0})
unfolding update_access_locked
update_access path = with_lock (update_access_locked path)

-- `if(new_tier == CACHE_TIER_SSD)`: from PM to SSD, or the end of the process.
unfoldable pub move_to_ssd : Bytes → FileMeta → Prog Policy (Unit {0})
move_to_ssd path meta p =
    if same_tier meta.current_tier fsdax
    then if leb (add64 p.ssd_used meta.size) p.ssd_capacity
      then returns tt (record p {
        ssd_used = add64 p.ssd_used meta.size;
        fsdax_used = sub64 p.fsdax_used meta.size;
        files = insert path (record meta { current_tier = ssd }) p.files;
      })
      else stops (exits minus_one) p
    else returns tt p

-- `if(new_tier == CACHE_TIER_FSDAX)`: from SSD to PM, or a warning.
unfoldable pub move_to_fsdax : Bytes → FileMeta → Prog Policy (Unit {0})
move_to_fsdax path meta p =
    if same_tier meta.current_tier ssd
    then if leb (add64 p.fsdax_used meta.size) p.fsdax_capacity
      then returns tt (record p {
        fsdax_used = add64 p.fsdax_used meta.size;
        ssd_used = sub64 p.ssd_used meta.size;
        files = insert path (record meta { current_tier = fsdax }) p.files;
      })
      else returns tt p
    else returns tt p

-- The two tests on `new_tier`, of which at most one holds.
unfoldable pub move_to : Tier → Bytes → FileMeta → Prog Policy (Unit {0})
unfolding move_to_ssd move_to_fsdax
move_to fsdax path meta = move_to_fsdax path meta
move_to ssd path meta = move_to_ssd path meta
move_to pfs path meta = pure tt
move_to unknown path meta = pure tt

unfoldable pub update_tier_locked : Bytes → Tier → Prog Policy (Unit {0})
unfolding move_to
update_tier_locked path new_tier p = elim (lookup path p.files) [
  | none ↦ returns tt p
  | some meta ↦
      if same_tier meta.current_tier new_tier then returns tt p else move_to new_tier path meta p
]

unfoldable pub update_tier : Bytes → Tier → Prog Policy (Unit {0})
unfolding update_tier_locked
update_tier path new_tier = with_lock (update_tier_locked path new_tier)

unfoldable pub set_open_state_locked : Bytes → Bool → Prog Policy (Unit {0})
set_open_state_locked path is_open p = elim (lookup path p.files) [
  | none ↦ stops (exits minus_one) p
  | some meta ↦
      returns tt (record p { files = insert path (record meta { is_open = is_open }) p.files })
]

unfoldable pub set_open_state : Bytes → Bool → Prog Policy (Unit {0})
unfolding set_open_state_locked
set_open_state path is_open = with_lock (set_open_state_locked path is_open)

unfoldable pub get_tier_locked : Bytes → Prog Policy Tier
get_tier_locked path p = elim (lookup path p.files) [
  | none ↦ returns unknown p
  | some meta ↦ returns meta.current_tier p
]

unfoldable pub get_tier : Bytes → Prog Policy Tier
unfolding get_tier_locked
get_tier path = with_lock (get_tier_locked path)

-- What `cache_policy_remove_file` takes off the counter of the file's tier.
unfoldable pub release : FileMeta → Policy → Policy
release meta p =
    if same_tier meta.current_tier fsdax
    then record p { fsdax_used = sub64 p.fsdax_used meta.size }
    else if same_tier meta.current_tier ssd
    then record p { ssd_used = sub64 p.ssd_used meta.size }
    else p

unfoldable pub remove_file_locked : Bytes → Prog Policy (Unit {0})
unfolding release
remove_file_locked path p = elim (lookup path p.files) [
  | none ↦ stops (exits minus_one) p
  | some meta ↦ let q = release meta p in returns tt (record q { files = erase path q.files })
]

unfoldable pub remove_file : Bytes → Prog Policy (Unit {0})
unfolding remove_file_locked
remove_file path = with_lock (remove_file_locked path)

unfoldable pub get_usage_bytes_locked : Prog Policy (ℕ × ℕ)
get_usage_bytes_locked p = returns (p.fsdax_used, p.ssd_used) p

unfoldable pub get_usage_bytes : Prog Policy (ℕ × ℕ)
unfolding get_usage_bytes_locked
get_usage_bytes = with_lock get_usage_bytes_locked
