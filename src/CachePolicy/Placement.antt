-- ===== src/CachePolicy/Placement.antt =====
-- Where `cache_policy_add_file` puts a file, seen through the calls that read it back.
use hvac_arc.Base.{
  ℕ, ◌+◌, ◌≡◌, ◌≢◌, inl, inr, Bool, true, false, none, if◌then◌else◌, leb, Bytes, bytes_ord,
  minus_one, exits, returns, stops, state_of, arith, Option-cases, ◌>>◌,
}
use hvac_arc.OrderedMap.{lookup, lookup-insert_self, erase-insert, AllEntries-lookup, total}
use hvac_arc.CachePolicy.Defs.{Tier, fsdax, ssd, pfs, unknown, Policy}
use hvac_arc.CachePolicy.Calls.{new_entry, add_file, set_open_state, get_tier, remove_file}
use hvac_arc.CachePolicy.Accounting.{load, IsStored, IsCounted}
use hvac_arc.CachePolicy.Capacity.{IsBounded, IsSmall}

-- The highest tier in which the sizes of its files and `size` fit together.
abbrev pub first_fit : ℕ → Policy → Tier
first_fit size p =
    if leb (total (load fsdax) p.files + size) p.fsdax_capacity
    then fsdax
    else if leb (total (load ssd) p.files + size) p.ssd_capacity
    then ssd
    else unknown

module _ (path : Bytes) (size : ℕ) (p : Policy) (free : p.locked ≡ false) where
  -- With capacities and sizes below 2 ^ 63, the tiers within their capacities and the lock free: a
  -- new file is reported in the highest tier where it fits beside the files there, and as unknown
  -- if it fits in neither.
  pub get_tier-add_file :
      IsBounded p
      → IsSmall size
      → lookup path p.files ≡ none
      → get_tier path (state_of (add_file path size p))
        ≡ returns (first_fit size p) (state_of (add_file path size p))
  unfolding add_file get_tier
  get_tier-add_file b small new =
      let c = b.counted in
      ground (
        arith,
        c.fsdax_counted,
        c.ssd_counted,
        lookup-insert_self path (new_entry path size fsdax) p.files,
        lookup-insert_self path (new_entry path size ssd) p.files,
      )

  -- A file that fits in no tier is not recorded, so to mark it open or closed ends the process.
  pub set_open_state-add_file :
      (is_open : Bool)
      → IsBounded p
      → IsSmall size
      → lookup path p.files ≡ none
      → first_fit size p ≡ unknown
      → (q : Policy) × ((add_file path size >> set_open_state path is_open) p
          ≡ stops (exits minus_one) q)
  unfolding add_file set_open_state
  set_open_state-add_file is_open b small new full =
      let c = b.counted in
      (record p { locked = true }, ground (arith, c.fsdax_counted, c.ssd_counted))

  -- With capacities and sizes below 2 ^ 63, the tiers within their capacities and the lock free: a
  -- new file that fits in a tier, added and then removed, leaves the globals exactly as they were.
  pub remove_file-add_file :
      IsBounded p
      → IsSmall size
      → lookup path p.files ≡ none
      → first_fit size p ≢ unknown
      → (add_file path size >> remove_file path) p ≡ returns tt p
  unfolding add_file remove_file
  remove_file-add_file b small new fits =
      let c = b.counted in
      ground (
        arith,
        c.fsdax_counted,
        c.ssd_counted,
        lookup-insert_self path (new_entry path size fsdax) p.files,
        lookup-insert_self path (new_entry path size ssd) p.files,
        erase-insert path (new_entry path size fsdax) p.files new,
        erase-insert path (new_entry path size ssd) p.files new,
      )

-- No file is ever reported on the parallel file system: a file is in PM, in SSD, or unknown.
pub get_tier-ne-pfs :
    (path : Bytes) (p : Policy) (q : Policy) → IsCounted p → get_tier path p ≢ returns pfs q
unfolding get_tier
get_tier-ne-pfs path p q c e = elim (Option-cases (lookup path p.files)) [
  | inl missing ↦ ground arith
  | inr (meta, found) ↦
      let stored = AllEntries-lookup IsStored path p.files meta c.stored found in ground arith
]
