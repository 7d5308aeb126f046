-- ===== src/CachePolicy/Capacity.antt =====
-- The sizes of the files in a tier against its capacity, and the eviction.
use hvac_arc.Base.{
  ℕ, pos, ◌+◌, ◌^◌, ◌≤◌, ◌<◌, ◌≡◌, true, false, none, some, List, Bytes, bytes_ord, returns, stops,
  hangs, state_of, arith,
}
use hvac_arc.OrderedMap.{
  lookup, insert, erase, AllEntries, total, AllEntries-insert, AllEntries-erase, AllEntries-lookup,
  total-insert_new, total-insert_old, total-erase,
}
use hvac_arc.CachePolicy.Defs.{Tier, fsdax, ssd, pfs, unknown, FileMeta, Policy}
use hvac_arc.CachePolicy.Calls.{new_entry, place, move_to_ssd, move_to_fsdax, move_to, release}
use hvac_arc.CachePolicy.Eviction.{evict_if_needed}
use hvac_arc.CachePolicy.History.{Call, run}
use hvac_arc.CachePolicy.Keeps.{IsKept, All, Sized, run-Keeps}
use hvac_arc.CachePolicy.Accounting.{
  load, IsCounted, IsCounted-kept, place-IsCounted, update-IsCounted, move_to_ssd-IsCounted,
  move_to_fsdax-IsCounted, release-IsCounted,
}

abbrev pub IsSmall : ℕ → Type 0
IsSmall size = size < 2 ^ 63

abbrev pub SmallEntry : Bytes → FileMeta → Type 0
SmallEntry path file = IsSmall file.size

pub record IsBounded (p : Policy) : Type 0 where
  pub counted : IsCounted p
  pub fsdax_small : IsSmall p.fsdax_capacity
  pub ssd_small : IsSmall p.ssd_capacity
  pub small : AllEntries SmallEntry p.files
  pub fsdax_fits : total (load fsdax) p.files ≤ p.fsdax_capacity
  pub ssd_fits : total (load ssd) p.files ≤ p.ssd_capacity

module _ (path : Bytes) (p : Policy) where
  place-IsBounded :
      (size : ℕ)
      → IsSmall size
      → lookup path p.files ≡ none
      → IsBounded p
      → IsBounded (place path size p)
  unfolding place
  place-IsBounded size w h b =
      let counted = place-IsCounted path p size (omega arith) h b.counted in
      let c = b.counted in
      ground (
        arith,
        counted,
        c.fsdax_counted,
        c.ssd_counted,
        AllEntries-insert SmallEntry path (new_entry path size fsdax) p.files,
        AllEntries-insert SmallEntry path (new_entry path size ssd) p.files,
        total-insert_new (load fsdax) path (new_entry path size fsdax) p.files h,
        total-insert_new (load ssd) path (new_entry path size fsdax) p.files h,
        total-insert_new (load fsdax) path (new_entry path size ssd) p.files h,
        total-insert_new (load ssd) path (new_entry path size ssd) p.files h,
      )

  module _ (meta : FileMeta) (found : lookup path p.files ≡ some meta) (b : IsBounded p) where
    pub IsSmall-entry : IsSmall meta.size
    IsSmall-entry = AllEntries-lookup SmallEntry path p.files meta b.small found

    retotal :
        (tier : Tier) (new : FileMeta)
        → total (load tier) (insert path new p.files) + load tier meta
          ≡ total (load tier) p.files + load tier new
    retotal tier new = total-insert_old (load tier) path new meta p.files b.counted.sorted found

    update-IsBounded :
        (new : FileMeta)
        → new.path ≡ meta.path
        → new.current_tier ≡ meta.current_tier
        → new.size ≡ meta.size
        → IsBounded (record p { files = insert path new p.files })
    update-IsBounded new q t s = ground (
      arith,
      update-IsCounted path p meta found b.counted new q t s,
      IsSmall-entry,
      AllEntries-insert SmallEntry path new p.files,
      retotal fsdax new,
      retotal ssd new,
    )

    move_to_ssd-IsBounded : IsBounded (state_of (move_to_ssd path meta p))
    unfolding move_to_ssd
    move_to_ssd-IsBounded =
        let c = b.counted in
        let counted = move_to_ssd-IsCounted path p meta found c in
        ground (
          arith,
          counted,
          IsSmall-entry,
          c.ssd_counted,
          AllEntries-insert SmallEntry path (record meta { current_tier = ssd }) p.files,
          retotal fsdax (record meta { current_tier = ssd }),
          retotal ssd (record meta { current_tier = ssd }),
        )

    move_to_fsdax-IsBounded : IsBounded (state_of (move_to_fsdax path meta p))
    unfolding move_to_fsdax
    move_to_fsdax-IsBounded =
        let c = b.counted in
        let counted = move_to_fsdax-IsCounted path p meta found c in
        ground (
          arith,
          counted,
          IsSmall-entry,
          c.fsdax_counted,
          AllEntries-insert SmallEntry path (record meta { current_tier = fsdax }) p.files,
          retotal fsdax (record meta { current_tier = fsdax }),
          retotal ssd (record meta { current_tier = fsdax }),
        )

    move_to-IsBounded : (tier : Tier) → IsBounded (state_of (move_to tier path meta p))
    unfolding move_to
    move_to-IsBounded fsdax = move_to_fsdax-IsBounded
    move_to-IsBounded ssd = move_to_ssd-IsBounded
    move_to-IsBounded pfs = b
    move_to-IsBounded unknown = b

    release-IsBounded :
        IsBounded (record (release meta p) { files = erase path (release meta p).files })
    unfolding release
    release-IsBounded =
        let counted = release-IsCounted path p meta found b.counted in
        ground (
          arith,
          counted,
          AllEntries-erase SmallEntry path p.files b.small,
          total-erase (load fsdax) path meta p.files b.counted.sorted found,
          total-erase (load ssd) path meta p.files b.counted.sorted found,
        )

pub IsBounded-kept : IsKept IsSmall IsBounded
IsBounded-kept = record {
  relock = λ p b h. ground (arith, IsCounted-kept.relock p b h.counted);
  places = λ path size p w new b. place-IsBounded path p size w new b;
  updates = λ path p meta new found q t s b. update-IsBounded path p meta found b new q t s;
  moves = λ path p meta tier found b. move_to-IsBounded path p meta found b tier;
  releases = λ path p meta found b. release-IsBounded path p meta found b;
}

-- From globals where the capacities and all sizes are below 2 ^ 63, the counters are right and each
-- tier's files fit in its capacity together: the same holds after any calls with such sizes,
-- however the last one ends. So no tier is ever overfilled, the sizes summed without wrapping.
pub run-IsBounded :
    (cs : List Call) (p : Policy)
    → All (Sized IsSmall) cs
    → IsBounded p
    → IsBounded (state_of (run cs p))
run-IsBounded cs p w b = run-Keeps IsBounded-kept cs w p b

-- With the lock free, capacities and sizes below 2 ^ 63, the counters right and the tiers within
-- their capacities, which every call keeps so: `cache_policy_evict_if_needed` returns 0 and changes
-- nothing.
pub evict_if_needed_idle :
    (p : Policy) → IsBounded p → p.locked ≡ false → evict_if_needed p ≡ returns (pos 0) p
unfolding evict_if_needed
evict_if_needed_idle p b free = let c = b.counted in ground (arith, c.fsdax_counted)

-- When PM is over its capacity, `cache_policy_evict_if_needed` never returns: it holds
-- `g_cacheMutex`, if it gets it, and then calls `cache_policy_select_victim_for_eviction`, which
-- takes it again.
pub evict_if_needed_hangs :
    (p : Policy)
    → p.fsdax_capacity < p.fsdax_used
    → evict_if_needed p ≡ stops hangs (record p { locked = true })
unfolding evict_if_needed
evict_if_needed_hangs p over = ground arith
