-- ===== src/CachePolicy/Accounting.antt =====
-- The counters of a tier against the files that are recorded there.
use hvac_arc.Base.{
  ℕ, ◌%◌, ◌≤◌, ◌<◌, ◌≡◌, ◌⊎◌, none, some, List, if◌then◌else◌, Bytes, bytes_ord, word, arith,
  state_of,
}
use hvac_arc.OrderedMap.{
  lookup, insert, erase, IsSorted, AllEntries, total, insert-IsSorted, erase-IsSorted,
  AllEntries-insert, AllEntries-erase, AllEntries-lookup, total-insert_new, total-insert_old,
  total-erase,
}
use hvac_arc.CachePolicy.Defs.{Tier, fsdax, ssd, pfs, unknown, FileMeta, Policy, same_tier}
use hvac_arc.CachePolicy.Calls.{new_entry, place, move_to_ssd, move_to_fsdax, move_to, release}
use hvac_arc.CachePolicy.Keeps.{IsKept, All, Sized, run-Keeps}
use hvac_arc.CachePolicy.History.{Call, run}

-- What a file counts in a tier.
abbrev pub load : Tier → FileMeta → ℕ
load tier file = if same_tier file.current_tier tier then file.size else 0

-- An entry is under its own path, is in one of the two cache tiers, and its size is a word.
pub record IsStored (path : Bytes) (file : FileMeta) : Type 0 where
  pub named : file.path ≡ path
  pub cached : (file.current_tier ≡ fsdax) ⊎ (file.current_tier ≡ ssd)
  pub sized : file.size < word

pub record IsCounted (p : Policy) : Type 0 where
  pub sorted : IsSorted p.files
  pub stored : AllEntries IsStored p.files
  pub fsdax_counted : p.fsdax_used ≡ total (load fsdax) p.files % word
  pub ssd_counted : p.ssd_used ≡ total (load ssd) p.files % word

module _ (path : Bytes) (p : Policy) where
  pub place-IsCounted :
      (size : ℕ)
      → size < word
      → lookup path p.files ≡ none
      → IsCounted p
      → IsCounted (place path size p)
  unfolding place
  place-IsCounted size w h c = ground (
    arith,
    insert-IsSorted path (new_entry path size fsdax) p.files c.sorted,
    insert-IsSorted path (new_entry path size ssd) p.files c.sorted,
    AllEntries-insert IsStored path (new_entry path size fsdax) p.files,
    AllEntries-insert IsStored path (new_entry path size ssd) p.files,
    total-insert_new (load fsdax) path (new_entry path size fsdax) p.files h,
    total-insert_new (load ssd) path (new_entry path size fsdax) p.files h,
    total-insert_new (load fsdax) path (new_entry path size ssd) p.files h,
    total-insert_new (load ssd) path (new_entry path size ssd) p.files h,
  )

  module _ (meta : FileMeta) (found : lookup path p.files ≡ some meta) (c : IsCounted p) where
    stored : IsStored path meta
    stored = AllEntries-lookup IsStored path p.files meta c.stored found

    -- What a file counts is part of the total of its tier.
    pub load_within : (tier : Tier) → load tier meta ≤ total (load tier) p.files
    load_within tier = omega (arith, total-erase (load tier) path meta p.files c.sorted found)

    -- An update that leaves the path, the tier and the size of a file.
    pub update-IsCounted :
        (new : FileMeta)
        → new.path ≡ meta.path
        → new.current_tier ≡ meta.current_tier
        → new.size ≡ meta.size
        → IsCounted (record p { files = insert path new p.files })
    update-IsCounted new q t s = record {
      sorted = insert-IsSorted path new p.files c.sorted;
      stored = AllEntries-insert IsStored path new p.files (ground (arith, stored)) c.stored;
      fsdax_counted = ground (arith, same fsdax);
      ssd_counted = ground (arith, same ssd);
    }
      where
        same :
            (tier : Tier) → total (load tier) (insert path new p.files) ≡ total (load tier) p.files
        same tier =
            ground (arith, total-insert_old (load tier) path new meta p.files c.sorted found)

    pub move_to_ssd-IsCounted : IsCounted (state_of (move_to_ssd path meta p))
    unfolding move_to_ssd
    move_to_ssd-IsCounted = ground (
      arith,
      stored,
      load_within fsdax,
      load_within ssd,
      insert-IsSorted path (record meta { current_tier = ssd }) p.files c.sorted,
      AllEntries-insert IsStored path (record meta { current_tier = ssd }) p.files,
      total-insert_old (load fsdax) path (record meta { current_tier = ssd }) meta p.files c.sorted
          found,
      total-insert_old (load ssd) path (record meta { current_tier = ssd }) meta p.files c.sorted
          found,
    )

    pub move_to_fsdax-IsCounted : IsCounted (state_of (move_to_fsdax path meta p))
    unfolding move_to_fsdax
    move_to_fsdax-IsCounted = ground (
      arith,
      stored,
      load_within fsdax,
      load_within ssd,
      insert-IsSorted path (record meta { current_tier = fsdax }) p.files c.sorted,
      AllEntries-insert IsStored path (record meta { current_tier = fsdax }) p.files,
      total-insert_old (load fsdax) path (record meta { current_tier = fsdax }) meta p.files
          c.sorted found,
      total-insert_old (load ssd) path (record meta { current_tier = fsdax }) meta p.files c.sorted
          found,
    )

    pub move_to-IsCounted : (tier : Tier) → IsCounted (state_of (move_to tier path meta p))
    unfolding move_to
    move_to-IsCounted fsdax = move_to_fsdax-IsCounted
    move_to-IsCounted ssd = move_to_ssd-IsCounted
    move_to-IsCounted pfs = c
    move_to-IsCounted unknown = c

    pub release-IsCounted :
        IsCounted (record (release meta p) { files = erase path (release meta p).files })
    unfolding release
    release-IsCounted = ground (
      arith,
      stored,
      load_within fsdax,
      load_within ssd,
      erase-IsSorted path p.files c.sorted,
      AllEntries-erase IsStored path p.files c.stored,
      total-erase (load fsdax) path meta p.files c.sorted found,
      total-erase (load ssd) path meta p.files c.sorted found,
    )

abbrev pub IsWord : ℕ → Type 0
IsWord size = size < word

pub IsCounted-kept : IsKept IsWord IsCounted
IsCounted-kept = record {
  relock = λ p b c. ground arith;
  places = λ path size p w new c. place-IsCounted path p size w new c;
  updates = λ path p meta new found q t s c. update-IsCounted path p meta found c new q t s;
  moves = λ path p meta tier found c. move_to-IsCounted path p meta found c tier;
  releases = λ path p meta found c. release-IsCounted path p meta found c;
}

-- From globals where this holds, after any calls with 64-bit sizes and however the last one ends:
-- the keys are in order, each entry is under its own path and in PM or SSD, and each counter is,
-- modulo 2 ^ 64, the sum of the sizes of the files in its tier.
pub run-IsCounted :
    (cs : List Call) (p : Policy)
    → All (Sized IsWord) cs
    → IsCounted p
    → IsCounted (state_of (run cs p))
run-IsCounted cs p w c = run-Keeps IsCounted-kept cs w p c
