-- ===== src/CachePolicy/Effects.antt =====
-- What the changes of hvac_cache_policy.cpp do to entries and counters when nothing wraps.
use mathlib.Core.Path.{fun_ext}
use hvac_arc.Base.{
  ℕ, ◌+◌, ◌-◌, ◌≡◌, refl, ap, ◌∙◌, inl, inr, Option, none, some, if◌then◌else◌, Bool, true, false,
  Bytes, bytes_ord, ◌==◌, add64, sub64, Outcome, returns, stops, Bool-cases, arith,
}
use hvac_arc.OrderedMap.{Map, lookup, insert, erase, lookup-insert, lookup-erase}
use hvac_arc.CachePolicy.Defs.{unlock, Tier, fsdax, ssd, pfs, unknown, FileMeta, Policy, same_tier}
use hvac_arc.CachePolicy.Calls.{place, move_to, move_to_ssd, move_to_fsdax, release, new_entry}
use hvac_arc.CachePolicy.Capacity.{IsBounded, IsSmall, IsSmall-entry}
use hvac_arc.CachePolicy.Spec.{
  put, entries, entry_of, spec_of, seen, goes, seen_at, place_file, move_file, drop_file,
  fits_fsdax, fits_ssd,
}
use hvac_arc.CachePolicy.Accounting.{load_within}

if-seen_at :
    (b : Bool) (o r : Option FileMeta)
    → seen_at (if b then o else r) ≡ (if b then seen_at o else seen_at r)
if-seen_at true o r = refl
if-seen_at false o r = refl

pub entries-insert :
    (path : Bytes) (file : FileMeta) (m : Map Bytes FileMeta)
    → entries (insert path file m) ≡ put path (some (entry_of file)) (entries m)
entries-insert path file m =
    fun_ext λ q.
      ap seen_at (lookup-insert q path file m) ∙ if-seen_at (path == q) (some file) (lookup q m)

pub entries-erase :
    (path : Bytes) (m : Map Bytes FileMeta) → entries (erase path m) ≡ put path none (entries m)
entries-erase path m =
    fun_ext λ q. ap seen_at (lookup-erase q path m) ∙ if-seen_at (path == q) none (lookup q m)

pub seen-unlock : {A : Type 0} (r : Outcome Policy A) → seen (unlock r) ≡ seen r
seen-unlock (returns a p) = refl
seen-unlock (stops e p) = refl

module _ (p : Policy) (b : IsBounded p) where
  -- Below the capacities nothing wraps.
  fsdax_sum : (size : ℕ) → IsSmall size → add64 p.fsdax_used size ≡ p.fsdax_used + size
  fsdax_sum size w = let c = b.counted in ground (arith, c.fsdax_counted)

  ssd_sum : (size : ℕ) → IsSmall size → add64 p.ssd_used size ≡ p.ssd_used + size
  ssd_sum size w = let c = b.counted in ground (arith, c.ssd_counted)

  module _ (path : Bytes) (meta : FileMeta) (found : lookup path p.files ≡ some meta) where
    size-IsSmall : IsSmall meta.size
    size-IsSmall = IsSmall-entry path p meta found b

    fsdax_left :
        same_tier meta.current_tier fsdax ≡ true
        → sub64 p.fsdax_used meta.size ≡ p.fsdax_used - meta.size
    fsdax_left t =
        let c = b.counted in
        ground (arith, c.fsdax_counted, size-IsSmall, load_within path p meta found c fsdax)

    ssd_left :
        same_tier meta.current_tier ssd ≡ true → sub64 p.ssd_used meta.size ≡ p.ssd_used - meta.size
    ssd_left t =
        let c = b.counted in
        ground (arith, c.ssd_counted, size-IsSmall, load_within path p meta found c ssd)

  pub place-spec :
      (path : Bytes) (size : ℕ)
      → IsSmall size
      → spec_of (place path size (record p { locked = true })) ≡ place_file path size (spec_of p)
  unfolding place
  place-spec path size w = elim (Bool-cases (fits_fsdax size (spec_of p))) [
    | inl fits ↦
        rw (fsdax_sum size w, fits, entries-insert path (new_entry path size fsdax) p.files) refl
    | inr full ↦
        rw (fsdax_sum size w, full, ssd_sum size w)
          (elim (Bool-cases (fits_ssd size (spec_of p))) [
            | inl fits ↦ rw (fits, entries-insert path (new_entry path size ssd) p.files) refl
            | inr full' ↦ rw full' refl
          ])
  ]

  module _ (path : Bytes) (meta : FileMeta) (found : lookup path p.files ≡ some meta) where
    move_to_ssd-spec :
        seen (move_to_ssd path meta (record p { locked = true }))
        ≡ move_file ssd path (entry_of meta) (spec_of p)
    unfolding move_to_ssd
    move_to_ssd-spec = elim (Bool-cases (same_tier meta.current_tier fsdax)) [
      | inr elsewhere ↦ rw elsewhere refl
      | inl here ↦
          rw
            (
              here,
              ssd_sum meta.size (size-IsSmall path meta found),
              fsdax_left path meta found here,
            )
            (elim (Bool-cases (fits_ssd meta.size (spec_of p))) [
              | inl fits ↦
                  rw (fits, entries-insert path (record meta { current_tier = ssd }) p.files) refl
              | inr full ↦ rw full refl
            ])
    ]

    move_to_fsdax-spec :
        seen (move_to_fsdax path meta (record p { locked = true }))
        ≡ move_file fsdax path (entry_of meta) (spec_of p)
    unfolding move_to_fsdax
    move_to_fsdax-spec = elim (Bool-cases (same_tier meta.current_tier ssd)) [
      | inr elsewhere ↦ rw elsewhere refl
      | inl here ↦
          rw
            (
              here,
              fsdax_sum meta.size (size-IsSmall path meta found),
              ssd_left path meta found here,
            )
            (elim (Bool-cases (fits_fsdax meta.size (spec_of p))) [
              | inl fits ↦
                  rw (fits, entries-insert path (record meta { current_tier = fsdax }) p.files) refl
              | inr full ↦ rw full refl
            ])
    ]

    pub move_to-spec :
        (tier : Tier)
        → same_tier meta.current_tier tier ≡ false
        → seen (move_to tier path meta (record p { locked = true }))
          ≡ move_file tier path (entry_of meta) (spec_of p)
    unfolding move_to
    move_to-spec fsdax other = move_to_fsdax-spec
    move_to-spec ssd other = move_to_ssd-spec
    move_to-spec pfs other = refl
    move_to-spec unknown other = refl

    -- A file that is where it is to go stays there.
    pub stays :
        (tier : Tier)
        → same_tier meta.current_tier tier ≡ true
        → move_file tier path (entry_of meta) (spec_of p) ≡ goes (spec_of p)
    stays tier same = ground arith

    not_ssd : same_tier meta.current_tier fsdax ≡ true → same_tier meta.current_tier ssd ≡ false
    not_ssd here = ground arith

    pub release-spec :
        spec_of (
          let q = release meta (record p { locked = true }) in
          record q { files = erase path q.files })
        ≡ drop_file path (entry_of meta) (spec_of p)
    unfolding release
    release-spec = elim (Bool-cases (same_tier meta.current_tier fsdax)) [
      | inl here ↦
          rw (here, fsdax_left path meta found here, entries-erase path p.files, not_ssd here) refl
      | inr elsewhere ↦ rw elsewhere (elim (Bool-cases (same_tier meta.current_tier ssd)) [
        | inl here ↦ rw (here, ssd_left path meta found here, entries-erase path p.files) refl
        | inr nowhere ↦ rw (nowhere, entries-erase path p.files) refl
      ])
    ]
