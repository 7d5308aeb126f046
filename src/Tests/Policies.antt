-- ===== src/Tests/Policies.antt =====
-- The cache policy on two small files.
use hvac_arc.Base.{
  ℕ, ◌≡◌, refl, false, Option, some, List, [], ◌∷◌, if◌then◌else◌, Bytes, bytes_ord, ◌==◌, codes,
  returns, state_of, arith,
}
use hvac_arc.OrderedMap.{lookup}
use hvac_arc.CachePolicy.{
  fsdax, ssd, FileMeta, Policy, initial, select_victim, Call, add, accessed, moved, opened,
  moved_out, selects, evicts, step, run,
}
use hvac_arc.CachePolicy.Accounting.{IsCounted, run-IsCounted}
use hvac_arc.CachePolicy.Capacity.{IsBounded, run-IsBounded}
use hvac_arc.CachePolicy.Answers.{Answers}
use hvac_arc.CachePolicy.Victim.{IsVictim, select_victim_lem}
use hvac_arc.CachePolicy.Endings.{stop_of, ending, step-ending}
use hvac_arc.CachePolicy.Init.{Env, fsdax_capacity_name}

abbrev first : Bytes
first = codes "a"

abbrev second_path : Bytes
second_path = codes "b"

-- Room for 10 bytes in PM and 20 in SSD.
abbrev empty : Policy
empty = record initial { fsdax_capacity = 10; ssd_capacity = 20 }

empty-IsCounted : IsCounted empty
empty-IsCounted = record { sorted = tt; stored = tt; fsdax_counted = refl; ssd_counted = refl }

empty-IsBounded : IsBounded empty
empty-IsBounded = record {
  counted = empty-IsCounted;
  fsdax_small = ground arith;
  ssd_small = ground arith;
  small = tt;
  fsdax_fits = ground arith;
  ssd_fits = ground arith;
}

abbrev calls : List Call
calls =
    add first 8
    ∷ add second_path 5
    ∷ accessed first
    ∷ opened first false
    ∷ moved first ssd
    ∷ selects
    ∷ evicts
    ∷ moved_out second_path
    ∷ []

-- A closed file and one that was read more often, both in PM.
abbrev closed_file : Bytes → ℕ → FileMeta
closed_file path count = record {
  path = path;
  current_tier = fsdax;
  size = 4;
  access_count = count;
  is_open = false;
}

abbrev full : Policy
full = record empty {
  files = (first, closed_file first 3) ∷ (second_path, closed_file second_path 1) ∷ [];
  fsdax_used = 8;
}

victim_of_full : select_victim full ≡ returns second_path full
unfolding select_victim lookup
victim_of_full = refl

run-IsBounded_example : IsBounded (state_of (run calls empty))
run-IsBounded_example =
    run-IsBounded calls empty (ground arith, (ground arith, (tt, (tt, (tt, (tt, (tt, (tt, tt))))))))
      empty-IsBounded

run-IsCounted_example : IsCounted (state_of (run calls empty))
run-IsCounted_example =
    run-IsCounted calls empty (ground arith, (ground arith, (tt, (tt, (tt, (tt, (tt, (tt, tt))))))))
      empty-IsCounted

select_victim_lem_example :
    (victim : Bytes) × (select_victim full ≡ returns victim full) × IsVictim full.files victim
select_victim_lem_example = select_victim_lem full ((refl, tt), (tt, tt)) refl

step-ending_example :
    stop_of (step (moved_out (codes "c")) full) ≡ ending (moved_out (codes "c")) full
step-ending_example = step-ending full refl (moved_out (codes "c"))

abbrev with_pm : Option Bytes → Env
with_pm capacity name = if name == fsdax_capacity_name then capacity else some (codes "7")

-- Two files of 4 bytes, of which the first is read once, and both are closed.
abbrev earlier : List Call
earlier =
    add first 4
    ∷ accessed first
    ∷ add second_path 4
    ∷ opened first false
    ∷ opened second_path false
    ∷ []

abbrev after_them : Policy
after_them = record empty {
  files = (first, closed_file first 1) ∷ (second_path, closed_file second_path 0) ∷ [];
  fsdax_used = 8;
}
