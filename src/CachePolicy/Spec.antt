-- ===== src/CachePolicy/Spec.antt =====
-- What hvac_cache_policy.h promises of the entries and the counters, without a map's representation
-- or a lock: entries as a function, and counters of bytes that do not wrap. An access count is 64
-- bits wide, as in the header. Within its capacities no call has anything to evict.
use hvac_arc.Base.{
  ℕ, ◌+◌, ◌-◌, minus_one, Option, none, some, List, [], ◌∷◌, if◌then◌else◌, leb, Bool, true, Bytes,
  bytes_ord, ◌==◌, add64, Stop, exits, Outcome, returns, stops,
}
use hvac_arc.OrderedMap.{Map, lookup}
use hvac_arc.CachePolicy.Defs.{Tier, fsdax, ssd, pfs, unknown, FileMeta, Policy, same_tier}
use hvac_arc.CachePolicy.History.{
  Call, add, accessed, moved, opened, asked, moved_out, selects, evicts, measured,
}

pub record Entry : Type 0 where
  pub tier : Tier
  pub size : ℕ
  pub accesses : ℕ
  pub is_open : Bool

pub record Spec : Type 0 where
  pub entry : Bytes → Option Entry
  pub fsdax_used : ℕ
  pub ssd_used : ℕ
  pub fsdax_capacity : ℕ
  pub ssd_capacity : ℕ

abbrev pub put : {V : Type 0} → Bytes → Option V → (Bytes → Option V) → Bytes → Option V
put path v f q = if path == q then v else f q

-- A call goes on with a state, or ends the process.
pub data Verdict : Type 0 where
  goes : Spec → Verdict
  ends : Stop → Verdict

abbrev pub fits_fsdax : ℕ → Spec → Bool
fits_fsdax size s = leb (s.fsdax_used + size) s.fsdax_capacity

abbrev pub fits_ssd : ℕ → Spec → Bool
fits_ssd size s = leb (s.ssd_used + size) s.ssd_capacity

abbrev pub new_file : Tier → ℕ → Entry
new_file tier size = record { tier = tier; size = size; accesses = 0; is_open = true }

-- A new file goes to the highest tier with room, or nowhere.
abbrev pub place_file : Bytes → ℕ → Spec → Spec
place_file path size s =
    if fits_fsdax size s
    then record s {
      entry = put path (some (new_file fsdax size)) s.entry;
      fsdax_used = s.fsdax_used + size;
    }
    else if fits_ssd size s
    then record s {
      entry = put path (some (new_file ssd size)) s.entry;
      ssd_used = s.ssd_used + size;
    }
    else s

-- From PM down to SSD, which must have room, or up, if PM has room.
abbrev pub move_file : Tier → Bytes → Entry → Spec → Verdict
move_file ssd path e s =
    if same_tier e.tier fsdax
    then if fits_ssd e.size s
      then goes (record s {
        entry = put path (some (record e { tier = ssd })) s.entry;
        fsdax_used = s.fsdax_used - e.size;
        ssd_used = s.ssd_used + e.size;
      })
      else ends (exits minus_one)
    else goes s
move_file fsdax path e s =
    if same_tier e.tier ssd
    then if fits_fsdax e.size s
      then goes (record s {
        entry = put path (some (record e { tier = fsdax })) s.entry;
        fsdax_used = s.fsdax_used + e.size;
        ssd_used = s.ssd_used - e.size;
      })
      else goes s
    else goes s
move_file pfs path e s = goes s
move_file unknown path e s = goes s

abbrev pub drop_file : Bytes → Entry → Spec → Spec
drop_file path e s = record s {
  entry = put path none s.entry;
  fsdax_used = if same_tier e.tier fsdax then s.fsdax_used - e.size else s.fsdax_used;
  ssd_used = if same_tier e.tier ssd then s.ssd_used - e.size else s.ssd_used;
}

-- What a call does with an entry that is there; without one it does nothing.
abbrev pub if_there : Option Entry → (Entry → Verdict) → Spec → Verdict
if_there none f s = goes s
if_there (some e) f s = f e

-- Without an entry the call ends the process.
abbrev pub must_be_there : Option Entry → (Entry → Verdict) → Verdict
must_be_there none f = ends (exits minus_one)
must_be_there (some e) f = f e

abbrev pub unless_there : Option Entry → Spec → Spec → Spec
unless_there none new s = new
unless_there (some e) new s = s

unfoldable pub spec_step : Call → Spec → Verdict
spec_step (add path size) s = goes (unless_there (s.entry path) (place_file path size s) s)
spec_step (accessed path) s =
    if_there (s.entry path)
      (λ e.
        goes (record s {
          entry = put path (some (record e { accesses = add64 e.accesses 1 })) s.entry;
        }))
      s
spec_step (moved path tier) s = if_there (s.entry path) (λ e. move_file tier path e s) s
spec_step (opened path is_open) s =
    must_be_there (s.entry path)
      λ e. goes (record s { entry = put path (some (record e { is_open = is_open })) s.entry })
spec_step (moved_out path) s = must_be_there (s.entry path) λ e. goes (drop_file path e s)
spec_step (asked path) s = goes s
spec_step selects s = goes s
spec_step evicts s = goes s
spec_step measured s = goes s

abbrev pub and_then : Verdict → (Spec → Verdict) → Verdict
and_then (goes s) f = f s
and_then (ends e) f = ends e

unfoldable pub spec_run : List Call → Spec → Verdict
spec_run [] s = goes s
spec_run (c ∷ cs) s = and_then (spec_step c s) (spec_run cs)

-- The promise that globals of the program stand for.
abbrev pub entry_of : FileMeta → Entry
entry_of file = record {
  tier = file.current_tier;
  size = file.size;
  accesses = file.access_count;
  is_open = file.is_open;
}

abbrev pub seen_at : Option FileMeta → Option Entry
seen_at none = none
seen_at (some file) = some (entry_of file)

abbrev pub entries : Map Bytes FileMeta → Bytes → Option Entry
entries m q = seen_at (lookup q m)

abbrev pub spec_of : Policy → Spec
spec_of p = record {
  entry = entries p.files;
  fsdax_used = p.fsdax_used;
  ssd_used = p.ssd_used;
  fsdax_capacity = p.fsdax_capacity;
  ssd_capacity = p.ssd_capacity;
}

abbrev pub seen : {A : Type 0} → Outcome Policy A → Verdict
seen (returns a p) = goes (spec_of p)
seen (stops e p) = ends e
