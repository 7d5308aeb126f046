-- ===== src/Wrappers/Clock.antt =====
-- The time that a wrapper of wrappers.c measures.
use hvac_arc.Base.{ℕ, ◌+◌, ◌-◌, ◌*◌, ◌≤◌, ◌<◌, ◌≡◌, arith}
use hvac_arc.Host.{Timespec}
use hvac_arc.Wrappers.Defs.{second, elapsed}

abbrev pub nanoseconds : Timespec → ℕ
nanoseconds t = t.sec * second + t.nsec

-- Between two readings of a clock that does not go back, with nanoseconds below a second, both
-- branches give the time that has passed.
pub elapsed_lem :
    (start later : Timespec)
    → start.nsec < second
    → later.nsec < second
    → nanoseconds start ≤ nanoseconds later
    → elapsed start later ≡ nanoseconds later - nanoseconds start
unfolding elapsed
elapsed_lem start later s l h = ground arith
