-- ===== src/Completion/Overlap.antt =====
-- Several application threads.
use hvac_arc.Base.{◌+◌, ◌≡◌, refl, arith}
use hvac_arc.Completion.{Shared, Step, issue, answer, sleep, leave, rouse, signal, IsAnswer}

pub data Steps (s : Shared) : Shared → Type 0 where
  here : Steps s s
  then_step : {t u : Shared} → Steps s t → Step t u → Steps s u

-- No request is issued in a run.
abbrev pub IsQuiet : {s t : Shared} → Steps s t → Type 0
IsQuiet here = Unit
IsQuiet (then_step r (issue s)) = ⊥
IsQuiet (then_step r (answer s n e)) = IsQuiet r
IsQuiet (then_step r (sleep s n w d)) = IsQuiet r
IsQuiet (then_step r (leave s n w d)) = IsQuiet r
IsQuiet (then_step r (rouse s n e)) = IsQuiet r

-- What is left when two threads have issued a request each, and both callbacks ran before either
-- thread looked at `done`.
abbrev pub overlapped : Shared → Shared
overlapped s =
    let answered : Shared = signal (signal (record s { waiting = s.waiting + 1 + 1 })) in
    record answered { done = 2; in_flight = 0 }

overlap : (s : Shared) → s.in_flight ≡ 0 → Steps s (overlapped s)
overlap s e =
    then_step
      (then_step (then_step (then_step here (issue s)) (issue one)) (answer two 1 (omega arith)))
      (answer three 0 refl)
  where
    one : Shared
    one = record s { done = 0; in_flight = s.in_flight + 1; waiting = s.waiting + 1 }

    two : Shared
    two = record s { done = 0; in_flight = s.in_flight + 1 + 1; waiting = s.waiting + 1 + 1 }

    three : Shared
    three = signal (record two { done = 1; in_flight = 1 })

-- `done` at 2 with nothing in flight.
abbrev IsStuck : Shared → Type 0
IsStuck s = (s.done ≡ 2) × (s.in_flight ≡ 0)

no-IsAnswer : {s t : Shared} (m : Step s t) → IsStuck s → ¬ IsAnswer m
no-IsAnswer (issue s) d a = a
no-IsAnswer (answer s n e) d a = ground arith
no-IsAnswer (sleep s n w e) d a = a
no-IsAnswer (leave s n w e) d a = ground arith
no-IsAnswer (rouse s n e) d a = a

quiet-IsStuck : {s t : Shared} (r : Steps s t) → IsQuiet r → IsStuck s → IsStuck t
quiet-IsStuck here q d = d
quiet-IsStuck (then_step r (issue s)) q d = elim q [ ]
quiet-IsStuck (then_step r (answer s n e)) q d =
    absurd (no-IsAnswer (answer s n e) (quiet-IsStuck r q d) tt)
quiet-IsStuck (then_step r (sleep s n w e)) q d = quiet-IsStuck r q d
quiet-IsStuck (then_step r (leave s n w e)) q d = quiet-IsStuck r q d
quiet-IsStuck (then_step r (rouse s n e)) q d = quiet-IsStuck r q d

-- From any state with no request in flight, two threads can issue a request each and have both
-- answered so that `done` is 2. After any further steps of which none issues a request, no waiting
-- thread can leave and no callback is left to run: all wait until another thread issues a request.
pub overlap_loses_wakeups :
    (s : Shared)
    → s.in_flight ≡ 0
    → Steps s (overlapped s)
      × ((t u : Shared) (r : Steps (overlapped s) t) → IsQuiet r → (m : Step t u) → ¬ IsAnswer m)
overlap_loses_wakeups s e =
    (overlap s e, λ t u r q m. no-IsAnswer m (quiet-IsStuck r q (refl, refl)))
