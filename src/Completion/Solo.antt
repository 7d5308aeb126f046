-- ===== src/Completion/Solo.antt =====
-- One application thread: it issues the next request only after it has left the wait for the last.
use hvac_arc.Base.{ℕ, zero, suc, ◌+◌, ◌<◌, ◌≡◌, ◌⊎◌, inl, inr, ap, refl, arith}
use hvac_arc.Completion.{
  Shared, Step, issue, answer, sleep, leave, rouse, idle, woken, left_asleep, IsWork,
}

-- Whether a step may be taken by a program with one application thread.
abbrev pub IsAlone : {s t : Shared} → Step s t → Type 0
IsAlone (issue s) = (s.waiting ≡ 0) × (s.asleep ≡ 0)
IsAlone (answer s n e) = Unit
IsAlone (sleep s n w d) = Unit
IsAlone (leave s n w d) = Unit
IsAlone (rouse s n e) = Unit

pub data Reach : Shared → Type 0 where
  start : Reach idle
  next : {s t : Shared} → Reach s → (m : Step s t) → IsAlone m → Reach t

-- The thread's request is in flight with `done` clear, or answered with `done` set and the thread
-- awake.
abbrev pub IsPending : Shared → Type 0
IsPending s =
    ((s.in_flight ≡ 1) × (s.done ≡ 0)) ⊎ ((s.in_flight ≡ 0) × ((s.done ≡ 1) × (s.asleep ≡ 0)))

pub data IsOrderly (s : Shared) : Type 0 where
  resting : s.waiting ≡ 0 → s.asleep ≡ 0 → s.in_flight ≡ 0 → IsOrderly s
  awake : s.waiting ≡ 1 → s.asleep ≡ 0 → IsPending s → IsOrderly s
  dozing : s.waiting ≡ 0 → s.asleep ≡ 1 → s.in_flight ≡ 1 → s.done ≡ 0 → IsOrderly s

Step-IsOrderly : {s t : Shared} (m : Step s t) → IsAlone m → IsOrderly s → IsOrderly t
Step-IsOrderly (issue s) a (resting w z f) = awake (omega arith) z (inl (omega arith, refl))
Step-IsOrderly (issue s) a (awake w z p) = absurd (ground arith)
Step-IsOrderly (issue s) a (dozing w z f d) = absurd (ground arith)
Step-IsOrderly (answer s n e) a (resting w z f) = absurd (omega arith)
Step-IsOrderly (answer s n e) a (awake w z p) = elim p [
  | inl (flying, clear) ↦
      awake (omega (arith, ap woken z)) (ap left_asleep z)
        (inr (omega arith, (omega arith, ap left_asleep z)))
  | inr landed ↦ absurd (omega (arith, landed.0))
]
Step-IsOrderly (answer s n e) a (dozing w z f d) =
    awake (omega (arith, ap woken z)) (ap left_asleep z)
      (inr (omega arith, (omega arith, ap left_asleep z)))
Step-IsOrderly (sleep s n w d) a (resting x z f) = absurd (omega arith)
Step-IsOrderly (sleep s n w d) a (awake x z p) = elim p [
  | inl (flying, clear) ↦ dozing (omega arith) (omega arith) flying clear
  | inr landed ↦ absurd (d landed.1.0)
]
Step-IsOrderly (sleep s n w d) a (dozing x z f c) = absurd (omega arith)
Step-IsOrderly (leave s n w d) a (resting x z f) = absurd (omega arith)
Step-IsOrderly (leave s n w d) a (awake x z p) = elim p [
  | inl flying ↦ absurd (omega (arith, flying.1))
  | inr landed ↦ resting (omega arith) z landed.0
]
Step-IsOrderly (leave s n w d) a (dozing x z f c) = absurd (omega arith)
Step-IsOrderly (rouse s n e) a (resting x z f) = absurd (omega arith)
Step-IsOrderly (rouse s n e) a (awake x z p) = absurd (omega arith)
Step-IsOrderly (rouse s n e) a (dozing x z f c) = awake (omega arith) (omega arith) (inl (f, c))

Reach-IsOrderly : {s : Shared} → Reach s → IsOrderly s
Reach-IsOrderly start = resting refl refl refl
Reach-IsOrderly (next r m a) = Step-IsOrderly m a (Reach-IsOrderly r)

-- What falls with every step but a wake-up by chance.
abbrev pub left : Shared → ℕ
left s = s.in_flight + s.in_flight + (s.waiting + s.waiting + s.asleep)

woken-left : (n : ℕ) → woken n + left_asleep n ≡ n
woken-left zero = refl
woken-left (suc n) = omega arith

woken_small : (n : ℕ) → woken n < 2
woken_small zero = omega arith
woken_small (suc n) = omega arith

work-left : {s t : Shared} (m : Step s t) → IsWork m → left t < left s
work-left (issue s) a = elim a [ ]
work-left (answer s n e) a = omega (arith, woken-left s.asleep, woken_small s.asleep)
work-left (sleep s n w d) a = omega arith
work-left (leave s n w d) a = omega arith
work-left (rouse s n e) a = elim a [ ]

IsAlone-work : {s t : Shared} (m : Step s t) → IsWork m → IsAlone m
IsAlone-work (issue s) a = elim a [ ]
IsAlone-work (answer s n e) a = tt
IsAlone-work (sleep s n w d) a = tt
IsAlone-work (leave s n w d) a = tt
IsAlone-work (rouse s n e) a = tt

-- The wait ends whatever happens: the thread has left, or a step of the progress thread or of the
-- waiting thread can be taken, and after each such step the wait ends.
pub data WaitEnds : Shared → Type 0 where
  over : (s : Shared) → s.waiting ≡ 0 → s.asleep ≡ 0 → WaitEnds s
  after :
      (s t : Shared) (m : Step s t)
      → IsWork m
      → ((u : Shared) (n : Step s u) → IsWork n → WaitEnds u)
      → WaitEnds s

ends_within : (fuel : ℕ) (s : Shared) → left s < fuel → IsOrderly s → WaitEnds s
ends_within zero s l o = absurd (omega arith)
ends_within (suc fuel) s l o =
    let later : (u : Shared) (n : Step s u) → IsWork n → WaitEnds u = λ u n a.
      ends_within fuel u (omega (arith, work-left n a)) (Step-IsOrderly n (IsAlone-work n a) o) in
    elim o [
      | resting w z f ↦ over s w z
      | awake w z p ↦ elim p [
        | inl flying ↦ after s _ (answer s 0 flying.0) tt later
        | inr landed ↦ after s _ (leave s 0 w landed.1.0) tt later
      ]
      | dozing w z f d ↦ after s _ (answer s 0 f) tt later
    ]

-- In every state that a program with one application thread can reach, wake-ups with no signal
-- included, the wait ends as long as the progress thread and the waiting thread take the steps that
-- they can, and the thread needs no wake-up but the callback's signal: that signal is not lost.
pub solo-WaitEnds : (s : Shared) → Reach s → WaitEnds s
solo-WaitEnds s r = ends_within (left s + 1) s (omega arith) (Reach-IsOrderly r)
