-- ===== src/Progress/Shutdown.antt =====
-- The end of the progress thread.
use hvac_arc.Base.{
  ℕ, suc, ◌+◌, ◌-◌, ◌≤◌, ◌≡◌, true, List, [], ◌∷◌, refl, Option, none, some, length, length-append,
  arith,
}
use hvac_arc.Progress.Defs.{
  At, outer, triggering, inner, testing, progressing, ended, Comm, Triggers, triggered, step_at,
  step, Event, own, completes, shuts_down, happen, happen_all,
}

-- The steps from a place to the end, once the flag is set.
abbrev pub left : At → ℕ
left ended = 0
left outer = 1
left progressing = 2
left testing = 2
left (inner count) = 3
left triggering = 4

left_ended : (a : At) → left a ≡ 0 → a ≡ ended
left_ended a h = ground arith

-- The callbacks that the thread still runs at most, once the flag is set.
abbrev last_runs : At → ℕ
last_runs triggering = 1
last_runs ended = 0
last_runs outer = 0
last_runs progressing = 0
last_runs testing = 0
last_runs (inner count) = 0

module _ {ℓ} {Callback : Type ℓ} where
  -- How many steps of the thread there are among the events.
  abbrev pub own_steps : List (Event Callback) → ℕ
  own_steps [] = 0
  own_steps (own ∷ es) = suc (own_steps es)
  own_steps (completes cb ∷ es) = own_steps es
  own_steps (shuts_down ∷ es) = own_steps es

  -- The callbacks whose completions are among the events.
  abbrev pub arrivals : List (Event Callback) → List Callback
  arrivals [] = []
  arrivals (own ∷ es) = arrivals es
  arrivals (completes cb ∷ es) = cb ∷ arrivals es
  arrivals (shuts_down ∷ es) = arrivals es

  own_steps_cons :
      (e : Event Callback) (es : List (Event Callback))
      → own_steps (e ∷ es) ≡ own_steps (e ∷ []) + own_steps es
  own_steps_cons own es = omega arith
  own_steps_cons (completes cb) es = omega arith
  own_steps_cons shuts_down es = omega arith

  triggered-left :
      (o : Option (Callback × List Callback)) (c : Comm Callback)
      → (left (triggered o c).at ≤ 3)
        × ((triggered o c).shutdown_flags ≡ c.shutdown_flags)
        × (length (triggered o c).ran + last_runs (triggered o c).at ≤ length c.ran + 1)
  triggered-left none c = ground arith
  triggered-left (some (cb, l)) c = grind (arith, length-append)

  happen-left :
      (hg_trigger : Triggers Callback) (e : Event Callback) (c : Comm Callback)
      → c.shutdown_flags ≡ true
      → ((happen hg_trigger e c).shutdown_flags ≡ true)
        × (left (happen hg_trigger e c).at ≤ left c.at - own_steps (e ∷ []))
        × (length (happen hg_trigger e c).ran + last_runs (happen hg_trigger e c).at
            ≤ length c.ran + last_runs c.at)
  unfolding happen step
  happen-left hg_trigger own c f = own-left c.at refl
    where
      own-left :
          (a : At)
          → c.at ≡ a
          → ((step_at hg_trigger c.at c).shutdown_flags ≡ true)
            × (left (step_at hg_trigger c.at c).at ≤ left c.at - 1)
            × (length (step_at hg_trigger c.at c).ran + last_runs (step_at hg_trigger c.at c).at
                ≤ length c.ran + last_runs c.at)
      own-left outer e = ground (arith, e, f)
      own-left triggering e = ground (arith, e, f, triggered-left (hg_trigger c.completed) c)
      own-left (inner b) e = ground (arith, e, f)
      own-left testing e = ground (arith, e, f)
      own-left progressing e = ground (arith, e, f)
      own-left ended e = ground (arith, e, f)
  happen-left hg_trigger (completes cb) c f = ground (arith, f)
  happen-left hg_trigger shuts_down c f = ground (arith, f)

  happen_all-left :
      (hg_trigger : Triggers Callback) (es : List (Event Callback)) (c : Comm Callback)
      → c.shutdown_flags ≡ true
      → (left (happen_all hg_trigger es c).at ≤ left c.at - own_steps es)
        × (length (happen_all hg_trigger es c).ran + last_runs (happen_all hg_trigger es c).at
            ≤ length c.ran + last_runs c.at)
  unfolding happen_all
  happen_all-left hg_trigger [] c f = ground arith
  happen_all-left hg_trigger (e ∷ es) c f =
      let now = happen-left hg_trigger e c f in
      let later = happen_all-left hg_trigger es (happen hg_trigger e c) now.0 in
      ground (arith, now, later, own_steps_cons e es)

  -- Once the flag is set, the progress thread returns within four of its own steps, whatever
  -- completes meanwhile and whichever completion HG_Trigger takes, and runs at most one more callback.
  pub shut_down-ends :
      (hg_trigger : Triggers Callback) (es : List (Event Callback)) (c : Comm Callback)
      → c.shutdown_flags ≡ true
      → 4 ≤ own_steps es
      → ((happen_all hg_trigger es c).at ≡ ended)
        × (length (happen_all hg_trigger es c).ran ≤ length c.ran + 1)
  shut_down-ends hg_trigger es c f enough =
      ground (arith, happen_all-left hg_trigger es c f, left_ended (happen_all hg_trigger es c).at)
