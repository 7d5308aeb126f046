-- ===== src/Server/Waking.antt =====
-- The data mover's thread against the close handler, as steps: `data_mutex`, `data_cond` and the
-- two lists of hvac_data_mover.cpp.
use hvac_arc.Base.{◌≡◌, refl, List, [], ◌∷◌, ◌++◌, Bytes, arith}

-- `copied` is what has been given to `fs::copy`, in order. asleep: in `pthread_cond_wait`. notified: signalled there. moving: from the unlock to the next
-- wait.
pub data Phase : Type 0 where
  asleep notified moving : Phase

pub record Mover : Type 0 where
  pub phase : Phase
  pub queue : List Bytes
  pub list : List Bytes
  pub copied : List Bytes

-- `pthread_cond_signal` wakes a thread that waits, and is lost on one that does not.
abbrev pub signalled : Phase → Phase
signalled asleep = notified
signalled notified = notified
signalled moving = moving

abbrev pub closed : Bytes → Mover → Mover
closed path s = record s { phase = signalled s.phase; queue = s.queue ++ path ∷ [] }

-- close: the handler queues a path under the mutex.
-- wake: the thread takes the mutex again, drains the queue and lets the mutex go.
-- copy: it gives the first path of its list to `fs::copy` and takes it off.
-- sleep: with nothing left it takes the mutex and waits.
-- rouse: it wakes with no signal, as POSIX allows. The code has no loop around its wait.
pub data Turn : Mover → Mover → Type 0 where
  close : (s : Mover) (path : Bytes) → Turn s (closed path s)
  wake :
      (s : Mover)
      → s.phase ≡ notified
      → Turn s (record s { phase = moving; queue = []; list = s.list ++ s.queue })
  copy :
      (s : Mover) (path : Bytes) (rest : List Bytes)
      → s.phase ≡ moving
      → s.list ≡ path ∷ rest
      → Turn s (record s { list = rest; copied = s.copied ++ path ∷ [] })
  sleep : (s : Mover) → s.phase ≡ moving → s.list ≡ [] → Turn s (record s { phase = asleep })
  rouse : (s : Mover) → s.phase ≡ asleep → Turn s (record s { phase = notified })

-- A step of the data mover for which it waits for nothing: neither a handler's nor a wake-up by
-- chance.
abbrev pub IsOwn : {s t : Mover} → Turn s t → Type 0
IsOwn (close s path) = ⊥
IsOwn (wake s e) = Unit
IsOwn (copy s path rest e f) = Unit
IsOwn (sleep s e f) = Unit
IsOwn (rouse s e) = ⊥

pub data Turns (s : Mover) : Mover → Type 0 where
  stay : Turns s s
  turn : {t u : Mover} → Turns s t → Turn t u → Turns s u

abbrev pub at_rest : List Bytes → List Bytes → Mover
at_rest queue copied = record { phase = asleep; queue = queue; list = []; copied = copied }

no-IsOwn : {s t : Mover} (m : Turn s t) → s.phase ≡ asleep → ¬ IsOwn m
no-IsOwn (close s path) e a = a
no-IsOwn (wake s n) e a = ground arith
no-IsOwn (copy s path rest n f) e a = ground arith
no-IsOwn (sleep s n f) e a = ground arith
no-IsOwn (rouse s n) e a = a

-- A file is closed while the data mover sleeps, and a second one before it has copied the first:
-- the signal for the second is lost. The data mover can copy the first and fall asleep with the
-- second queued and not copied, and then it takes no step of its own: the second waits until
-- another file is closed, or for a wake-up with no signal, which POSIX allows and does not promise.
pub close-lost :
    (first second : Bytes)
    → Turns (at_rest [] []) (at_rest (second ∷ []) (first ∷ []))
      × ((t : Mover) (m : Turn (at_rest (second ∷ []) (first ∷ [])) t) → ¬ IsOwn m)
close-lost first second = (
  turn
      (turn
        (turn (turn (turn stay (close (at_rest [] []) first)) (wake woken refl))
          (close busy second))
        (copy queued first [] refl refl))
      (sleep copied refl refl),
  λ t m. no-IsOwn m refl,
)
  where
    woken : Mover
    woken = record { phase = notified; queue = first ∷ []; list = []; copied = [] }

    busy : Mover
    busy = record { phase = moving; queue = []; list = first ∷ []; copied = [] }

    queued : Mover
    queued = record { phase = moving; queue = second ∷ []; list = first ∷ []; copied = [] }

    copied : Mover
    copied = record { phase = moving; queue = second ∷ []; list = []; copied = first ∷ [] }
