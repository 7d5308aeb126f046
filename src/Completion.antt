-- ===== src/Completion.antt =====
-- The hand-over of an answer between threads in hvac_comm_client.cpp: `done`, its mutex and
-- condition variable, and any number of application threads beside Mercury's progress thread.
pub mod Solo
pub mod Overlap
use hvac_arc.Base.{
  ℕ, zero, suc, ◌+◌, ◌%◌, ◌≡◌, ◌≢◌, List, [], ◌∷◌, ℤ, minus_one, Option, none, some,
}

-- `in_flight` requests have been forwarded and not yet answered. `waiting` threads are in a block
-- function and about to test `done`; `asleep` threads are in its `pthread_cond_wait`. `done` is
-- 8 bits wide.
pub record Shared : Type 0 where
  pub done : ℕ
  pub in_flight : ℕ
  pub waiting : ℕ
  pub asleep : ℕ

-- `pthread_cond_signal` wakes one thread of those that sleep, if there is one.
abbrev pub woken : ℕ → ℕ
woken zero = 0
woken (suc n) = 1

abbrev pub left_asleep : ℕ → ℕ
left_asleep zero = 0
left_asleep (suc n) = n

abbrev pub signal : Shared → Shared
signal s = record s { waiting = s.waiting + woken s.asleep; asleep = left_asleep s.asleep }

-- One step of a thread, under `done_mutex`.
--   issue: a `gen` function clears `done` and forwards, and its thread goes to its block function.
--   answer: a callback runs `done++` and signals.
--   sleep: a waiting thread finds `done` other than HG_TRUE, and waits on the condition variable.
--   leave: a waiting thread finds `done` equal to HG_TRUE, and returns.
--   rouse: a sleeping thread wakes with no signal, as POSIX allows.
pub data Step : Shared → Shared → Type 0 where
  issue :
      (s : Shared)
      → Step s (record s { done = 0; in_flight = s.in_flight + 1; waiting = s.waiting + 1 })
  answer :
      (s : Shared) (n : ℕ)
      → s.in_flight ≡ suc n
      → Step s (signal (record s { done = (s.done + 1) % 256; in_flight = n }))
  sleep :
      (s : Shared) (n : ℕ)
      → s.waiting ≡ suc n
      → s.done ≢ 1
      → Step s (record s { waiting = n; asleep = s.asleep + 1 })
  leave : (s : Shared) (n : ℕ) → s.waiting ≡ suc n → s.done ≡ 1 → Step s (record s { waiting = n })
  rouse :
      (s : Shared) (n : ℕ)
      → s.asleep ≡ suc n
      → Step s (record s { waiting = s.waiting + 1; asleep = n })

abbrev pub idle : Shared
idle = record { done = 0; in_flight = 0; waiting = 0; asleep = 0 }

-- A callback that runs, or a thread that leaves its block function.
abbrev pub IsAnswer : {s t : Shared} → Step s t → Type 0
IsAnswer (issue s) = ⊥
IsAnswer (answer s n e) = Unit
IsAnswer (sleep s n w d) = ⊥
IsAnswer (leave s n w d) = Unit
IsAnswer (rouse s n e) = ⊥

-- A step that the threads take once a request is forwarded, with no wake-up by chance.
abbrev pub IsWork : {s t : Shared} → Step s t → Type 0
IsWork (issue s) = ⊥
IsWork (answer s n e) = Unit
IsWork (sleep s n w d) = Unit
IsWork (leave s n w d) = Unit
IsWork (rouse s n e) = ⊥
