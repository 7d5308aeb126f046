-- ===== src/Progress/Defs.antt =====
-- The steps of the progress thread, between those of the other threads and of the network.
use hvac_arc.Base.{
  Bool, true, false, not, ◌&&◌, List, [], ◌∷◌, ◌++◌, ◌≡◌, Option, none, some, if◌then◌else◌,
}

-- Where `hvac_progress_fn` stands: at the test of the outer loop; at HG_Trigger; at the test of the
-- inner loop, knowing whether a callback was run; before the test, and in the call, of HG_Progress;
-- at its end.
pub data At : Type 0 where
  outer triggering : At
  inner : Bool → At
  testing progressing ended : At

-- The flag, the completions that Mercury holds with their callbacks, and the callbacks that were
-- run.
pub record Comm {ℓ} (Callback : Type ℓ) : Type ℓ where
  pub at : At
  pub shutdown_flags : Bool
  pub completed : List Callback
  pub ran : List Callback

-- What `HG_Trigger(hg_context, 0, 1, &actual_count)` takes from the completions that Mercury holds
-- to run its callback, with the completions that are left; `none` when it runs none.
abbrev pub Triggers {ℓ} : Type ℓ → Type ℓ
Triggers Callback = List Callback → Option (Callback × List Callback)

-- What Mercury documents of it: the callbacks are run in the order of the completions, and none is
-- left waiting when HG_Trigger has room for one.
pub record IsOldestFirst {ℓ} {Callback : Type ℓ} (hg_trigger : Triggers Callback) : Type ℓ where
  pub empty : hg_trigger [] ≡ none
  pub oldest : (cb : Callback) (q : List Callback) → hg_trigger (cb ∷ q) ≡ some (cb, q)

module _ {ℓ} {Callback : Type ℓ} where
  -- The call's callback, run, and its `actual_count`.
  abbrev pub triggered : Option (Callback × List Callback) → Comm Callback → Comm Callback
  triggered none c = record c { at = inner false }
  triggered (some (cb, left)) c = record c {
    at = inner true;
    completed = left;
    ran = c.ran ++ cb ∷ [];
  }

  -- The next step of the thread.
  abbrev pub step_at : Triggers Callback → At → Comm Callback → Comm Callback
  step_at hg_trigger outer c = record c { at = if c.shutdown_flags then ended else triggering }
  step_at hg_trigger triggering c = triggered (hg_trigger c.completed) c
  step_at hg_trigger (inner count) c = record c {
    at = if count && not c.shutdown_flags then triggering else testing;
  }
  step_at hg_trigger testing c = record c {
    at = if not c.shutdown_flags then progressing else outer;
  }
  step_at hg_trigger progressing c = record c { at = outer }
  step_at hg_trigger ended c = c

  unfoldable pub step : Triggers Callback → Comm Callback → Comm Callback
  step hg_trigger c = step_at hg_trigger c.at c

  -- `hvac_shutdown_comm`, which changes nothing else.
  abbrev pub shutdown_comm : Comm Callback → Comm Callback
  shutdown_comm c = record c { shutdown_flags = true }

  -- `hvac_client_shutdown`, the destructor of the client library.
  abbrev pub client_shutdown : Comm Callback → Comm Callback
  client_shutdown c = shutdown_comm c

-- What happens next: a step of the thread, a completion from the network, or a call of
-- `hvac_shutdown_comm`.
pub data Event {ℓ} (Callback : Type ℓ) : Type ℓ where
  own : Event Callback
  completes : Callback → Event Callback
  shuts_down : Event Callback

module _ {ℓ} {Callback : Type ℓ} where
  unfoldable pub happen : Triggers Callback → Event Callback → Comm Callback → Comm Callback
  unfolding step
  happen hg_trigger own c = step hg_trigger c
  happen hg_trigger (completes cb) c = record c { completed = c.completed ++ cb ∷ [] }
  happen hg_trigger shuts_down c = shutdown_comm c

  unfoldable pub happen_all :
      Triggers Callback → List (Event Callback) → Comm Callback → Comm Callback
  unfolding happen
  happen_all hg_trigger [] c = c
  happen_all hg_trigger (e ∷ es) c = happen_all hg_trigger es (happen hg_trigger e c)
