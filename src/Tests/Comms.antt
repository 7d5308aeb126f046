-- ===== src/Tests/Comms.antt =====
-- The log's set-up, the registration of the requests and the progress thread.
use hvac_arc.Base.{
  ℕ, ◌+◌, ◌*◌, ◌<◌, ◌≤◌, ◌≡◌, refl, pos, Bool, true, false, none, some, List, [], ◌∷◌, ◌++◌, Bytes,
  codes, length, returns, stops, faults, state_of, arith,
}
use hvac_arc.CachePolicy.Init.{Env}
use hvac_arc.Logging.{Log4c, Thread, Setting, client_build, server_build, init_logging}
use hvac_arc.Logging.Buffer.{init_logging-Fits}
use hvac_arc.Logging.Settings.{IsValid, Kept, init_logging-keeps}
use hvac_arc.Registration.{Endpoint, new_endpoint, client_comm_register_rpc, register_basic_rpc}
use hvac_arc.Registration.Dispatch.{Distinct, Serves, client_ids-dispatch}
use hvac_arc.Progress.{
  inner, Comm, triggering, ended, own, completes, happen_all, Triggers, IsOldestFirst,
}
use hvac_arc.Progress.Waiting.{run_all, client_block-steps}
use hvac_arc.Host.{Delivery, replied}
use hvac_arc.Client.{Client, Callback, read_back, sought, run_callback, wait_done, client_block}
use hvac_arc.Tests.Samples.{client, text}
use hvac_arc.Progress.Shutdown.{shut_down-ends}
use hvac_arc.Progress.Draining.{steps, steps-drain}

-- What log4c was told: its settings, and for each message whether it was kept from the wrappers.
pub record Told : Type 0 where
  pub settings : List Setting
  pub messages : List (Bool × Bytes)

abbrev log4c : Log4c
log4c = record {
  World = Told;
  init = λ w. (pos 0, w);
  set = λ x w. record w { settings = x ∷ w.settings };
  write = λ kept category priority text w. record w { messages = (kept, text) ∷ w.messages };
  notice = pos 500;
  info = 600;
  pid = 4194303;
  file_name = codes "src/hvac_logging.c";
}

abbrev quiet_thread : Thread Told
quiet_thread = record {
  world = record { settings = []; messages = [] };
  tl_disable_redirect = false;
}

-- An environment without the three variables, or with a level that is far too high.
abbrev bare : Env
bare name = none

abbrev loud : Env
loud name = some (codes "9000")

init_logging-Fits_example :
    (4194303 < 100000
      → (u : Thread Told) × (init_logging log4c client_build bare quiet_thread ≡ returns tt u))
    × (100000 ≤ 4194303
        → (u : Thread Told) × (init_logging log4c client_build bare quiet_thread ≡ stops faults u))
init_logging-Fits_example = init_logging-Fits log4c client_build bare quiet_thread refl

abbrev AllValid : List Setting → Type 0
AllValid [] = Unit
AllValid (x ∷ xs) = IsValid x × AllValid xs

abbrev AllKept : List (Bool × Bytes) → Type 0
AllKept [] = Unit
AllKept ((kept, message) ∷ ms) = (kept ≡ true) × AllKept ms

abbrev WellTold : Told → Type 0
WellTold w = AllValid w.settings × AllKept w.messages

told : Kept log4c server_build WellTold
told = record {
  sets = λ x w valid p. ((valid, p.0), p.1);
  logs = λ priority text w p. (p.0, (refl, p.1));
}

init_logging-keeps_example :
    WellTold (state_of (init_logging log4c server_build loud quiet_thread)).world
init_logging-keeps_example =
    init_logging-keeps log4c server_build WellTold told loud quiet_thread (refl, refl) (tt, tt)

-- A number for a text.
abbrev value : Bytes → ℕ
value [] = 0
value (c ∷ s) = c + 256 * value s

ids : Distinct value
ids = record {
  base_open = λ e. ground arith;
  base_close = λ e. ground arith;
  base_seek = λ e. ground arith;
  open_close = λ e. ground arith;
  open_seek = λ e. ground arith;
  close_seek = λ e. ground arith;
}

client_ids-dispatch_example :
    (client : Endpoint) × ((server : Endpoint) × (client_comm_register_rpc value new_endpoint
        ≡ returns tt client)
      × (register_basic_rpc value new_endpoint ≡ returns tt server)
      × Serves value client server
      × Serves value client client)
client_ids-dispatch_example = client_ids-dispatch value ids

-- The thread between two callbacks, with two completions.
abbrev busy : Comm ℕ
busy = record { at = triggering; shutdown_flags = false; completed = 1 ∷ 2 ∷ []; ran = [] }

-- HG_Trigger as a queue.
abbrev oldest_first : {C : Type 0} → Triggers C
oldest_first [] = none
oldest_first (cb ∷ q) = some (cb, q)

in_order : {C : Type 0} → IsOldestFirst (oldest_first {C = C})
in_order = record { empty = refl; oldest = λ cb q. refl }

steps-drain_example :
    ((steps oldest_first 8 busy).completed ≡ [])
    × ((steps oldest_first 8 busy).ran ≡ [] ++ (1 ∷ 2 ∷ []))
steps-drain_example =
    steps-drain oldest_first in_order 8 busy refl (λ e. ground arith) (omega arith)

shut_down-ends_example :
    ((happen_all oldest_first
        (own ∷ completes 3 ∷ own ∷ own ∷ own ∷ [])
        (record busy { shutdown_flags = true })).at
      ≡ ended)
    × (length
          (happen_all oldest_first
            (own ∷ completes 3 ∷ own ∷ own ∷ own ∷ [])
            (record busy { shutdown_flags = true })).ran
        ≤ length {A = ℕ} [] + 1)
shut_down-ends_example =
    shut_down-ends oldest_first (own ∷ completes 3 ∷ own ∷ own ∷ own ∷ [])
      (record busy { shutdown_flags = true }) refl (omega arith)

-- Two answers wait, and a block function takes the first.
abbrev late_answer : List (Callback × Delivery)
late_answer = (sought, replied (pos 2) []) ∷ []

abbrev blocked : Client ℕ
blocked = record (client 0) { pending = (read_back, replied (pos 3) text) ∷ late_answer }

abbrev unblocked : Client ℕ
unblocked = record (client 0) {
  done = 1;
  read_ret = pos 3;
  buffer = some text;
  pending = late_answer;
}

abbrev thread : Comm (Callback × Delivery)
thread = record {
  at = inner false;
  shutdown_flags = false;
  completed = (read_back, replied (pos 3) text) ∷ late_answer;
  ran = [];
}

client_block-steps_example :
    (n : ℕ) × ((first : List (Callback × Delivery)) × ((steps oldest_first n thread).ran
        ≡ [] ++ first)
      × ((steps oldest_first n thread).completed ≡ late_answer)
      × (run_all first (record blocked { pending = late_answer }) ≡ returns tt unblocked)
      × (unblocked.done ≡ 1))
client_block-steps_example =
    client_block-steps oldest_first blocked unblocked thread in_order
      (unfold client_block wait_done run_callback in refl) refl refl (λ e. ground arith)
