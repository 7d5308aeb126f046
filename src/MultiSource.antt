-- ===== src/MultiSource.antt =====
-- hvac_multi_source_read.cpp: one read from two tiers at once, `ms_read` and `hvac_ms_read_cb`. The
-- file is not compiled, and names fields and functions that are declared nowhere; its control flow
-- is modelled as it stands. What `get_PM_rank` and `get_SSD_rank` do comes before the loop, in
-- Reading.
pub mod Loop
pub mod Reading
use hvac_arc.Base.{
  ℕ, zero, suc, ℤ, pos, negsuc, minus_one, ltz, int_ord, Bool, true, false, not, ◌&&◌, Option, none,
  some, List, [], ◌∷◌, if◌then◌else◌,
}

-- The fields of an `hg_rpc_state`, which is declared nowhere, that the waiting loop reads.
pub record RpcState : Type 0 where
  pub completed : Bool
  pub read_result : ℤ

-- `create_rpc_state`.
abbrev pub create_rpc_state : RpcState
create_rpc_state = record { completed = false; read_result = minus_one }

-- `hvac_ms_read_cb`: `none` is an output that could not be read.
unfoldable pub ms_read_cb : Option ℤ → RpcState → RpcState
ms_read_cb none st = record { completed = true; read_result = minus_one }
ms_read_cb (some bytes_read) st = record { completed = true; read_result = bytes_read }

-- `result >= 0`.
abbrev pub succeeded : ℤ → Bool
succeeded (pos n) = true
succeeded (negsuc n) = false

abbrev pub max_of : ℤ → ℤ → ℤ
max_of a b = if ltz a b then b else a

-- What one round of the loop decides from the two states: the final result, or to go on.
unfoldable pub decide_round : RpcState → RpcState → Option ℤ
decide_round pm ssd =
    if pm.completed && succeeded pm.read_result
    then some pm.read_result
    else if ssd.completed && succeeded ssd.read_result
    then some ssd.read_result
    else if pm.completed && ssd.completed
    then (if not (succeeded pm.read_result) && not (succeeded ssd.read_result)
        then some minus_one
        else some (max_of pm.read_result ssd.read_result))
    else none

-- What the two states are when the loop looks at them, round by round.
abbrev pub Looks : Type 0
Looks = List (RpcState × RpcState)

-- The body of the loop, on `done` and `final_result`.
unfoldable pub round : RpcState × RpcState → Bool × ℤ → Bool × ℤ
unfolding decide_round
round (pm, ssd) (done, final_result) = elim (decide_round pm ssd) [
  | none ↦ (done, final_result)
  | some r ↦ (true, r)
]

-- `while(done)`. `none` means that the loop is still running when the looks end.
unfoldable pub wait_loop : Looks → Bool × ℤ → Option ℤ
unfolding round
wait_loop looks (false, final_result) = some final_result
wait_loop [] (true, final_result) = none
wait_loop (look ∷ looks) (true, final_result) = wait_loop looks (round look (true, final_result))

-- `hvac::ms_read` on a tracked file, from `bool done = false;`.
unfoldable pub ms_read_tracked : Looks → Option ℤ
unfolding wait_loop
ms_read_tracked looks = wait_loop looks (false, minus_one)
