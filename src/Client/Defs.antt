-- ===== src/Client/Defs.antt =====
-- The globals of hvac_client.cpp and hvac_comm_client.cpp.
use hvac_arc.Base.{
  ℕ, ◌+◌, ◌%◌, ℤ, pos, int_ord, Bool, Option, none, some, List, [], ◌∷◌, if◌then◌else◌, eqb, Bytes,
  Prog, returns, stops, hangs, aborts, faults, pure, modify, stop, ◌>>◌,
}
use hvac_arc.OrderedMap.{Map, insert, index}
use hvac_arc.Host.{Delivery, replied, failed, silent}

-- Which callback waits for an answer; `opened` carries `hvac_open_state`.
pub data Callback : Type 0 where
  opened : ℤ → Callback
  read_back sought : Callback

-- `done` is an `hg_bool_t`, an 8-bit integer. `buffer` is the memory behind the caller's `buf`, if
-- that is no null pointer. `pending` holds the answers that the progress thread has not yet handed
-- to their callbacks.
pub record Client (World : Type 0) : Type 0 where
  pub world : World
  pub fd_map : Map ℤ Bytes
  pub fd_redir_map : Map ℤ ℤ
  pub address_cache : Map ℤ Bytes
  pub server_count : ℕ
  pub data_dir : Option Bytes
  pub mercury_init : Bool
  pub disable_redirect : Bool
  pub initialized : Bool
  pub done : ℕ
  pub read_ret : ℤ
  pub buffer : Option Bytes
  pub pending : List (Callback × Delivery)

abbrev pub data_of : {W : Type 0} → Bytes → Client W → Option Bytes
data_of bytes c = elim c.buffer [ none ↦ none | some old ↦ some bytes ]

module _ {W : Type 0} where
  -- `done++` of the callbacks.
  abbrev pub signal : Client W → Client W
  signal c = record c { done = (c.done + 1) % 256 }

  -- `hvac_open_cb`, `hvac_read_cb` and `hvac_seek_cb`. The first two assert that the transport
  -- reported success; the third reads its output in any case.
  unfoldable pub run_callback : Callback → Delivery → Prog (Client W) (Unit {0})
  run_callback (opened fd) (replied r bytes) =
      modify (λ c. signal (record c { fd_redir_map = insert fd r c.fd_redir_map }))
  run_callback read_back (replied r bytes) =
      modify (λ c. signal (record c { read_ret = r; buffer = data_of bytes c }))
  run_callback sought (replied r bytes) = modify (λ c. signal (record c { read_ret = r }))
  run_callback (opened fd) failed = stop aborts
  run_callback read_back failed = stop aborts
  run_callback sought failed = stop faults
  run_callback cb silent = pure tt

  -- `while (done != HG_TRUE) pthread_cond_wait(..)` of the three block functions, while the
  -- progress thread runs the callbacks in the order of the answers.
  unfoldable pub wait_done : List (Callback × Delivery) → Prog (Client W) (Unit {0})
  wait_done [] c = if eqb c.done 1 then returns tt c else stops hangs c
  wait_done ((cb, d) ∷ rest) c =
      let next = wait_done rest in
      if eqb c.done 1
      then returns tt c
      else (do modify (λ c'. record c' { pending = rest }); run_callback cb d; next) c

  -- `hvac_client_block`.
  unfoldable pub client_block : Prog (Client W) (Unit {0})
  unfolding wait_done
  client_block c = wait_done c.pending c

  -- `hvac_read_block` and `hvac_seek_block`, which are alike.
  unfoldable pub read_block : Prog (Client W) ℤ
  unfolding client_block
  read_block = do client_block; λ c. returns c.read_ret c

  -- `fd_map[fd]` and `fd_redir_map[fd]`: a missing key is first given the empty text, or 0.
  unfoldable pub path_at : ℤ → Prog (Client W) Bytes
  unfolding index
  path_at fd c = let (path, m) = index [] fd c.fd_map in returns path (record c { fd_map = m })

  unfoldable pub redir_at : ℤ → Prog (Client W) ℤ
  unfolding index
  redir_at fd c =
      let (remote, m) = index (pos 0) fd c.fd_redir_map in
      returns remote (record c { fd_redir_map = m })
