-- ===== src/Registration/Defs.antt =====
-- The `hvac_*_rpc_register` functions, and what client and server do with the ids.
use hvac_arc.Base.{
  ℕ, Bool, true, false, none, some, [], Bytes, codes, nat_ord, Prog, returns, modify, assert, pure,
  ◌>>=◌, ◌>>◌,
}
use hvac_arc.OrderedMap.{Map, lookup, insert}

pub data RpcHandler : Type 0 where
  rpc_handler open_rpc_handler close_rpc_handler seek_rpc_handler : RpcHandler

-- What Mercury knows of an id.
pub record Registered : Type 0 where
  pub handler : RpcHandler
  pub responds : Bool

-- A process: the requests that its `hg_class` knows, and the four ids of the client.
pub record Endpoint : Type 0 where
  pub hg_class : Map ℕ Registered
  pub client_rpc_id : ℕ
  pub client_open_id : ℕ
  pub client_close_id : ℕ
  pub client_seek_id : ℕ

-- Mercury just started, in a process that has registered nothing.
abbrev pub new_endpoint : Endpoint
new_endpoint = record {
  hg_class = [];
  client_rpc_id = 0;
  client_open_id = 0;
  client_close_id = 0;
  client_seek_id = 0;
}

abbrev pub Registers : Type 0 → Type 0
Registers A = Prog Endpoint A

-- Mercury's id of a request is a hash of its name.
module _ (id_of : Bytes → ℕ) where
  -- `MERCURY_REGISTER`.
  unfoldable pub mercury_register : Bytes → RpcHandler → Registers ℕ
  mercury_register name handler p =
      let known : Registered = record { handler = handler; responds = true } in
      returns (id_of name) (record p { hg_class = insert (id_of name) known p.hg_class })

  -- `HG_Registered_disable_response`, and whether it succeeds: the id has to be registered.
  unfoldable pub disable_response : ℕ → Registers Bool
  disable_response id p = elim (lookup id p.hg_class) [
    | none ↦ returns false p
    | some known ↦
        returns true
          (record p { hg_class = insert id (record known { responds = false }) p.hg_class })
  ]

  -- `hvac_rpc_register`.
  unfoldable pub rpc_register : Registers ℕ
  unfolding mercury_register
  rpc_register = mercury_register (codes "hvac_base_rpc") rpc_handler

  -- `hvac_open_rpc_register`.
  unfoldable pub open_rpc_register : Registers ℕ
  unfolding mercury_register
  open_rpc_register = mercury_register (codes "hvac_open_rpc") open_rpc_handler

  -- `hvac_close_rpc_register`: a close has no answer.
  unfoldable pub close_rpc_register : Registers ℕ
  unfolding mercury_register disable_response
  close_rpc_register = do
    tmp ← mercury_register (codes "hvac_close_rpc") close_rpc_handler
    disabled ← disable_response tmp
    assert disabled
    pure tmp

  -- `hvac_seek_rpc_register`.
  unfoldable pub seek_rpc_register : Registers ℕ
  unfolding mercury_register
  seek_rpc_register = mercury_register (codes "hvac_seek_rpc") seek_rpc_handler

  -- `hvac_client_comm_register_rpc`.
  unfoldable pub client_comm_register_rpc : Registers (Unit {0})
  unfolding rpc_register open_rpc_register close_rpc_register seek_rpc_register
  client_comm_register_rpc = do
    opens ← open_rpc_register
    modify (λ p. record p { client_open_id = opens })
    rpc ← rpc_register
    modify (λ p. record p { client_rpc_id = rpc })
    closes ← close_rpc_register
    modify (λ p. record p { client_close_id = closes })
    seeks ← seek_rpc_register
    modify (λ p. record p { client_seek_id = seeks })

  -- The registrations of `hvac_start_comm_server`.
  unfoldable pub register_basic_rpc : Registers (Unit {0})
  unfolding rpc_register open_rpc_register close_rpc_register seek_rpc_register
  register_basic_rpc = do
    _ ← rpc_register
    _ ← open_rpc_register
    _ ← close_rpc_register
    _ ← seek_rpc_register
    pure tt
