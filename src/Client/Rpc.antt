-- ===== src/Client/Rpc.antt =====
-- hvac_comm_client.cpp: the address of a server, and the four requests.
use hvac_arc.Base.{
  ◌+◌, ℤ, minus_one, int_ord, int32, Bool, true, false, Option, none, some, List, [], ◌∷◌, ◌++◌,
  length, Bytes, Prog, returns, stops, aborts, faults, gets, modify, assert, pure, ◌>>=◌, ◌>>◌,
}
use hvac_arc.OrderedMap.{lookup, insert, erase}
use hvac_arc.Registry.{find_rank}
use hvac_arc.Host.{Host, Request, open_in, read_in, seek_in, close_in, Delivery, silent}
use hvac_arc.Client.Defs.{Client, Callback, opened, read_back, sought, redir_at}

-- The answer to a request waits for its callback, if there is an answer.
abbrev pub enqueue : Callback → Delivery → List (Callback × Delivery) → List (Callback × Delivery)
enqueue cb silent pending = pending
enqueue cb d pending = pending ++ (cb, d) ∷ []

abbrev pub is_some : Option Bytes → Bool
is_some none = false
is_some (some b) = true

module _ (h : Host) where
  open h use {World, deliver, config_file}

  abbrev pub Call : Type 0 → Type 0
  Call A = Prog (Client World) A

  -- "The hardway" of `hvac_client_comm_lookup_addr`: the file, which is read without a test that it
  -- could be opened.
  unfoldable pub read_config : ℤ → Call (Option Bytes)
  read_config rank c = elim (config_file c.world) [
    | none ↦ stops faults c
    | some file ↦ elim (find_rank (length file + 1) rank file) [
      | none ↦ returns none c
      | some address ↦
          returns (some address) (record c { address_cache = insert rank address c.address_cache })
    ]
  ]

  -- `hvac_client_comm_lookup_addr`; `none` is a null address.
  unfoldable pub lookup_addr : ℤ → Call (Option Bytes)
  unfolding read_config
  lookup_addr rank c = elim (lookup rank c.address_cache) [
    | some address ↦ returns (some address) c
    | none ↦ read_config rank c
  ]

  -- `hvac_comm_create_handle`: `HG_Create` fails without an address, and the code asserts that it
  -- does not.
  abbrev pub create_handle : Option Bytes → Call Bytes
  create_handle none = λ c. stops aborts c
  create_handle (some address) = pure address

  -- `HG_Forward`, and the answer.
  abbrev pub send : Callback → Request → Bytes → Call (Unit {0})
  send cb request address c =
      let (d, world) = deliver address request c.world in
      returns tt (record c { world = world; pending = enqueue cb d c.pending })

  unfoldable pub forward : Callback → Option Bytes → Request → Call (Unit {0})
  forward cb address request = do handle ← create_handle address; send cb request handle

  -- The same with no callback, for a request that has no response.
  abbrev pub send_only : Request → Bytes → Call (Unit {0})
  send_only request address c =
      let (d, world) = deliver address request c.world in returns tt (record c { world = world })

  unfoldable pub forward_only : Option Bytes → Request → Call (Unit {0})
  forward_only address request = do handle ← create_handle address; send_only request handle

  -- `hvac_client_comm_gen_open_rpc`.
  unfoldable pub gen_open_rpc : ℤ → Bytes → ℤ → Call (Unit {0})
  unfolding lookup_addr forward
  gen_open_rpc svr path fd = do
    modify (λ c. record c { done = 0 })
    address ← lookup_addr svr
    forward (opened fd) address (open_in path)

  -- `hvac_client_comm_gen_read_rpc`: `input_val` is an `int32_t`. Mercury is taken to register
  -- the caller's buffer, whatever its size.
  unfoldable pub gen_read_rpc : ℤ → ℤ → ℤ → ℤ → Call (Unit {0})
  unfolding lookup_addr forward redir_at
  gen_read_rpc svr localfd count offset = do
    modify (λ c. record c { done = 0; read_ret = minus_one })
    address ← lookup_addr svr
    buffer ← gets (λ c. c.buffer)
    assert (is_some buffer)
    remote ← redir_at localfd
    forward read_back address (read_in (int32 count) remote offset)

  -- `hvac_client_comm_gen_seek_rpc`.
  unfoldable pub gen_seek_rpc : ℤ → ℤ → ℤ → ℤ → Call (Unit {0})
  unfolding lookup_addr forward redir_at
  gen_seek_rpc svr fd offset whence = do
    modify (λ c. record c { done = 0; read_ret = minus_one })
    address ← lookup_addr svr
    remote ← redir_at fd
    forward sought address (seek_in remote offset whence)

  -- `hvac_client_comm_gen_close_rpc`.
  unfoldable pub gen_close_rpc : ℤ → ℤ → Call (Unit {0})
  unfolding lookup_addr forward_only redir_at
  gen_close_rpc svr fd = do
    address ← lookup_addr svr
    remote ← redir_at fd
    forward_only address (close_in remote)
    modify (λ c. record c { fd_redir_map = erase fd c.fd_redir_map })
