-- ===== src/Registration/Dispatch.antt =====
-- A request of the client reaches the server's handler for it.
use hvac_arc.Base.{
  ℕ, ◌≡◌, ◌≢◌, Bool, true, false, Option, none, some, [], Bytes, codes, nat_ord, returns, arith,
  refl, ◌==◌, if◌then◌else◌,
}
use hvac_arc.OrderedMap.{Map, lookup, insert, lookup-insert, lookup-insert_self}
use hvac_arc.Registration.Defs.{
  RpcHandler, rpc_handler, open_rpc_handler, close_rpc_handler, seek_rpc_handler, Registered,
  Endpoint, new_endpoint, mercury_register, disable_response, rpc_register, open_rpc_register,
  close_rpc_register, seek_rpc_register, client_comm_register_rpc, register_basic_rpc,
}

module _ (id_of : Bytes → ℕ) where
  -- Mercury's ids of the four names differ.
  pub record Distinct : Type 0 where
    pub base_open : id_of (codes "hvac_base_rpc") ≢ id_of (codes "hvac_open_rpc")
    pub base_close : id_of (codes "hvac_base_rpc") ≢ id_of (codes "hvac_close_rpc")
    pub base_seek : id_of (codes "hvac_base_rpc") ≢ id_of (codes "hvac_seek_rpc")
    pub open_close : id_of (codes "hvac_open_rpc") ≢ id_of (codes "hvac_close_rpc")
    pub open_seek : id_of (codes "hvac_open_rpc") ≢ id_of (codes "hvac_seek_rpc")
    pub close_seek : id_of (codes "hvac_close_rpc") ≢ id_of (codes "hvac_seek_rpc")

  -- The handler that an id leads to, with an answer or without one.
  abbrev pub answers : ℕ → Endpoint → Option (RpcHandler × Bool)
  answers id p = elim (lookup id p.hg_class) [
    | none ↦ none
    | some known ↦ some (known.handler, known.responds)
  ]

  -- Each id that the client sends leads, in a process with these registrations, to its handler.
  pub record Serves (client server : Endpoint) : Type 0 where
    pub reads : answers client.client_rpc_id server ≡ some (rpc_handler, true)
    pub opens : answers client.client_open_id server ≡ some (open_rpc_handler, true)
    pub closes : answers client.client_close_id server ≡ some (close_rpc_handler, false)
    pub seeks : answers client.client_seek_id server ≡ some (seek_rpc_handler, true)

  -- A table after one more registration.
  abbrev with : Bytes → RpcHandler → Bool → Map ℕ Registered → Map ℕ Registered
  with name handler responds m =
      insert (id_of name) (record { handler = handler; responds = responds }) m

  -- The id of a close is registered when its answer is disabled.
  close_rpc_register_lem :
      (p : Endpoint)
      → close_rpc_register id_of p
        ≡ returns (id_of (codes "hvac_close_rpc")) (record p {
          hg_class =
              with
                (codes "hvac_close_rpc")
                close_rpc_handler
                false
                (with (codes "hvac_close_rpc") close_rpc_handler true p.hg_class);
        })
  unfolding close_rpc_register mercury_register disable_response
  close_rpc_register_lem p = ground (
    arith,
    lookup-insert_self (id_of (codes "hvac_close_rpc"))
        (record { handler = close_rpc_handler; responds = true }) p.hg_class,
  )

  -- The tables that both registrations leave.
  abbrev client_table : Map ℕ Registered
  client_table = with (codes "hvac_seek_rpc") seek_rpc_handler true (
      with (codes "hvac_close_rpc") close_rpc_handler false (
        with (codes "hvac_close_rpc") close_rpc_handler true (
          with (codes "hvac_base_rpc") rpc_handler true
            (with (codes "hvac_open_rpc") open_rpc_handler true []))))

  abbrev server_table : Map ℕ Registered
  server_table = with (codes "hvac_seek_rpc") seek_rpc_handler true (
      with (codes "hvac_close_rpc") close_rpc_handler false (
        with (codes "hvac_close_rpc") close_rpc_handler true (
          with (codes "hvac_open_rpc") open_rpc_handler true
            (with (codes "hvac_base_rpc") rpc_handler true []))))

  abbrev client : Endpoint
  client = record {
    hg_class = client_table;
    client_rpc_id = id_of (codes "hvac_base_rpc");
    client_open_id = id_of (codes "hvac_open_rpc");
    client_close_id = id_of (codes "hvac_close_rpc");
    client_seek_id = id_of (codes "hvac_seek_rpc");
  }

  abbrev server : Endpoint
  server = record new_endpoint { hg_class = server_table }

  client_registered : client_comm_register_rpc id_of new_endpoint ≡ returns tt client
  unfolding client_comm_register_rpc rpc_register open_rpc_register seek_rpc_register
      mercury_register
  client_registered =
      rw
        (close_rpc_register_lem (record client {
          hg_class =
              with (codes "hvac_base_rpc") rpc_handler true
                (with (codes "hvac_open_rpc") open_rpc_handler true []);
          client_close_id = 0;
          client_seek_id = 0;
        }))
        refl

  server_registered : register_basic_rpc id_of new_endpoint ≡ returns tt server
  unfolding register_basic_rpc rpc_register open_rpc_register seek_rpc_register mercury_register
  server_registered =
      rw
        (close_rpc_register_lem (record new_endpoint {
          hg_class =
              with (codes "hvac_open_rpc") open_rpc_handler true
                (with (codes "hvac_base_rpc") rpc_handler true []);
        }))
        refl

  lookup-with :
      (id : ℕ) (name : Bytes) (handler : RpcHandler) (responds : Bool) (m : Map ℕ Registered)
      → lookup id (with name handler responds m) ≡ (
          if id_of name == id
          then some (record { handler = handler; responds = responds })
          else lookup id m)
  lookup-with id name handler responds m =
      lookup-insert id (id_of name) (record { handler = handler; responds = responds }) m

  -- If the ids of the four names differ, both registrations pass their assertion, and each id that
  -- the client then sends leads to the handler of its request in the server, and in the client's
  -- own table, which agree on it that only a close has no answer.
  pub client_ids-dispatch :
      Distinct
      → (client : Endpoint) × ((server : Endpoint) × (client_comm_register_rpc id_of new_endpoint
            ≡ returns tt client)
          × (register_basic_rpc id_of new_endpoint ≡ returns tt server)
          × Serves client server
          × Serves client client)
  client_ids-dispatch d =
      (client, (server, client_registered, server_registered, on_server, on_client))
    where
      on_server : Serves client server
      on_server = record {
        reads = grind (arith, lookup-with, d);
        opens = grind (arith, lookup-with, d);
        closes = grind (arith, lookup-with, d);
        seeks = grind (arith, lookup-with, d);
      }

      on_client : Serves client client
      on_client = record {
        reads = grind (arith, lookup-with, d);
        opens = grind (arith, lookup-with, d);
        closes = grind (arith, lookup-with, d);
        seeks = grind (arith, lookup-with, d);
      }
