-- ===== src/Startup/Defs.antt =====
-- The constructor of the client library, and the server from `main` to its endless loop.
use hvac_arc.Base.{
  ℤ, pos, minus_one, bits, Bool, true, false, Option, none, some, List, [], ◌∷◌, ◌++◌,
  if◌then◌else◌, Bytes, codes, Prog, Outcome, returns, stops, hangs, exits, faults, modify, stop,
  ◌>>◌,
}
use hvac_arc.Text.{atoi}
use hvac_arc.Registry.{list_addr}
use hvac_arc.CachePolicy.Init.{Env}
use hvac_arc.Client.{Client}
use hvac_arc.Server.{bbpath_name}

abbrev pub server_count_name : Bytes
server_count_name = codes "HVAC_SERVER_COUNT"

abbrev pub data_dir_name : Bytes
data_dir_name = codes "HVAC_DATA_DIR"

abbrev pub rank_name : Bytes
rank_name = codes "SLURM_PROCID"

-- `if (hvac_data_dir_c != NULL)`.
abbrev pub or_before : Option Bytes → Option Bytes → Option Bytes
or_before none before = before
or_before (some dir) before = some dir

-- `hvac_client_init`; the count is an `int` stored in a `uint32_t`.
unfoldable pub client_init : {W : Type 0} → Env → Prog (Client W) (Unit {0})
client_init getenv c = if c.initialized then returns tt c else elim (getenv server_count_name) [
  | none ↦ stops (exits minus_one) c
  | some count ↦ returns tt (record c {
    server_count = bits 32 (atoi count);
    data_dir = or_before (getenv data_dir_name) c.data_dir;
    initialized = true;
    disable_redirect = false;
  })
]

pub data Rpc : Type 0 where
  base_rpc open_rpc close_rpc seek_rpc : Rpc

-- A server process: its threads, its ranks, the address file, and what Mercury knows of it.
pub record Program : Type 0 where
  pub mover : Bool
  pub progress : Bool
  pub server_rank : ℤ
  pub hvac_server_rank : ℤ
  pub config : Bytes
  pub handlers : List Rpc

-- Before `main`, beside an address file.
abbrev pub unstarted : Bytes → Program
unstarted file = record {
  mover = false;
  progress = false;
  server_rank = minus_one;
  hvac_server_rank = minus_one;
  config = file;
  handlers = [];
}

-- `hvac_init_comm`. A failure of Mercury is only logged.
unfoldable pub init_comm : Env → Bool → Prog Program (Unit {0})
init_comm getenv listen p = elim (getenv rank_name) [
  | none ↦ stops (exits (pos 1)) p
  | some rank ↦ returns tt (record p {
    server_rank = atoi rank;
    hvac_server_rank = if listen then atoi rank else p.hvac_server_rank;
    progress = true;
  })
]

-- A call that changes the address file.
abbrev pub keep_program : {A : Type 0} → Program → Outcome Bytes A → Outcome Program A
keep_program p (returns a file) = returns a (record p { config = file })
keep_program p (stops e file) = stops e (record p { config = file })

-- `hvac_comm_list_addr` of the started server.
unfoldable pub post_address : Bool → Bool → Bytes → Prog Program (Unit {0})
unfolding list_addr
post_address opens locks address p =
    keep_program p (list_addr opens locks p.hvac_server_rank address p.config)

abbrev pub register : Rpc → Prog Program (Unit {0})
register rpc = modify (λ p. record p { handlers = p.handlers ++ rpc ∷ [] })

-- The start of `hvac_data_mover_fn` on its own thread. Without BBPATH the thread makes a
-- `std::string` of a null pointer, which ends the process; this is taken where it is started.
abbrev pub start_mover : Env → Prog Program (Unit {0})
start_mover getenv p = elim (getenv bbpath_name) [
  | none ↦ stops faults p
  | some bbpath ↦ returns tt (record p { mover = true })
]

-- `hvac_start_comm_server`, which ends in `while (1) sleep(1)`.
unfoldable pub start_comm_server : Env → Bool → Bool → Bytes → Prog Program (Unit {0})
unfolding init_comm post_address
start_comm_server getenv opens locks address = do
  start_mover getenv
  init_comm getenv true
  post_address opens locks address
  register base_rpc
  register open_rpc
  register close_rpc
  register seek_rpc
  stop hangs

-- `main`, given whether it has an argument.
unfoldable pub server_main : Bool → Env → Bool → Bool → Bytes → Prog Program (Unit {0})
unfolding start_comm_server
server_main has_count getenv opens locks address =
    if has_count then start_comm_server getenv opens locks address else stop (exits minus_one)
