-- ===== src/Startup/Posting.antt =====
-- From the server's main to the address that clients read.
use hvac_arc.Base.{ℕ, pos, int_ord, true, [], ◌∷◌, Bytes}
use hvac_arc.Startup.Defs.{Program, base_rpc, open_rpc, close_rpc, seek_rpc}

-- The server of the rank, in its endless loop.
abbrev pub serving : ℕ → Bytes → Program
serving n file = record {
  mover = true;
  progress = true;
  server_rank = pos n;
  hvac_server_rank = pos n;
  config = file;
  handlers = base_rpc ∷ open_rpc ∷ close_rpc ∷ seek_rpc ∷ [];
}
