-- ===== src/Server/Thread.antt =====
-- hvac_data_mover.cpp: `hvac_data_mover_fn` as a whole, with the requests that are handled while it
-- sleeps.
use hvac_arc.Base.{
  none, some, List, [], ◌∷◌, Bytes, codes, Prog, stops, hangs, faults, modify, stop, pure, ◌>>=◌,
  ◌>>◌,
}
use hvac_arc.Host.{Request}
use hvac_arc.CachePolicy.Init.{Env}
use hvac_arc.Server.Defs.{Kernel, Server}
use hvac_arc.Server.Handlers.{serve}
use hvac_arc.Server.Mover.{mover_round}

abbrev pub bbpath_name : Bytes
bbpath_name = codes "BBPATH"

module _ (k : Kernel) where
  unfoldable pub serve_all : List Request → Prog (Server k.World) (Unit {0})
  serve_all [] = pure tt
  serve_all (r ∷ rs) = do _ ← serve k r; serve_all rs

  -- `while (1)`: each list holds the requests that are handled before the next signal. Behind the
  -- last signal the thread sleeps on.
  unfoldable pub wake_all : Bytes → List (List Request) → Prog (Server k.World) (Unit {0})
  unfolding serve_all
  wake_all bbpath [] = stop hangs
  wake_all bbpath (rs ∷ more) = do serve_all rs; modify (mover_round k bbpath); wake_all bbpath more

  -- `hvac_data_mover_fn`: a missing BBPATH is logged, and then made a `std::string` of, which is
  -- undefined behaviour.
  unfoldable pub data_mover_fn : Env → List (List Request) → Prog (Server k.World) (Unit {0})
  unfolding wake_all
  data_mover_fn getenv wakes s = elim (getenv bbpath_name) [
    | none ↦ stops faults s
    | some bbpath ↦ wake_all bbpath wakes s
  ]
