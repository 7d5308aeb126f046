-- ===== src/Server/Events.antt =====
-- Histories of a server: requests, and steps of the data mover between them.
use hvac_arc.Base.{List, [], ◌∷◌, Bytes, state_of}
use hvac_arc.Host.{Request}
use hvac_arc.Server.Defs.{Kernel, Server}
use hvac_arc.Server.Handlers.{serve}
use hvac_arc.Server.Mover.{drain, move_one}

-- What the two threads do. `woken`: the data mover empties `data_queue`, when it is signalled or
-- wakes up by itself. `copies`: one round of its loop over `local_list`, with BBPATH. Requests are
-- handled between any two of these.
pub data Event : Type 0 where
  requested : Request → Event
  woken : Event
  copies : Bytes → Event

module _ (k : Kernel) where
  abbrev pub copy_next : Bytes → List Bytes → Server k.World → Server k.World
  copy_next bbpath [] s = s
  copy_next bbpath (path ∷ rest) s = move_one k bbpath path s

  unfoldable pub happen : Event → Server k.World → Server k.World
  happen (requested r) s = state_of (serve k r s)
  happen woken s = drain s
  happen (copies bbpath) s = copy_next bbpath s.local_list s

  unfoldable pub happen_all : List Event → Server k.World → Server k.World
  happen_all [] s = s
  happen_all (e ∷ es) s = happen_all es (happen e s)
