-- ===== src/Server/Mover.antt =====
-- hvac_data_mover.cpp: the thread that copies closed files to the node's own storage.
use hvac_arc.Base.{
  Bool, Option, none, some, List, [], ◌∷◌, ◌++◌, if◌then◌else◌, eqb, Bytes, bytes_ord, codes,
}
use hvac_arc.OrderedMap.{Map, insert}
use hvac_arc.Server.Defs.{Kernel, Server}

-- `fs::path(path).filename()`: what stands behind the last slash. `name` is what was read since.
unfoldable pub filename_from : Bytes → Bytes → Bytes
filename_from name [] = name
filename_from name (c ∷ s) = filename_from (if eqb c b'/' then [] else name ++ c ∷ []) s

abbrev pub filename : Bytes → Bytes
filename path = filename_from [] path

-- The loop that empties `data_queue` into `local_list`, under `data_mutex`.
unfoldable pub drain_into : {W : Type 0} → List Bytes → Server W → Server W
drain_into [] s = record s { data_queue = [] }
drain_into (path ∷ rest) s =
    drain_into rest (record s { local_list = s.local_list ++ path ∷ []; data_queue = rest })

abbrev pub drain : {W : Type 0} → Server W → Server W
drain s = drain_into s.data_queue s

-- The directory that `mkdtemp` made; its name stays the template if it made none.
abbrev pub or_template : Bytes → Option Bytes → Bytes
or_template template none = template
or_template template (some dir) = dir

-- `local_list.pop()`.
abbrev pub pop : List Bytes → List Bytes
pop [] = []
pop (path ∷ rest) = rest

-- `path_cache_map[path] = target` after a copy that threw nothing. A copy that threw is only
-- reported.
abbrev pub note_copy : Bool → Bytes → Bytes → Map Bytes Bytes → Map Bytes Bytes
note_copy done path target m = if done then insert path target m else m

module _ (k : Kernel) (bbpath : Bytes) where
  open k use {World, mkdtemp, copy}

  abbrev pub template : Bytes
  template = bbpath ++ codes "/XXXXXX"

  -- One round of the loop over `local_list`, on its first path.
  unfoldable pub move_one : Bytes → Server World → Server World
  move_one path s =
      let (dir, w) = mkdtemp template s.world in
      let target = or_template template dir ++ b'/' ∷ filename path in
      let (done, w') = copy path target w in
      record s {
        world = w';
        path_cache_map = note_copy done path target s.path_cache_map;
        local_list = pop s.local_list;
      }

  unfoldable pub move_all : List Bytes → Server World → Server World
  unfolding move_one
  move_all [] s = s
  move_all (path ∷ rest) s = move_all rest (move_one path s)

  -- What the thread does each time that it is woken.
  unfoldable pub mover_round : Server World → Server World
  unfolding drain_into move_all
  mover_round s = let drained = drain s in move_all drained.local_list drained
