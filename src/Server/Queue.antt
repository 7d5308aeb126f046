-- ===== src/Server/Queue.antt =====
-- From a closed file to its copy: `data_queue`, `local_list` and `path_cache_map`.
use mathlib.Core.List.{append_assoc, append-nil}
use hvac_arc.Base.{
  ◌≡◌, ◌≢◌, refl, sym, ap, subst, ◌∙◌, ◌⊎◌, inl, inr, ℤ, pos, int_ord, Bool, true, false, none,
  List, [], ◌∷◌, ◌++◌, if◌then◌else◌, Bytes, bytes_ord, state_of, arith,
}
use hvac_arc.OrderedMap.{
  Map, lookup, member, insert, index, lookup-insert, lookup-insert_self, lookup-erase_self,
}
use hvac_arc.Host.{open_in, close_in}
use hvac_arc.Server.Defs.{Kernel, Server}
use hvac_arc.Server.Handlers.{redirect, queue_closed, serve}
use hvac_arc.Server.Mover.{
  drain_into, move_one, move_all, mover_round, or_template, template, filename, pop, note_copy,
}

-- The loop moves the whole queue behind the list, in order.
pub drain_into_lem :
    {W : Type 0} (queue : List Bytes) (s : Server W)
    → drain_into queue s ≡ record s { local_list = s.local_list ++ queue; data_queue = [] }
unfolding drain_into
drain_into_lem [] s =
    ap (λ (l : List Bytes). record s { local_list = l; data_queue = [] })
      (sym (append-nil s.local_list))
drain_into_lem (path ∷ rest) s =
    drain_into_lem rest (record s { local_list = s.local_list ++ path ∷ []; data_queue = rest })
    ∙ ap (λ (l : List Bytes). record s { local_list = l; data_queue = [] })
        (append_assoc s.local_list (path ∷ []) rest)

module _ (k : Kernel) (s : Server k.World) where
  -- A file that is opened and closed is queued under the path of the request, behind what waits, if
  -- it has no copy yet; its descriptor is forgotten.
  pub close_handler-open_handler :
      (path : Bytes) (fd : ℤ) (w w' : k.World)
      → k.open_ro (redirect path s.path_cache_map) s.world ≡ (fd, w)
      → k.close fd w ≡ (pos 0, w')
      → let t = state_of (serve k (close_in fd) (state_of (serve k (open_in path) s))) in
        (t.data_queue
          ≡ (if member path s.path_cache_map then s.data_queue else s.data_queue ++ path ∷ []))
        × (lookup fd t.fd_to_path ≡ none)
        × (t.path_cache_map ≡ s.path_cache_map)
        × (t.world ≡ w')
  unfolding serve queue_closed index
  close_handler-open_handler path fd w w' opens closes = ground (
    arith,
    lookup-insert_self fd path s.fd_to_path,
    lookup-erase_self fd (insert fd path s.fd_to_path),
  )

-- `path` is one of the paths.
abbrev pub Among : Bytes → List Bytes → Type 0
Among path [] = ⊥
Among path (q ∷ qs) = (path ≡ q) ⊎ Among path qs

note_copy-member :
    (done : Bool) (path target q : Bytes) (m : Map Bytes Bytes)
    → lookup q m ≢ none
    → lookup q (note_copy done path target m) ≢ none
note_copy-member false path target q m h = h
note_copy-member true path target q m h = ground (arith, lookup-insert q path target m)

note_copy_self :
    (done : Bool) (path target : Bytes) (m : Map Bytes Bytes)
    → done ≡ true
    → lookup path (note_copy done path target m) ≢ none
note_copy_self done path target m h = ground (arith, lookup-insert_self path target m)

module _ (k : Kernel) (bbpath : Bytes) where
  move_all_queues :
      (paths : List Bytes) (s : Server k.World)
      → s.local_list ≡ paths
      → ((move_all k bbpath paths s).local_list ≡ [])
        × ((move_all k bbpath paths s).data_queue ≡ s.data_queue)
  unfolding move_all
  move_all_queues [] s e = (e, refl)
  move_all_queues (path ∷ rest) s e = move_all_queues rest (move_one k bbpath path s) (ap pop e)

  -- A path that has a copy keeps one.
  move_one-member :
      (path q : Bytes) (s : Server k.World)
      → lookup q s.path_cache_map ≢ none
      → lookup q (move_one k bbpath path s).path_cache_map ≢ none
  unfolding move_one
  move_one-member path q s h = note_copy-member _ path _ q s.path_cache_map h

  move_all-member :
      (paths : List Bytes) (q : Bytes) (s : Server k.World)
      → lookup q s.path_cache_map ≢ none
      → lookup q (move_all k bbpath paths s).path_cache_map ≢ none
  unfolding move_all
  move_all-member [] q s h = h
  move_all-member (path ∷ rest) q s h =
      move_all-member rest q (move_one k bbpath path s) (move_one-member path q s h)

  -- In the worlds that are `Ready`, which the data mover does not leave, the kernel can copy the
  -- file into a directory that was just made.
  pub record CanCopy (path : Bytes) : Type 1 where
    pub Ready : k.World → Type 0
    pub after_mkdtemp : (w : k.World) → Ready w → Ready (k.mkdtemp (template k bbpath) w).1
    pub after_copy : (q target : Bytes) (w : k.World) → Ready w → Ready (k.copy q target w).1
    pub copied :
        (w : k.World)
        → Ready w
        → let (dir, w') = k.mkdtemp (template k bbpath) w in
          (k.copy path (or_template (template k bbpath) dir ++ b'/' ∷ filename path) w').0 ≡ true

  move_one_self :
      (path : Bytes) (s : Server k.World) (can : CanCopy path)
      → can.Ready s.world
      → lookup path (move_one k bbpath path s).path_cache_map ≢ none
  unfolding move_one
  move_one_self path s can r = note_copy_self _ path _ s.path_cache_map (can.copied s.world r)

  move_one_ready :
      (path q : Bytes) (s : Server k.World) (can : CanCopy path)
      → can.Ready s.world
      → can.Ready (move_one k bbpath q s).world
  unfolding move_one
  move_one_ready path q s can r = can.after_copy q _ _ (can.after_mkdtemp s.world r)

  move_all_caches :
      (paths : List Bytes) (path : Bytes) (s : Server k.World) (can : CanCopy path)
      → Among path paths
      → can.Ready s.world
      → lookup path (move_all k bbpath paths s).path_cache_map ≢ none
  unfolding move_all
  move_all_caches [] path s can a r = elim a [ ]
  move_all_caches (q ∷ rest) path s can (inl e) r =
      move_all-member rest path (move_one k bbpath q s) (
        subst (λ x. lookup path (move_one k bbpath x s).path_cache_map ≢ none) e
          (move_one_self path s can r))
  move_all_caches (q ∷ rest) path s can (inr a) r =
      move_all_caches rest path (move_one k bbpath q s) can a (move_one_ready path q s can r)

  -- A round of the data mover leaves nothing waiting, and a file that waited, and that the kernel
  -- can copy into the directories that the mover makes, has a copy afterwards.
  pub mover_round_lem :
      (s : Server k.World) (path : Bytes) (can : CanCopy path)
      → Among path (s.local_list ++ s.data_queue)
      → can.Ready s.world
      → let t = mover_round k bbpath s in
        (t.data_queue ≡ []) × (t.local_list ≡ []) × (lookup path t.path_cache_map ≢ none)
  unfolding mover_round
  mover_round_lem s path can a r =
      let drained : Server k.World = record s {
        local_list = s.local_list ++ s.data_queue;
        data_queue = [];
      } in
      rw (drain_into_lem s.data_queue s) (
        (move_all_queues drained.local_list drained refl).1,
        (move_all_queues drained.local_list drained refl).0,
        move_all_caches drained.local_list path drained can a r,
      )
