-- ===== src/Server/Cache.antt =====
-- path_cache_map: what a redirected open reads, in hvac_comm.cpp and hvac_data_mover.cpp.
use hvac_arc.Base.{
  ℕ, ℤ, ◌≡◌, ◌≢◌, refl, sym, inl, inr, true, Option, none, List, [], ◌∷◌, ◌++◌, Bytes, bytes_ord,
  minus_one, pos, negsuc, eqz, returns, state_of, arith, Bool-cases, Option-cases,
}
use hvac_arc.OrderedMap.{
  Map, lookup, AllEntries, AllEntries-map, AllEntries-insert, AllEntries-lookup,
}
use hvac_arc.Server.Events.{Event, requested, woken, copies, copy_next, happen, happen_all}
use hvac_arc.Host.{replied, Request, open_in, read_in, seek_in, close_in}
use hvac_arc.Server.Defs.{Kernel, Server}
use hvac_arc.Server.Handlers.{redirect, read_file, push_read, close_handler, serve}
use hvac_arc.Server.Mover.{drain_into, template, note_copy, move_one}

-- What is used of the file system: only `copy` changes what is in a file, `copy` writes no file
-- that is there, and if it succeeds the new file holds what the old one does. (`fs::copy` without
-- options refuses a target that exists.)
pub record StaticFiles (k : Kernel) : Type 0 where
  pub content : Bytes → k.World → Option Bytes
  pub open_keeps :
      (path : Bytes) (w : k.World) (q : Bytes) → content q (k.open_ro path w).1 ≡ content q w
  pub read_keeps :
      (fd : ℤ) (n : ℕ) (w : k.World) (q : Bytes) → content q (k.read fd n w).2 ≡ content q w
  pub pread_keeps :
      (fd : ℤ) (n : ℕ) (offset : ℤ) (w : k.World) (q : Bytes)
      → content q (k.pread fd n offset w).2 ≡ content q w
  pub lseek_keeps :
      (fd offset whence : ℤ) (w : k.World) (q : Bytes)
      → content q (k.lseek fd offset whence w).1 ≡ content q w
  pub close_keeps : (fd : ℤ) (w : k.World) (q : Bytes) → content q (k.close fd w).1 ≡ content q w
  pub mkdtemp_keeps :
      (t : Bytes) (w : k.World) (q : Bytes) → content q (k.mkdtemp t w).1 ≡ content q w
  pub copy_keeps :
      (from target : Bytes) (w : k.World) (q : Bytes)
      → content q w ≢ none
      → content q (k.copy from target w).1 ≡ content q w
  pub copy_copies :
      (from target : Bytes) (w : k.World)
      → (k.copy from target w).0 ≡ true
      → (content target (k.copy from target w).1 ≡ content from w) × (content from w ≢ none)

module _ (k : Kernel) (files : StaticFiles k) where
  open files use {content}

  -- `path` was moved to `target`, and both are there with the same contents.
  abbrev pub IsCopy : k.World → Bytes → Bytes → Type 0
  IsCopy w path target = (content path w ≡ content target w) × (content path w ≢ none)

  abbrev pub CacheOk : Server k.World → Type 0
  CacheOk s = AllEntries (IsCopy s.world) s.path_cache_map

  -- The copies outlive any change of the world that leaves the files that are there.
  kept :
      (w w' : k.World) (m : Map Bytes Bytes)
      → ((q : Bytes) → content q w ≢ none → content q w' ≡ content q w)
      → AllEntries (IsCopy w) m
      → AllEntries (IsCopy w') m
  kept w w' m keep ok =
      AllEntries-map (IsCopy w) (IsCopy w') m
        (λ path target c. ground (arith, keep path, keep target)) ok

  CacheOk-at :
      (t : Server k.World) (w : k.World) (m : Map Bytes Bytes)
      → t.world ≡ w
      → t.path_cache_map ≡ m
      → AllEntries (IsCopy w) m
      → CacheOk t
  CacheOk-at t w m ew em ok = rw (ew, em) ok

  read_file_keeps :
      (fd : ℤ) (n : ℕ) (offset : ℤ) (w : k.World) (q : Bytes)
      → content q (read_file k fd n offset w).2 ≡ content q w
  unfolding read_file
  read_file_keeps fd n offset w q = elim (Bool-cases (eqz offset minus_one)) [
    | inl here ↦ rw here (files.read_keeps fd n w q)
    | inr there ↦ rw there (files.pread_keeps fd n offset w q)
  ]

  push_read-CacheOk :
      (n : ℕ) (fd offset : ℤ) (s : Server k.World)
      → CacheOk s
      → CacheOk (state_of (push_read k n fd offset s))
  push_read-CacheOk n fd offset s ok =
      CacheOk-at (state_of (push_read k n fd offset s)) (read_file k fd n offset s.world).2
        s.path_cache_map (unfold push_read in ground arith) (unfold push_read in ground arith)
        (kept s.world (read_file k fd n offset s.world).2 s.path_cache_map
          (λ q _. read_file_keeps fd n offset s.world q) ok)

  close_handler-CacheOk :
      (fd : ℤ) (s : Server k.World) → CacheOk s → CacheOk (state_of (close_handler k fd s))
  close_handler-CacheOk fd s ok =
      CacheOk-at (state_of (close_handler k fd s)) (k.close fd s.world).1 s.path_cache_map
        (unfold close_handler in ground arith) (unfold close_handler in ground arith)
        (kept s.world (k.close fd s.world).1 s.path_cache_map
          (λ q _. files.close_keeps fd s.world q) ok)

  serve-CacheOk : (r : Request) (s : Server k.World) → CacheOk s → CacheOk (state_of (serve k r s))
  unfolding serve
  serve-CacheOk (open_in path) s ok =
      kept s.world _ s.path_cache_map
        (λ q _. files.open_keeps (redirect path s.path_cache_map) s.world q) ok
  serve-CacheOk (read_in (negsuc n) fd offset) s ok = ok
  serve-CacheOk (read_in (pos n) fd offset) s ok = elim (Bool-cases (k.registers n)) [
    | inl taken ↦ rw taken (push_read-CacheOk n fd offset s ok)
    | inr refused ↦ rw refused ok
  ]
  serve-CacheOk (seek_in fd offset whence) s ok =
      kept s.world _ s.path_cache_map (λ q _. files.lseek_keeps fd offset whence s.world q) ok
  serve-CacheOk (close_in fd) s ok = close_handler-CacheOk fd s ok

  drain_into-CacheOk :
      (queue : List Bytes) (s : Server k.World) → CacheOk s → CacheOk (drain_into queue s)
  unfolding drain_into
  drain_into-CacheOk [] s ok = ok
  drain_into-CacheOk (path ∷ rest) s ok =
      drain_into-CacheOk rest
        (record s { local_list = s.local_list ++ path ∷ []; data_queue = rest }) ok

  note_copy-CacheOk :
      (path target : Bytes) (w : k.World) (m : Map Bytes Bytes)
      → AllEntries (IsCopy w) m
      → AllEntries
          (IsCopy (k.copy path target w).1)
          (note_copy (k.copy path target w).0 path target m)
  note_copy-CacheOk path target w m ok = elim (Bool-cases (k.copy path target w).0) [
    | inl done ↦
        rw done
          (AllEntries-insert (IsCopy (k.copy path target w).1) path target m (copied done) later)
    | inr thrown ↦ rw thrown later
  ]
    where
      later : AllEntries (IsCopy (k.copy path target w).1) m
      later = kept w (k.copy path target w).1 m (λ q. files.copy_keeps path target w q) ok

      copied : (k.copy path target w).0 ≡ true → IsCopy (k.copy path target w).1 path target
      copied done =
          let (same, there) = files.copy_copies path target w done in
          ground (arith, same, there, files.copy_keeps path target w path)

  module _ (bbpath : Bytes) where
    move_one-CacheOk :
        (path : Bytes) (s : Server k.World) → CacheOk s → CacheOk (move_one k bbpath path s)
    unfolding move_one
    move_one-CacheOk path s ok = note_copy-CacheOk path _ _ s.path_cache_map (
        kept s.world (k.mkdtemp (template k bbpath) s.world).1 s.path_cache_map
          (λ q _. files.mkdtemp_keeps (template k bbpath) s.world q) ok)

    copy_next-CacheOk :
        (paths : List Bytes) (s : Server k.World) → CacheOk s → CacheOk (copy_next k bbpath paths s)
    copy_next-CacheOk [] s ok = ok
    copy_next-CacheOk (path ∷ rest) s ok = move_one-CacheOk path s ok

  pub happen-CacheOk : (e : Event) (s : Server k.World) → CacheOk s → CacheOk (happen k e s)
  unfolding happen
  happen-CacheOk (requested r) s ok = serve-CacheOk r s ok
  happen-CacheOk woken s ok = drain_into-CacheOk s.data_queue s ok
  happen-CacheOk (copies bbpath) s ok = copy_next-CacheOk bbpath s.local_list s ok

  -- If each redirection leads to a file that holds what the original holds, the same is so after
  -- any requests and any steps of the data mover, interleaved in any way.
  pub happen_all-CacheOk :
      (es : List Event) (s : Server k.World) → CacheOk s → CacheOk (happen_all k es s)
  unfolding happen_all
  happen_all-CacheOk [] s ok = ok
  happen_all-CacheOk (e ∷ es) s ok = happen_all-CacheOk es (happen k e s) (happen-CacheOk e s ok)

  pub content-redirect :
      (t : Server k.World) (path : Bytes)
      → CacheOk t
      → content (redirect path t.path_cache_map) t.world ≡ content path t.world
  unfolding redirect
  content-redirect t path ok = elim (Option-cases (lookup path t.path_cache_map)) [
    | inl direct ↦ rw (direct, redirect) refl
    | inr (target, cached) ↦
        rw (cached, redirect)
          (sym (AllEntries-lookup (IsCopy t.world) path t.path_cache_map target ok cached).0)
  ]

  -- After any requests and steps of the data mover, from a server whose redirections lead to files
  -- with the originals' contents: a request to open a file is answered with the descriptor that the
  -- kernel gives for a file that holds what the requested one holds.
  pub open_handler-content :
      (es : List Event) (s : Server k.World) (path : Bytes)
      → CacheOk s
      → let t = happen_all k es s in
        (opened : Bytes) × (content opened t.world ≡ content path t.world)
        × ((u : Server k.World) × (serve k (open_in path) t
              ≡ returns (replied (k.open_ro opened t.world).0 []) u))
  unfolding serve
  open_handler-content es s path ok =
      let t = happen_all k es s in
      (
        redirect path t.path_cache_map,
        content-redirect t path (happen_all-CacheOk es s ok),
        (_, refl),
      )
