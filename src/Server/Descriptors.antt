-- ===== src/Server/Descriptors.antt =====
-- fd_to_path of hvac_comm.cpp, which all clients share, against the kernel's open descriptors.
use hvac_arc.Base.{
  ℕ, ◌≡◌, ◌≢◌, sym, ap, subst, ◌∙◌, inl, inr, ℤ, pos, negsuc, minus_one, int_ord, eqz, Bool, true,
  false, none, some, List, [], ◌∷◌, ◌++◌, if◌then◌else◌, Bytes, bytes_ord, state_of, arith,
  Bool-cases,
}
use hvac_arc.OrderedMap.{
  lookup, member, insert, index, lookup-insert_self, lookup-insert_ne, lookup-erase_self,
  lookup-erase_ne,
}
use hvac_arc.Host.{Request, open_in, read_in, seek_in, close_in}
use hvac_arc.Server.Defs.{Kernel, Server}
use hvac_arc.Server.Handlers.{redirect, read_file, push_read, close_handler, queue_closed, serve}
use hvac_arc.Server.Mover.{drain_into, move_one}
use hvac_arc.Server.Events.{Event, requested, woken, copies, copy_next, happen, happen_all}

-- What POSIX says of descriptors: `open` gives one that is not open, or -1; it stays open until it
-- is closed.
pub record Descriptors (k : Kernel) : Type 0 where
  pub live : ℤ → k.World → Bool
  pub open_fresh : (path : Bytes) (w : k.World) → live (k.open_ro path w).0 w ≡ false
  pub open_opens :
      (path : Bytes) (w : k.World)
      → (k.open_ro path w).0 ≢ minus_one
      → live (k.open_ro path w).0 (k.open_ro path w).1 ≡ true
  pub open_live :
      (fd : ℤ) (path : Bytes) (w : k.World) → live fd w ≡ true → live fd (k.open_ro path w).1 ≡ true
  pub read_live :
      (fd g : ℤ) (n : ℕ) (w : k.World) → live fd w ≡ true → live fd (k.read g n w).2 ≡ true
  pub pread_live :
      (fd g : ℤ) (n : ℕ) (offset : ℤ) (w : k.World)
      → live fd w ≡ true
      → live fd (k.pread g n offset w).2 ≡ true
  pub lseek_live :
      (fd g offset whence : ℤ) (w : k.World)
      → live fd w ≡ true
      → live fd (k.lseek g offset whence w).1 ≡ true
  pub close_live :
      (fd g : ℤ) (w : k.World) → fd ≢ g → live fd w ≡ true → live fd (k.close g w).1 ≡ true
  pub mkdtemp_live :
      (fd : ℤ) (t : Bytes) (w : k.World) → live fd w ≡ true → live fd (k.mkdtemp t w).1 ≡ true
  pub copy_live :
      (fd : ℤ) (from target : Bytes) (w : k.World)
      → live fd w ≡ true
      → live fd (k.copy from target w).1 ≡ true

-- Any event but the close of the descriptor.
abbrev pub Spares : ℤ → Event → Type 0
Spares fd (requested (close_in g)) = fd ≢ g
Spares fd e = Unit

abbrev pub AllSpare : ℤ → List Event → Type 0
AllSpare fd [] = Unit
AllSpare fd (e ∷ es) = Spares fd e × AllSpare fd es

module _ (k : Kernel) (d : Descriptors k) (fd : ℤ) (path : Bytes) where
  -- The descriptor is open, and recorded under the path.
  pub record Held (s : Server k.World) : Type 0 where
    pub open_now : d.live fd s.world ≡ true
    pub recorded : lookup fd s.fd_to_path ≡ some path

  read_file-live :
      (g : ℤ) (n : ℕ) (offset : ℤ) (w : k.World)
      → d.live fd w ≡ true
      → d.live fd (read_file k g n offset w).2 ≡ true
  unfolding read_file
  read_file-live g n offset w h = elim (Bool-cases (eqz offset minus_one)) [
    | inl here ↦ rw here (d.read_live fd g n w h)
    | inr there ↦ rw there (d.pread_live fd g n offset w h)
  ]

  push_read-Held :
      (n : ℕ) (g offset : ℤ) (s : Server k.World)
      → Held s
      → Held (state_of (push_read k n g offset s))
  unfolding push_read
  push_read-Held n g offset s h = record {
    open_now = ground (arith, read_file-live g n offset s.world h.open_now);
    recorded = ground (arith, h.recorded);
  }

  queue_closed-lookup :
      (g : ℤ) (s : Server k.World)
      → fd ≢ g
      → lookup fd (queue_closed k g s).fd_to_path ≡ lookup fd s.fd_to_path
  unfolding queue_closed index
  queue_closed-lookup g s other =
      ground (arith, lookup-insert_ne {V = Bytes} fd g [] s.fd_to_path other)

  close_handler-Held :
      (g : ℤ) (s : Server k.World) → fd ≢ g → Held s → Held (state_of (close_handler k g s))
  unfolding close_handler
  close_handler-Held g s other h = record {
    open_now = ground (arith, d.close_live fd g s.world other h.open_now);
    recorded = ground (
      arith,
      queue_closed-lookup g (record s { world = (k.close g s.world).1 }) other,
      lookup-erase_ne fd g
          (queue_closed k g (record s { world = (k.close g s.world).1 })).fd_to_path other,
      h.recorded,
    );
  }

  serve-Held :
      (r : Request) (s : Server k.World)
      → Spares fd (requested r)
      → Held s
      → Held (state_of (serve k r s))
  unfolding serve
  serve-Held (open_in p) s spare h = record {
    open_now = d.open_live fd (redirect p s.path_cache_map) s.world h.open_now;
    recorded =
        lookup-insert_ne fd (k.open_ro (redirect p s.path_cache_map) s.world).0 p s.fd_to_path (λ e.
          ground (
            arith,
            ap (λ g. d.live g s.world) e,
            d.open_fresh (redirect p s.path_cache_map) s.world,
            h.open_now,
          ))
        ∙ h.recorded;
  }
  serve-Held (read_in (negsuc n) g offset) s spare h = h
  serve-Held (read_in (pos n) g offset) s spare h = elim (Bool-cases (k.registers n)) [
    | inl taken ↦ rw taken (push_read-Held n g offset s h)
    | inr refused ↦ rw refused h
  ]
  serve-Held (seek_in g offset whence) s spare h = record {
    open_now = d.lseek_live fd g offset whence s.world h.open_now;
    recorded = h.recorded;
  }
  serve-Held (close_in g) s spare h = close_handler-Held g s spare h

  drain_into-Held : (queue : List Bytes) (s : Server k.World) → Held s → Held (drain_into queue s)
  unfolding drain_into
  drain_into-Held [] s h = record { open_now = h.open_now; recorded = h.recorded }
  drain_into-Held (q ∷ rest) s h =
      drain_into-Held rest _ (record { open_now = h.open_now; recorded = h.recorded })

  move_one-Held : (bbpath q : Bytes) (s : Server k.World) → Held s → Held (move_one k bbpath q s)
  unfolding move_one
  move_one-Held bbpath q s h = record {
    open_now = d.copy_live fd _ _ _ (d.mkdtemp_live fd _ s.world h.open_now);
    recorded = h.recorded;
  }

  copy_next-Held :
      (bbpath : Bytes) (paths : List Bytes) (s : Server k.World)
      → Held s
      → Held (copy_next k bbpath paths s)
  copy_next-Held bbpath [] s h = h
  copy_next-Held bbpath (q ∷ rest) s h = move_one-Held bbpath q s h

  happen-Held : (e : Event) (s : Server k.World) → Spares fd e → Held s → Held (happen k e s)
  unfolding happen
  happen-Held (requested r) s spare h = serve-Held r s spare h
  happen-Held woken s spare h = drain_into-Held s.data_queue s h
  happen-Held (copies bbpath) s spare h = copy_next-Held bbpath s.local_list s h

  happen_all-Held :
      (es : List Event) (s : Server k.World) → AllSpare fd es → Held s → Held (happen_all k es s)
  unfolding happen_all
  happen_all-Held [] s spare h = h
  happen_all-Held (e ∷ es) s spare h =
      happen_all-Held es (happen k e s) spare.1 (happen-Held e s spare.0 h)

  opened-Held :
      (s : Server k.World)
      → (k.open_ro (redirect path s.path_cache_map) s.world).0 ≡ fd
      → fd ≢ minus_one
      → Held (state_of (serve k (open_in path) s))
  unfolding serve
  opened-Held s gives good =
      let p = redirect path s.path_cache_map in
      record {
        open_now =
            subst (λ g. d.live g (k.open_ro p s.world).1 ≡ true) gives
              (d.open_opens p s.world (λ e. good (sym gives ∙ e)));
        recorded =
            subst (λ g. lookup g (insert (k.open_ro p s.world).0 path s.fd_to_path) ≡ some path)
              gives (lookup-insert_self (k.open_ro p s.world).0 path s.fd_to_path);
      }

  closed_lem :
      (t : Server k.World) (w : k.World)
      → Held t
      → k.close fd t.world ≡ (pos 0, w)
      → let u = state_of (serve k (close_in fd) t) in
        (u.data_queue
          ≡ (if member path t.path_cache_map then t.data_queue else t.data_queue ++ path ∷ []))
        × (lookup fd u.fd_to_path ≡ none)
  unfolding serve queue_closed index
  closed_lem t w h closes = ground (arith, h.recorded, lookup-erase_self fd t.fd_to_path)

  -- A client opens a file, and later closes the descriptor that it got. Whatever requests of other
  -- clients and steps of the data mover come in between, none of which closes that descriptor: the
  -- path of the open is queued for the data mover, behind what waits, if it has no copy then, and
  -- the descriptor is forgotten.
  pub close-after_open :
      (s : Server k.World) (es : List Event) (w : k.World)
      → (k.open_ro (redirect path s.path_cache_map) s.world).0 ≡ fd
      → fd ≢ minus_one
      → AllSpare fd es
      → let t = happen_all k es (state_of (serve k (open_in path) s)) in
        k.close fd t.world ≡ (pos 0, w)
        → let u = state_of (serve k (close_in fd) t) in
          (u.data_queue
            ≡ (if member path t.path_cache_map then t.data_queue else t.data_queue ++ path ∷ []))
          × (lookup fd u.fd_to_path ≡ none)
  close-after_open s es w gives good spare closes =
      closed_lem _ w (happen_all-Held es _ spare (opened-Held s gives good)) closes
