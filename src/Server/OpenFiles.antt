-- ===== src/Server/OpenFiles.antt =====
-- The kernel's open files under the server of hvac_comm.cpp: what a descriptor has still to read.
use hvac_arc.Base.{
  ℕ, ◌≡◌, ◌≢◌, ap, ◌∙◌, inl, inr, ℤ, pos, negsuc, minus_one, int_ord, eqz, Option, none, some, List,
  [], ◌∷◌, Bytes, bytes_ord, state_of, take, drop, length, arith, Bool-cases,
}
use hvac_arc.Host.{Request, open_in, read_in, seek_in, close_in}
use hvac_arc.Server.Defs.{Kernel, Server}
use hvac_arc.Server.Handlers.{redirect, read_file, push_read, close_handler, queue_closed, serve}
use hvac_arc.Server.Mover.{drain_into, move_one}
use hvac_arc.Server.Events.{Event, requested, woken, copies, copy_next, happen, happen_all}
use hvac_arc.Server.Cache.{StaticFiles}

-- What POSIX says of the descriptors of regular files that nobody writes. `rest fd w` are the bytes
-- behind the offset of an open descriptor: `open` gives a descriptor that is not open and stands at the
-- first byte; `read` gives as many of them as were asked for, or all, and moves behind them; `pread`
-- moves nothing; and no call moves another's descriptor.
pub record OpenFiles (k : Kernel) (files : StaticFiles k) : Type 0 where
  pub rest : ℤ → k.World → Option Bytes
  pub open_new : (path : Bytes) (w : k.World) → rest (k.open_ro path w).0 w ≡ none
  pub open_rest :
      (path contents : Bytes) (w : k.World)
      → files.content path w ≡ some contents
      → rest (k.open_ro path w).0 (k.open_ro path w).1 ≡ some contents
  pub open_other :
      (fd : ℤ) (path : Bytes) (w : k.World)
      → fd ≢ (k.open_ro path w).0
      → rest fd (k.open_ro path w).1 ≡ rest fd w
  pub read_own :
      (fd : ℤ) (n : ℕ) (bytes : Bytes) (w : k.World)
      → rest fd w ≡ some bytes
      → ((k.read fd n w).0 ≡ pos (length (take n bytes)))
        × ((k.read fd n w).1 ≡ take n bytes)
        × (rest fd (k.read fd n w).2 ≡ some (drop n bytes))
  pub read_other : (fd g : ℤ) (n : ℕ) (w : k.World) → fd ≢ g → rest fd (k.read g n w).2 ≡ rest fd w
  pub pread_rest :
      (fd g : ℤ) (n : ℕ) (offset : ℤ) (w : k.World) → rest fd (k.pread g n offset w).2 ≡ rest fd w
  pub lseek_other :
      (fd g offset whence : ℤ) (w : k.World)
      → fd ≢ g
      → rest fd (k.lseek g offset whence w).1 ≡ rest fd w
  pub close_other : (fd g : ℤ) (w : k.World) → fd ≢ g → rest fd (k.close g w).1 ≡ rest fd w
  pub mkdtemp_rest : (fd : ℤ) (t : Bytes) (w : k.World) → rest fd (k.mkdtemp t w).1 ≡ rest fd w
  pub copy_rest :
      (fd : ℤ) (from target : Bytes) (w : k.World) → rest fd (k.copy from target w).1 ≡ rest fd w

-- Any event but a read, a seek or the close of the descriptor.
abbrev pub Avoids : ℤ → Event → Type 0
Avoids fd (requested (open_in path)) = Unit
Avoids fd (requested (read_in n g offset)) = fd ≢ g
Avoids fd (requested (seek_in g offset whence)) = fd ≢ g
Avoids fd (requested (close_in g)) = fd ≢ g
Avoids fd woken = Unit
Avoids fd (copies bbpath) = Unit

abbrev pub AllAvoid : ℤ → List Event → Type 0
AllAvoid fd [] = Unit
AllAvoid fd (e ∷ es) = Avoids fd e × AllAvoid fd es

module _ (k : Kernel) (files : StaticFiles k) (o : OpenFiles k files) (fd : ℤ) (bytes : Bytes) where
  -- The descriptor is open and has these bytes before it.
  abbrev pub HasLeft : Server k.World → Type 0
  HasLeft s = o.rest fd s.world ≡ some bytes

  read_file-rest :
      (g : ℤ) (n : ℕ) (offset : ℤ) (w : k.World)
      → fd ≢ g
      → o.rest fd (read_file k g n offset w).2 ≡ o.rest fd w
  unfolding read_file
  read_file-rest g n offset w other = elim (Bool-cases (eqz offset minus_one)) [
    | inl here ↦ rw here (o.read_other fd g n w other)
    | inr there ↦ rw there (o.pread_rest fd g n offset w)
  ]

  pub push_read-world :
      (n : ℕ) (g offset : ℤ) (s : Server k.World)
      → (state_of (push_read k n g offset s)).world ≡ (read_file k g n offset s.world).2
  unfolding push_read
  push_read-world n g offset s = ground arith

  close_handler-world :
      (g : ℤ) (s : Server k.World) → (state_of (close_handler k g s)).world ≡ (k.close g s.world).1
  unfolding close_handler queue_closed
  close_handler-world g s = ground arith

  pub serve-HasLeft :
      (r : Request) (s : Server k.World)
      → Avoids fd (requested r)
      → HasLeft s
      → HasLeft (state_of (serve k r s))
  unfolding serve
  serve-HasLeft (open_in p) s avoids h =
      o.open_other fd (redirect p s.path_cache_map) s.world (λ e.
        ground (
          arith,
          ap (λ g. o.rest g s.world) e,
          o.open_new (redirect p s.path_cache_map) s.world,
          h,
        ))
      ∙ h
  serve-HasLeft (read_in (negsuc n) g offset) s avoids h = h
  serve-HasLeft (read_in (pos n) g offset) s avoids h = elim (Bool-cases (k.registers n)) [
    | inl taken ↦ rw taken (
        ap (o.rest fd) (push_read-world n g offset s)
        ∙ read_file-rest g n offset s.world avoids
        ∙ h)
    | inr refused ↦ rw refused h
  ]
  serve-HasLeft (seek_in g offset whence) s avoids h =
      o.lseek_other fd g offset whence s.world avoids ∙ h
  serve-HasLeft (close_in g) s avoids h =
      ap (o.rest fd) (close_handler-world g s) ∙ o.close_other fd g s.world avoids ∙ h

  drain_into-HasLeft :
      (queue : List Bytes) (s : Server k.World) → HasLeft s → HasLeft (drain_into queue s)
  unfolding drain_into
  drain_into-HasLeft [] s h = h
  drain_into-HasLeft (q ∷ more) s h = drain_into-HasLeft more _ h

  copy_next-HasLeft :
      (bbpath : Bytes) (paths : List Bytes) (s : Server k.World)
      → HasLeft s
      → HasLeft (copy_next k bbpath paths s)
  unfolding move_one
  copy_next-HasLeft bbpath [] s h = h
  copy_next-HasLeft bbpath (q ∷ more) s h = o.copy_rest fd _ _ _ ∙ o.mkdtemp_rest fd _ s.world ∙ h

  pub happen-HasLeft :
      (e : Event) (s : Server k.World) → Avoids fd e → HasLeft s → HasLeft (happen k e s)
  unfolding happen
  happen-HasLeft (requested r) s avoids h = serve-HasLeft r s avoids h
  happen-HasLeft woken s avoids h = drain_into-HasLeft s.data_queue s h
  happen-HasLeft (copies bbpath) s avoids h = copy_next-HasLeft bbpath s.local_list s h

  -- What other clients ask for and what the data mover does leave the bytes before the descriptor.
  pub happen_all-HasLeft :
      (es : List Event) (s : Server k.World)
      → AllAvoid fd es
      → HasLeft s
      → HasLeft (happen_all k es s)
  unfolding happen_all
  happen_all-HasLeft [] s avoid h = h
  happen_all-HasLeft (e ∷ es) s avoid h =
      happen_all-HasLeft es (happen k e s) avoid.1 (happen-HasLeft e s avoid.0 h)
