-- ===== src/Server/Survival.antt =====
-- The server of hvac_comm.cpp under clients that use only what they opened: it asserts nothing that fails.
use hvac_arc.Base.{
  ℕ, ◌≤◌, ◌≡◌, refl, sym, ap, ◌∙◌, inl, inr, ℤ, pos, negsuc, minus_one, int_ord, eqz, eqz_iff,
  int32, true, some, List, [], ◌∷◌, Bytes, bytes_ord, Prog, returns, state_of, pure, modify, ◌>>=◌,
  ◌>>◌, take, drop, length, length-take-le, arith, subst, Bool-cases,
}
use hvac_arc.Host.{Request, Delivery, replied, silent, open_in, read_in, seek_in, close_in}
use hvac_arc.Server.Defs.{Kernel, Server}
use hvac_arc.Server.Handlers.{redirect, read_file, serve}
use hvac_arc.Server.Events.{Event, requested, woken, copies, happen, happen_all}
use hvac_arc.Server.Cache.{StaticFiles, CacheOk, content-redirect, happen-CacheOk}
use hvac_arc.Server.OpenFiles.{OpenFiles, Avoids, push_read-world, serve-HasLeft, happen-HasLeft}
use hvac_arc.Server.Streams.{Transfers}
use hvac_arc.Server.Manners.{holds, holding, holds-without, IsPlace, MayAsk, IsPolite}

-- What POSIX says further of an open descriptor: `pread` at an offset gives at most as many bytes as
-- were asked for, `lseek` leaves it open, and `close` reports success.
pub record Posix (k : Kernel) (files : StaticFiles k) (o : OpenFiles k files) : Type 0 where
  pub pread_own :
      (fd : ℤ) (n offset : ℕ) (bytes : Bytes) (w : k.World)
      → o.rest fd w ≡ some bytes
      → (m : ℕ) × ((k.pread fd n (pos offset) w).0 ≡ pos m) × (m ≤ n)
  pub lseek_own :
      (fd offset whence : ℤ) (bytes : Bytes) (w : k.World)
      → o.rest fd w ≡ some bytes
      → (later : Bytes) × (o.rest fd (k.lseek fd offset whence w).1 ≡ some later)
  pub close_own :
      (fd : ℤ) (bytes : Bytes) (w : k.World) → o.rest fd w ≡ some bytes → (k.close fd w).0 ≡ pos 0

module _ (k : Kernel) (files : StaticFiles k) where
  -- The server's answers, as long as it runs.
  unfoldable pub answers : List Event → Prog (Server k.World) (List Delivery)
  unfolding serve
  answers [] = pure []
  answers (requested r ∷ es) = do d ← serve k r; ds ← answers es; pure (d ∷ ds)
  answers (e ∷ es) = do modify (happen k e); answers es

  module _ (o : OpenFiles k files) (able : Transfers k) (p : Posix k files o) where
    abbrev pub AllOpen : List ℤ → k.World → Type 0
    AllOpen held w = (fd : ℤ) → holds fd held ≡ true → (bytes : Bytes) × (o.rest fd w ≡ some bytes)

    read_file_own :
        (fd : ℤ) (n : ℕ) (offset : ℤ) (bytes : Bytes) (w : k.World)
        → IsPlace offset
        → o.rest fd w ≡ some bytes
        → (m : ℕ) × ((read_file k fd n offset w).0 ≡ pos m) × (m ≤ n)
    unfolding read_file
    read_file_own fd n (pos offset) bytes w place h = p.pread_own fd n offset bytes w h
    read_file_own fd n (negsuc m) bytes w place h =
        (length (take n bytes), rw place ((o.read_own fd n bytes w h).0), length-take-le n bytes)

    serve-answers :
        (r : Request) (held : List ℤ) (s : Server k.World)
        → MayAsk k files held r s
        → AllOpen held s.world
        → (d : Delivery) × (serve k r s ≡ returns d (state_of (serve k r s)))
    unfolding serve
    serve-answers (open_in path) held s may opens = (_, refl)
    serve-answers (read_in (pos n) fd offset) held s may opens =
        let (bytes, h) = opens fd may.0 in
        let (m, gives, few) = read_file_own fd n offset bytes s.world may.1 h in
        (
          replied (int32 (pos m)) (read_file k fd n offset s.world).1,
          ground (arith, gives, few, able.registers n, able.transfers m n),
        )
    serve-answers (read_in (negsuc n) fd offset) held s may opens = absurd may
    serve-answers (seek_in fd offset whence) held s may opens = (_, refl)
    serve-answers (close_in fd) held s may opens =
        let (bytes, h) = opens fd may in (silent, ground (arith, p.close_own fd bytes s.world h))

    -- A request that is not about the descriptor leaves it open.
    others_open :
        (g : ℤ) (held : List ℤ) (r : Request) (s : Server k.World)
        → Avoids g (requested r)
        → AllOpen held s.world
        → holds g held ≡ true
        → (bytes : Bytes) × (o.rest g (state_of (serve k r s)).world ≡ some bytes)
    others_open g held r s avoids opens h =
        let (bytes, there) = opens g h in (bytes, serve-HasLeft k files o g bytes r s avoids there)

    read_open :
        (n : ℕ) (fd offset : ℤ) (g : ℤ) (bytes : Bytes) (w : k.World)
        → o.rest g w ≡ some bytes
        → (later : Bytes) × (o.rest g (read_file k fd n offset w).2 ≡ some later)
    unfolding read_file
    read_open n fd offset g bytes w h = elim (Bool-cases (eqz offset minus_one)) [
      | inr there ↦ (bytes, rw there (o.pread_rest g fd n offset w ∙ h))
      | inl here ↦ elim (Bool-cases (eqz g fd)) [
        | inl same ↦
            let e : g ≡ fd = ground (arith, eqz_iff g fd) in
            (drop n bytes, rw (here, sym e) (o.read_own g n bytes w h).2)
        | inr other ↦
            (bytes, rw here (o.read_other g fd n w (λ e. ground (arith, eqz_iff g fd)) ∙ h))
      ]
    ]

    serve-AllOpen :
        (r : Request) (held : List ℤ) (s : Server k.World)
        → MayAsk k files held r s
        → CacheOk k files s
        → AllOpen held s.world
        → AllOpen (holding r (serve k r s) held) (state_of (serve k r s)).world
    unfolding serve
    serve-AllOpen (open_in path) held s (contents, there) ok opens g h =
        let chosen = redirect path s.path_cache_map in
        let fd = (k.open_ro chosen s.world).0 in
        elim (Bool-cases (eqz fd g)) [
          | inl same ↦
              let e : fd ≡ g = ground (arith, eqz_iff fd g) in
              (
                contents,
                subst (λ x. o.rest x (k.open_ro chosen s.world).1 ≡ some contents) e
                    (o.open_rest chosen contents s.world
                      (content-redirect k files s path ok ∙ there)),
              )
          | inr other ↦ others_open g held (open_in path) s tt opens (ground arith)
        ]
    serve-AllOpen (read_in (pos n) fd offset) held s may ok opens g h =
        let (bytes, here) = opens g h in
        let (later, stays) = read_open n fd offset g bytes s.world here in
        (
          later,
          rw (able.registers n)
              (ap (o.rest g) (push_read-world k files o g bytes n fd offset s) ∙ stays),
        )
    serve-AllOpen (read_in (negsuc n) fd offset) held s may ok opens g h = absurd may
    serve-AllOpen (seek_in fd offset whence) held s may ok opens g h =
        elim (Bool-cases (eqz g fd)) [
          | inl same ↦
              let e : fd ≡ g = ground (arith, eqz_iff g fd) in
              let (bytes, here) = opens fd may in
              let (later, stays) = p.lseek_own fd offset whence bytes s.world here in
              (
                later,
                subst (λ x. o.rest x (k.lseek fd offset whence s.world).1 ≡ some later) e stays,
              )
          | inr other ↦
              others_open g held (seek_in fd offset whence) s (λ e. ground (arith, eqz_iff g fd))
                opens h
        ]
    serve-AllOpen (close_in fd) held s may ok opens g h =
        let (other, held_still) = holds-without g fd held h in
        others_open g held (close_in fd) s other opens held_still

    happen-AllOpen :
        (e : Event) (held : List ℤ) (s : Server k.World)
        → ((fd : ℤ) → Avoids fd e)
        → AllOpen held s.world
        → AllOpen held (happen k e s).world
    happen-AllOpen e held s avoids opens g h =
        let (bytes, there) = opens g h in
        (bytes, happen-HasLeft k files o g bytes e s (avoids g) there)

    -- From a server whose redirections lead to copies of the originals, on which the kernel has open
    -- what clients hold, where the kernel is as POSIX says and Mercury as documented: any clients and
    -- the data mover, in any order, as long as the clients open files that are there, and read, seek or
    -- close only descriptors that an open was answered with and that were not closed since, each read
    -- with a count that is not negative, at the current offset or at one that is not negative. Then
    -- every request is answered: no assertion of the server fails.
    pub answers-happen_all :
        (held : List ℤ) (es : List Event) (s : Server k.World)
        → IsPolite k files held es s
        → CacheOk k files s
        → AllOpen held s.world
        → (ds : List Delivery) × (answers es s ≡ returns ds (happen_all k es s))
    unfolding answers happen_all happen
    answers-happen_all held [] s polite ok opens = ([], refl)
    answers-happen_all held (requested r ∷ es) s polite ok opens =
        let (d, answered) = serve-answers r held s polite.0 opens in
        let (ds, rest) =
          answers-happen_all (holding r (serve k r s) held) es (happen k (requested r) s) polite.1
            (happen-CacheOk k files (requested r) s ok)
            (serve-AllOpen r held s polite.0 ok opens) in
        (d ∷ ds, ground (arith, answered, rest))
    answers-happen_all held (woken ∷ es) s polite ok opens =
        let (ds, rest) =
          answers-happen_all held es (happen k woken s) polite (happen-CacheOk k files woken s ok)
            (happen-AllOpen woken held s (λ fd. tt) opens) in
        (ds, rest)
    answers-happen_all held (copies bbpath ∷ es) s polite ok opens =
        let (ds, rest) =
          answers-happen_all held es (happen k (copies bbpath) s) polite
            (happen-CacheOk k files (copies bbpath) s ok)
            (happen-AllOpen (copies bbpath) held s (λ fd. tt) opens) in
        (ds, rest)
