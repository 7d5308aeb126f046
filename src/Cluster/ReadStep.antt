-- ===== src/Cluster/ReadStep.antt =====
-- A read of an open file through the wrapper, beside the read of the table.
use hvac_arc.Base.{
  ℕ, ◌≡◌, ◌≢◌, ◌<◌, ◌^◌, refl, sym, ap, subst, ◌∙◌, inl, inr, ℤ, pos, minus_one, int_ord, eqz,
  eqz_iff, some, Bytes, bytes_ord, Bool-cases, take, drop, state_of, returns, length, arith,
}
use hvac_arc.OrderedMap.{lookup, insert, lookup-insert, eq_refl}
use hvac_arc.Host.{Host, read_in}
use hvac_arc.Server.{Kernel, Server, requested, happen}
use hvac_arc.Server.Cache.{StaticFiles, CacheOk, happen-CacheOk}
use hvac_arc.Server.OpenFiles.{OpenFiles, HasLeft}
use hvac_arc.Server.Streams.{Transfers, serve-read}
use hvac_arc.Wrappers.{Process, wrap_read}
use hvac_arc.Cluster.{cluster}
use hvac_arc.Cluster.Streams.{IsReading, after_read, wrap_read-IsReading}
use hvac_arc.Cluster.OpenTable.{Table}
use hvac_arc.Cluster.Agreement.{Agrees, Holds, Serves-same, answered-CacheOk, Holds-answered}

module _ (local : Host) (k : Kernel) (files : StaticFiles k) (o : OpenFiles k files)
    (able : Transfers k) where
  abbrev machines : Host
  machines = cluster local k

  module _ (t : Table) (q : Process machines.World) (a : Agrees local k files o t q) (fd : ℤ)
      (rest : Bytes) (listed : lookup fd t ≡ some rest) (n : ℕ) (small : n < 2 ^ 31) where
    abbrev holds : Holds local k files o q fd rest
    holds = a.held fd rest listed

    reading : IsReading local k holds.address files o able fd holds.serves.full holds.far rest q
    reading = record {
      knows = holds.serves.knows;
      tracks = holds.serves.tracks;
      mapped = ap (λ m. m.read_fn) a.mapped;
      old = a.old;
      buffered = a.buffered;
      runs = holds.runs;
      there = holds.left;
    }

    abbrev server : Server k.World
    server = q.client.world.servers holds.address

    abbrev read_server : Server k.World
    read_server = record server { world = (k.read holds.far n server.world).2 }

    abbrev pub after : Process machines.World
    after = after_read local k holds.address files o able fd holds.serves.full holds.far n rest q

    pub reads : wrap_read machines fd n q ≡ returns (pos (length (take n rest))) after
    reads =
        (wrap_read-IsReading local k holds.address files o able fd holds.serves.full holds.far n
          rest q small reading).0

    read_server-CacheOk : CacheOk k files read_server
    read_server-CacheOk =
        subst (CacheOk k files)
          (ap state_of (serve-read k files o able holds.far n rest server small holds.left))
          (unfold happen in
            happen-CacheOk k files (requested (read_in (pos n) holds.far minus_one)) server
              (a.cached holds.address holds.runs))

    -- Another file of the table, which no descriptor of this server's shares.
    other_far :
        (g : ℤ) (other : Bytes) (h : Holds local k files o q g other)
        → lookup g t ≡ some other
        → g ≢ fd
        → holds.address ≡ h.address
        → h.far ≢ holds.far
    other_far g other h listed_too apart here same = apart (
        a.apart g fd holds.far other rest holds.address listed_too listed
          (rw (here, sym same) h.serves) holds.serves)

    own_held : Holds local k files o after fd (drop n rest)
    own_held = record {
      address = holds.address;
      far = holds.far;
      serves =
          Serves-same local k files o q after fd holds.far holds.address refl refl refl refl refl
            holds.serves;
      runs = rw (eq_refl holds.address) refl;
      left = rw (eq_refl holds.address) (o.read_own holds.far n rest server.world holds.left).2;
    }

    was_listed :
        (g : ℤ) (other : Bytes)
        → lookup g (insert fd (drop n rest) t) ≡ some other
        → (before : Bytes) × (lookup g t ≡ some before)
    was_listed g other found = elim (Bool-cases (eqz fd g)) [
      | inl same ↦ (rest, ground (arith, listed, eqz_iff fd g))
      | inr apart ↦ (other, ground (arith, found, lookup-insert g fd (drop n rest) t))
    ]

    still_held :
        (g : ℤ) (other : Bytes)
        → lookup g (insert fd (drop n rest) t) ≡ some other
        → Holds local k files o after g other
    still_held g other found = elim (Bool-cases (eqz fd g)) [
      | inl same ↦
          let here : fd ≡ g = ground (arith, eqz_iff fd g) in
          let left : drop n rest ≡ other =
            ground (arith, found, lookup-insert g fd (drop n rest) t) in
          subst (λ x. Holds local k files o after x other) here
            (subst (λ bytes. Holds local k files o after fd bytes) left own_held)
      | inr apart ↦
          let listed_too : lookup g t ≡ some other =
            ground (arith, found, lookup-insert g fd (drop n rest) t) in
          let h = a.held g other listed_too in
          Holds-answered local k files o q after g other holds.address read_server h refl refl
            (Serves-same local k files o q after g h.far h.address refl refl refl refl refl
              h.serves)
            λ here.
              o.read_other h.far holds.far n server.world
                (other_far g other h listed_too (λ e. ground (arith, eqz_iff fd g)) here)
              ∙ subst (λ at. HasLeft k files o h.far other (q.client.world.servers at)) (sym here)
                  h.left
    ]

    pub reads-Agrees : Agrees local k files o (insert fd (drop n rest) t) after
    reads-Agrees = record {
      mapped = a.mapped;
      on = a.on;
      quiet = a.quiet;
      started = a.started;
      old = take n rest;
      buffered = refl;
      cached =
          answered-CacheOk local k files o holds.address read_server q.client.world
            read_server-CacheOk a.cached;
      held = still_held;
      apart = λ g gd far r r' at found found' s s'.
          let (before, listed_one) = was_listed g r found in
          let (before', listed_other) = was_listed gd r' found' in
          a.apart g gd far before before' at listed_one listed_other
            (Serves-same local k files o after q g far at refl refl refl refl
              holds.serves.knows.quiet s)
            (Serves-same local k files o after q gd far at refl refl refl refl
              holds.serves.knows.quiet s');
    }
