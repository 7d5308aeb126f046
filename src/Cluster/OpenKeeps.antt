-- ===== src/Cluster/OpenKeeps.antt =====
-- What an open leaves of the agreement with the table.
use hvac_arc.Base.{
  ◌≡◌, ◌≢◌, refl, sym, subst, ◌∙◌, inl, inr, ℤ, int_ord, eqz, eqz_iff, eqz-cases, some, Bytes,
  bytes_ord, Bool-cases, arith,
}
use hvac_arc.OrderedMap.{
  lookup, insert, lookup-insert, lookup-insert_self, lookup-insert_ne, eq_refl,
}
use hvac_arc.Host.{Host, open_in}
use hvac_arc.Server.{Kernel, Server, requested, happen, redirect}
use hvac_arc.Server.Cache.{StaticFiles, happen-CacheOk}
use hvac_arc.Server.OpenFiles.{OpenFiles, HasLeft, serve-HasLeft}
use hvac_arc.Server.Streams.{Transfers, opened-HasLeft}
use hvac_arc.Wrappers.{Process}
use hvac_arc.Cluster.{cluster}
use hvac_arc.Cluster.OpenStep as OpenStep
use hvac_arc.Cluster.OpenStep.{CanOpen}
use hvac_arc.Cluster.OpenTable.{Opening, Table}
use hvac_arc.Cluster.Agreement.{
  Agrees, Holds, Serves, Serves-unique, answered-CacheOk, Holds-answered,
}

module _ (local : Host) (k : Kernel) (files : StaticFiles k) (o : OpenFiles k files)
    (able : Transfers k) (t : Table) (q : Process (cluster local k).World)
    (a : Agrees local k files o t q) (op : Opening) (can : CanOpen local k files o op t q) where
  abbrev server : Server k.World
  server = OpenStep.server local k files o able t q a op can

  abbrev far : ℤ
  far = OpenStep.far local k files o able t q a op can

  abbrev opened_server : Server k.World
  opened_server = OpenStep.opened_server local k files o able t q a op can

  abbrev after : Process (cluster local k).World
  after = OpenStep.after local k files o able t q a op can

  abbrev ServesBefore : ℤ → Bytes → ℤ → Type 0
  ServesBefore = Serves local k files o q

  abbrev ServesAfter : ℤ → Bytes → ℤ → Type 0
  ServesAfter = Serves local k files o after

  abbrev HoldsAfter : ℤ → Bytes → Type 0
  HoldsAfter = Holds local k files o after

  own-Serves : ServesAfter op.fd op.address far
  own-Serves = record {
    full = op.full;
    tracks = record {
      local = lookup-insert_self op.fd op.full q.client.fd_map;
      redirected = lookup-insert_self op.fd far q.client.fd_redir_map;
    };
    knows = record { some_server = can.knows.some_server; posted = can.knows.posted; quiet = refl };
  }

  own_held : HoldsAfter op.fd op.contents
  own_held = record {
    address = op.address;
    far = far;
    serves = own-Serves;
    runs = rw (eq_refl op.address) refl;
    left = rw (eq_refl op.address) (
        opened-HasLeft k files o able server op.full op.contents (a.cached op.address can.runs)
          can.there);
  }

  -- The other descriptors are served as before.
  served_still : (g gar : ℤ) (at : Bytes) → g ≢ op.fd → ServesBefore g at gar → ServesAfter g at gar
  served_still g gar at apart s = record {
    full = s.full;
    tracks = record {
      local = lookup-insert_ne g op.fd op.full q.client.fd_map apart ∙ s.tracks.local;
      redirected = lookup-insert_ne g op.fd far q.client.fd_redir_map apart ∙ s.tracks.redirected;
    };
    knows = record { some_server = s.knows.some_server; posted = s.knows.posted; quiet = refl };
  }

  served_before :
      (g gar : ℤ) (at : Bytes) → g ≢ op.fd → ServesAfter g at gar → ServesBefore g at gar
  served_before g gar at apart s = record {
    full = s.full;
    tracks = record {
      local = sym (lookup-insert_ne g op.fd op.full q.client.fd_map apart) ∙ s.tracks.local;
      redirected =
          sym (lookup-insert_ne g op.fd far q.client.fd_redir_map apart) ∙ s.tracks.redirected;
    };
    knows = record {
      some_server = s.knows.some_server;
      posted = s.knows.posted;
      quiet = can.knows.quiet;
    };
  }

  held_after :
      (g : ℤ) (other : Bytes)
      → lookup g (insert op.fd op.contents t) ≡ some other
      → HoldsAfter g other
  held_after g other found = elim (Bool-cases (eqz op.fd g)) [
    | inl same ↦
        let here : op.fd ≡ g = ground (arith, eqz_iff op.fd g) in
        let left : op.contents ≡ other =
          ground (arith, found, lookup-insert g op.fd op.contents t) in
        subst (λ x. HoldsAfter x other) here (subst (λ bytes. HoldsAfter op.fd bytes) left own_held)
    | inr apart ↦
        let listed : lookup g t ≡ some other =
          ground (arith, found, lookup-insert g op.fd op.contents t) in
        let h = a.held g other listed in
        Holds-answered local k files o q after g other op.address opened_server h refl refl
          (served_still g h.far h.address (λ e. ground (arith, eqz_iff op.fd g)) h.serves)
          λ here. serve-HasLeft k files o h.far other (open_in op.full) server tt (
            subst (λ at. HasLeft k files o h.far other (q.client.world.servers at)) (sym here)
              h.left)
  ]

  -- The server's descriptor is new: it serves no other file of the table.
  new_far : (g : ℤ) (other : Bytes) → lookup g t ≡ some other → ServesBefore g op.address far → ⊥
  new_far g other listed s =
      let h = a.held g other listed in
      let (here, same) =
        Serves-unique local k files o q g h.far far h.address op.address h.serves s in
      let left : HasLeft k files o far other server =
        subst (λ x. HasLeft k files o x other server) same
          (subst (λ at. HasLeft k files o h.far other (q.client.world.servers at)) here h.left) in
      ground (arith, left, o.open_new (redirect op.full server.path_cache_map) server.world)

  not_both :
      (g gar : ℤ) (other at : Bytes)
      → g ≢ op.fd
      → lookup g t ≡ some other
      → ServesAfter op.fd at gar
      → ServesAfter g at gar
      → ⊥
  not_both g gar other at apart listed own s =
      let (here, same) =
        Serves-unique local k files o after op.fd gar far at op.address own own-Serves in
      new_far g other listed (
        subst (λ x. ServesBefore g x far) here
          (subst (λ x. ServesBefore g at x) same (served_before g gar at apart s)))

  listed_before :
      (g : ℤ) (other : Bytes)
      → g ≢ op.fd
      → lookup g (insert op.fd op.contents t) ≡ some other
      → lookup g t ≡ some other
  listed_before g other apart found = sym (lookup-insert_ne g op.fd op.contents t apart) ∙ found

  still_apart :
      (g gd gar : ℤ) (rest other at : Bytes)
      → lookup g (insert op.fd op.contents t) ≡ some rest
      → lookup gd (insert op.fd op.contents t) ≡ some other
      → ServesAfter g at gar
      → ServesAfter gd at gar
      → g ≡ gd
  still_apart g gd gar rest other at found found' s s' = elim (eqz-cases g op.fd) [
    | inl e ↦ elim (eqz-cases gd op.fd) [
      | inl e' ↦ e ∙ sym e'
      | inr n' ↦ absurd (
          not_both gd gar other at n' (listed_before gd other n' found')
            (subst (λ x. ServesAfter x at gar) e s) s')
    ]
    | inr n ↦ elim (eqz-cases gd op.fd) [
      | inl e' ↦ absurd (
          not_both g gar rest at n (listed_before g rest n found)
            (subst (λ x. ServesAfter x at gar) e' s') s)
      | inr n' ↦
          a.apart g gd gar rest other at (listed_before g rest n found)
            (listed_before gd other n' found') (served_before g gar at n s)
            (served_before gd gar at n' s')
    ]
  ]

  pub opens-Agrees : Agrees local k files o (insert op.fd op.contents t) after
  opens-Agrees = record {
    mapped = a.mapped;
    on = a.on;
    quiet = a.quiet;
    started = a.started;
    old = a.old;
    buffered = a.buffered;
    cached =
        answered-CacheOk local k files o op.address opened_server q.client.world
          (unfold happen in
            happen-CacheOk k files (requested (open_in op.full)) server
              (a.cached op.address can.runs))
          a.cached;
    held = held_after;
    apart = still_apart;
  }
