-- ===== src/Cluster/Agreement.antt =====
-- When a process over its servers agrees with a table of open files.
use hvac_arc.Base.{
  ◌≡◌, refl, sym, ap, ◌∙◌, inl, inr, ℤ, int_ord, true, false, some, [], Bytes, bytes_ord, ◌==◌,
  Bool-cases, returns, arith,
}
use hvac_arc.OrderedMap.{lookup}
use hvac_arc.Host.{Host, Request, Delivery}
use hvac_arc.Server.{Kernel, Server, happen_all, serve}
use hvac_arc.Server.Cache.{StaticFiles, CacheOk, happen_all-CacheOk}
use hvac_arc.Server.OpenFiles.{OpenFiles, AllAvoid, HasLeft, happen_all-HasLeft}
use hvac_arc.Client.Redirect.{Knows, IsTracked, rank_of}
use hvac_arc.Wrappers.{all_mapped, Process}
use hvac_arc.Cluster.{Nodes, set_server, deliver_to, cluster}
use hvac_arc.Cluster.OpenTable.{Table, Between}

module _ (local : Host) (k : Kernel) (files : StaticFiles k) (o : OpenFiles k files) where
  abbrev pub machines : Host
  machines = cluster local k

  -- The descriptor is served by this descriptor of the server.
  pub record Serves (q : Process machines.World) (fd : ℤ) (address : Bytes) (far : ℤ) : Type 0 where
    pub full : Bytes
    pub tracks : IsTracked machines q.client fd full far
    pub knows : Knows machines q.client full address

  -- That depends on the tables alone, and on no answer being left over.
  pub Serves-same :
      (q q' : Process machines.World) (fd far : ℤ) (address : Bytes)
      → q'.client.fd_map ≡ q.client.fd_map
      → q'.client.fd_redir_map ≡ q.client.fd_redir_map
      → q'.client.address_cache ≡ q.client.address_cache
      → q'.client.server_count ≡ q.client.server_count
      → q'.client.pending ≡ []
      → Serves q fd address far
      → Serves q' fd address far
  Serves-same q q' fd far address paths redirs cache count none_left s = record {
    full = s.full;
    tracks = record { local = rw paths s.tracks.local; redirected = rw redirs s.tracks.redirected };
    knows = record {
      some_server = rw count s.knows.some_server;
      posted = rw (cache, count) s.knows.posted;
      quiet = none_left;
    };
  }

  -- A descriptor is served by one descriptor of one server.
  pub Serves-unique :
      (q : Process machines.World) (fd far far' : ℤ) (address address' : Bytes)
      → Serves q fd address far
      → Serves q fd address' far'
      → (address ≡ address') × (far ≡ far')
  Serves-unique q fd far far' address address' s s' =
      let same : s.full ≡ s'.full = ground (arith, s.tracks, s'.tracks) in
      let posted : some address ≡ some address' =
        sym s.knows.posted
        ∙ ap (λ full. lookup (rank_of machines q.client full) q.client.address_cache) same
        ∙ s'.knows.posted in
      (ground (arith, posted), ground (arith, s.tracks, s'.tracks))

  -- Its server runs, and has these bytes before it.
  pub record Holds (q : Process machines.World) (fd : ℤ) (rest : Bytes) : Type 0 where
    pub address : Bytes
    pub far : ℤ
    pub serves : Serves q fd address far
    pub runs : q.client.world.up address ≡ true
    pub left : HasLeft k files o far rest (q.client.world.servers address)

  -- Each file of the table is held, no two by one descriptor of a server, and the redirections of each
  -- running server lead to copies.
  pub record Agrees (t : Table) (q : Process machines.World) : Type 0 where
    pub mapped : q.mapped ≡ all_mapped
    pub on : q.client.disable_redirect ≡ false
    pub quiet : q.tl_disable_redirect ≡ false
    pub started : q.client.mercury_init ≡ true
    pub old : Bytes
    pub buffered : q.client.buffer ≡ some old
    pub cached :
        (a : Bytes) → q.client.world.up a ≡ true → CacheOk k files (q.client.world.servers a)
    pub held : (fd : ℤ) (rest : Bytes) → lookup fd t ≡ some rest → Holds q fd rest
    pub apart :
        (fd gd far : ℤ) (rest other address : Bytes)
        → lookup fd t ≡ some rest
        → lookup gd t ≡ some other
        → Serves q fd address far
        → Serves q gd address far
        → fd ≡ gd

  -- One server after an answered request.
  module _ (address : Bytes) (s : Server k.World) (w : Nodes local.World k.World) where
    abbrev pub answered : Nodes local.World k.World
    answered = set_server address s true w

    pub answered-up : (a : Bytes) → w.up a ≡ true → answered.up a ≡ true
    answered-up a runs = ground arith

    pub answered-HasLeft :
        (far : ℤ) (rest a : Bytes)
        → (address ≡ a → HasLeft k files o far rest s)
        → HasLeft k files o far rest (w.servers a)
        → HasLeft k files o far rest (answered.servers a)
    answered-HasLeft far rest a here there = elim (Bool-cases (address == a)) [
      | inl same ↦ rw same (here ((bytes_ord.eq_iff address a).0 same))
      | inr other ↦ rw other there
    ]

    pub answered-CacheOk :
        CacheOk k files s
        → ((a : Bytes) → w.up a ≡ true → CacheOk k files (w.servers a))
        → (a : Bytes) → answered.up a ≡ true
        → CacheOk k files (answered.servers a)
    answered-CacheOk here there a runs = elim (Bool-cases (address == a)) [
      | inl same ↦ rw same here
      | inr other ↦ rw other (there a (ground arith))
    ]

  -- A file that is held stays so while a server answers a request that leaves it what it has.
  pub Holds-answered :
      (q q' : Process machines.World) (fd : ℤ) (rest address : Bytes) (s : Server k.World)
      (h : Holds q fd rest)
      → q'.client.world.up ≡ (answered address s q.client.world).up
      → q'.client.world.servers ≡ (answered address s q.client.world).servers
      → Serves q' fd h.address h.far
      → (address ≡ h.address → HasLeft k files o h.far rest s)
      → Holds q' fd rest
  Holds-answered q q' fd rest address s h ups servers serves here = record {
    address = h.address;
    far = h.far;
    serves = serves;
    runs = rw ups (answered-up address s q.client.world h.address h.runs);
    left = rw servers (answered-HasLeft address s q.client.world h.far rest h.address here h.left);
  }

  pub deliver_answered :
      (address : Bytes) (r : Request) (d : Delivery) (s : Server k.World)
      (w : Nodes local.World k.World)
      → w.up address ≡ true
      → serve k r (w.servers address) ≡ returns d s
      → deliver_to k address r w ≡ (d, answered address s w)
  unfolding deliver_to
  deliver_answered address r d s w runs served = rw (runs, served) refl

  -- What others do between two calls.
  abbrev pub others : Between local.World → Process machines.World → Process machines.World
  others b q = record q {
    client = record q.client {
      world = record q.client.world {
        local = b.local;
        servers = λ a. happen_all k (b.events a) (q.client.world.servers a);
      };
    };
  }

  -- None of it reads, seeks or closes a descriptor that serves this process.
  abbrev pub LeavesAlone : Between local.World → Process machines.World → Type 0
  LeavesAlone b q =
      (fd far : ℤ) (address : Bytes) → Serves q fd address far → AllAvoid far (b.events address)

  pub others-Agrees :
      (b : Between local.World) (t : Table) (q : Process machines.World)
      → LeavesAlone b q
      → Agrees t q
      → Agrees t (others b q)
  others-Agrees b t q alone a = record {
    mapped = a.mapped;
    on = a.on;
    quiet = a.quiet;
    started = a.started;
    old = a.old;
    buffered = a.buffered;
    cached = λ at runs.
        happen_all-CacheOk k files (b.events at) (q.client.world.servers at) (a.cached at runs);
    held = λ fd rest listed.
        let h = a.held fd rest listed in
        record {
          address = h.address;
          far = h.far;
          serves =
              Serves-same q (others b q) fd h.far h.address refl refl refl refl h.serves.knows.quiet
                h.serves;
          runs = h.runs;
          left =
              happen_all-HasLeft k files o h.far rest (b.events h.address)
                (q.client.world.servers h.address) (alone fd h.far h.address h.serves) h.left;
        };
    apart = λ fd gd far rest other address opened opened_too s s'.
        a.apart fd gd far rest other address opened opened_too
          (Serves-same (others b q) q fd far address refl refl refl refl s.knows.quiet s)
          (Serves-same (others b q) q gd far address refl refl refl refl s'.knows.quiet s');
  }
