-- ===== src/Cluster/CloseStep.antt =====
-- A close of an open file through the wrapper, beside the close of the table.
use hvac_arc.Base.{
  ◌≡◌, ◌≢◌, refl, sym, ap, subst, ◌∙◌, inl, inr, ℤ, pos, int_ord, eqz-cases, false, some, Bytes,
  bytes_ord, state_of, returns, arith,
}
use hvac_arc.OrderedMap.{lookup, erase, lookup-erase_self, lookup-erase_ne}
use hvac_arc.Host.{Host, close_in, silent}
use hvac_arc.Server.{Kernel, Server, requested, happen, serve}
use hvac_arc.Server.Cache.{StaticFiles, happen-CacheOk}
use hvac_arc.Server.OpenFiles.{OpenFiles, HasLeft, serve-HasLeft}
use hvac_arc.Server.Survival.{Posix}
use hvac_arc.Wrappers.{Process, note_call, wrap_close}
use hvac_arc.Wrappers.Passing.{after_clock}
use hvac_arc.Wrappers.Tracked.{wrap_close_tracked}
use hvac_arc.Cluster.{Nodes, cluster}
use hvac_arc.Cluster.OpenTable.{Table}
use hvac_arc.Cluster.Agreement.{
  Agrees, Holds, Serves, answered, answered-CacheOk, Holds-answered, deliver_answered,
}

module _ (local : Host) (k : Kernel) (files : StaticFiles k) (o : OpenFiles k files)
    (posix : Posix k files o) where
  abbrev machines : Host
  machines = cluster local k

  module _ (t : Table) (q : Process machines.World) (a : Agrees local k files o t q) (fd : ℤ)
      (rest : Bytes) (listed : lookup fd t ≡ some rest)
      (closes : (m : local.World) → (local.real_close fd m).0 ≡ pos 0) where
    abbrev holds : Holds local k files o q fd rest
    holds = a.held fd rest listed

    abbrev server : Server k.World
    server = q.client.world.servers holds.address

    abbrev closed_server : Server k.World
    closed_server = state_of (serve k (close_in holds.far) server)

    serve_close : serve k (close_in holds.far) server ≡ returns silent closed_server
    unfolding serve
    serve_close = ground (arith, posix.close_own holds.far rest server.world holds.left)

    abbrev asked : Nodes local.World k.World
    asked =
        answered local k files o holds.address closed_server (after_clock machines q q.client.world)

    abbrev closed_world : Nodes local.World k.World
    closed_world = (machines.real_close fd asked).1

    abbrev pub after : Process machines.World
    after = record q {
      client = record q.client {
        world = after_clock machines q closed_world;
        fd_map = erase fd q.client.fd_map;
        fd_redir_map = erase fd q.client.fd_redir_map;
      };
      tl_disable_redirect = false;
      close_stats =
          note_call (machines.clock q.client.world).0 (machines.clock closed_world).0 q.close_stats;
    }

    delivered :
        machines.deliver holds.address (close_in holds.far) (after_clock machines q q.client.world)
        ≡ (silent, asked)
    delivered =
        deliver_answered local k files o holds.address (close_in holds.far) silent closed_server
          (after_clock machines q q.client.world) holds.runs serve_close

    pub closed : wrap_close machines fd q ≡ returns (pos 0) after
    closed =
        wrap_close_tracked machines q fd holds.serves.full holds.address holds.serves.knows
          holds.far holds.serves.tracks closed_world (ap (λ m. m.close_fn) a.mapped)
          (rw (a.on, a.quiet) refl)
          (rw delivered (ap (λ r. (r, closed_world)) (closes asked.local)))

    served_before :
        (g gar : ℤ) (at : Bytes)
        → g ≢ fd
        → Serves local k files o after g at gar
        → Serves local k files o q g at gar
    served_before g gar at apart s = record {
      full = s.full;
      tracks = record {
        local = sym (lookup-erase_ne g fd q.client.fd_map apart) ∙ s.tracks.local;
        redirected = sym (lookup-erase_ne g fd q.client.fd_redir_map apart) ∙ s.tracks.redirected;
      };
      knows = record {
        some_server = s.knows.some_server;
        posted = s.knows.posted;
        quiet = s.knows.quiet;
      };
    }

    served_still :
        (g gar : ℤ) (at : Bytes)
        → g ≢ fd
        → Serves local k files o q g at gar
        → Serves local k files o after g at gar
    served_still g gar at apart s = record {
      full = s.full;
      tracks = record {
        local = lookup-erase_ne g fd q.client.fd_map apart ∙ s.tracks.local;
        redirected = lookup-erase_ne g fd q.client.fd_redir_map apart ∙ s.tracks.redirected;
      };
      knows = record {
        some_server = s.knows.some_server;
        posted = s.knows.posted;
        quiet = s.knows.quiet;
      };
    }

    -- What the table lists afterwards it listed before, under another descriptor.
    listed_before :
        (g : ℤ) (other : Bytes)
        → lookup g (erase fd t) ≡ some other
        → (g ≢ fd) × (lookup g t ≡ some other)
    listed_before g other found = elim (eqz-cases g fd) [
      | inl e ↦
          absurd (ground (arith, found, lookup-erase_self fd t, ap (λ x. lookup x (erase fd t)) e))
      | inr n ↦ (n, sym (lookup-erase_ne g fd t n) ∙ found)
    ]

    held_after :
        (g : ℤ) (other : Bytes)
        → lookup g (erase fd t) ≡ some other
        → Holds local k files o after g other
    held_after g other found =
        let (apart, before) = listed_before g other found in
        let h = a.held g other before in
        Holds-answered local k files o q after g other holds.address closed_server h refl refl
          (served_still g h.far h.address apart h.serves)
          λ here.
            serve-HasLeft k files o h.far other (close_in holds.far) server
              (λ same. apart (
                a.apart g fd holds.far other rest holds.address before listed
                  (rw (here, sym same) h.serves) holds.serves))
              (subst (λ at. HasLeft k files o h.far other (q.client.world.servers at)) (sym here)
                h.left)

    pub closes-Agrees : Agrees local k files o (erase fd t) after
    closes-Agrees = record {
      mapped = a.mapped;
      on = a.on;
      quiet = refl;
      started = a.started;
      old = a.old;
      buffered = a.buffered;
      cached =
          answered-CacheOk local k files o holds.address closed_server q.client.world
            (unfold happen in
              happen-CacheOk k files (requested (close_in holds.far)) server
                (a.cached holds.address holds.runs))
            a.cached;
      held = held_after;
      apart = λ g gd gar r r' at found found' s s'.
          let (n, before) = listed_before g r found in
          let (n', before') = listed_before gd r' found' in
          a.apart g gd gar r r' at before before' (served_before g gar at n s)
            (served_before gd gar at n' s');
    }
