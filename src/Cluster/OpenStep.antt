-- ===== src/Cluster/OpenStep.antt =====
-- An open of a tracked file through the wrapper, beside the open of the table.
use hvac_arc.Base.{
  ◌≡◌, ◌≢◌, refl, ap, ℤ, minus_one, int_ord, true, none, some, [], if◌then◌else◌, bytes_ord,
  state_of, returns,
}
use hvac_arc.OrderedMap.{lookup, insert}
use hvac_arc.Host.{Host, open_in, replied}
use hvac_arc.Server.{Kernel, Server, serve, redirect}
use hvac_arc.Server.Cache.{StaticFiles}
use hvac_arc.Server.OpenFiles.{OpenFiles}
use hvac_arc.Server.Streams.{Transfers}
use hvac_arc.Client.{tracked_path}
use hvac_arc.Client.Redirect.{Knows}
use hvac_arc.Wrappers.{Process, creates, note_call, wrap_open}
use hvac_arc.Wrappers.Passing.{after_clock}
use hvac_arc.Wrappers.Opening.{wrap_open_tracked}
use hvac_arc.Cluster.{Nodes, cluster}
use hvac_arc.Cluster.OpenTable.{Opening, Table}
use hvac_arc.Cluster.Agreement.{Agrees, answered, deliver_answered}

module _ (local : Host) (k : Kernel) (files : StaticFiles k) (o : OpenFiles k files) where
  abbrev pub machines : Host
  machines = cluster local k

  -- The kernel opens the file, under a descriptor that is not in use; the file is tracked, its server
  -- known and running, and the file is there.
  pub record CanOpen (op : Opening) (t : Table) (q : Process machines.World) : Type 0 where
    pub knows : Knows machines q.client op.full op.address
    pub runs : q.client.world.up op.address ≡ true
    pub there : files.content op.full (q.client.world.servers op.address).world ≡ some op.contents
    pub own : local.World
    pub opens :
        local.real_open op.path op.flags
          (if creates op.flags then op.mode else 0)
          (local.clock q.client.world.local).1
        ≡ (op.fd, own)
    pub good : op.fd ≢ minus_one
    pub fresh : lookup op.fd t ≡ none
    pub decided :
        tracked_path machines
          (record q.client { world = record q.client.world { local = own } })
          op.path
          op.flags
        ≡ some op.full

  module _ (able : Transfers k) (t : Table) (q : Process machines.World)
      (a : Agrees local k files o t q) (op : Opening) (can : CanOpen op t q) where
    abbrev pub server : Server k.World
    server = q.client.world.servers op.address

    abbrev pub far : ℤ
    far = (k.open_ro (redirect op.full server.path_cache_map) server.world).0

    abbrev pub opened_server : Server k.World
    opened_server = state_of (serve k (open_in op.full) server)

    abbrev asked : Nodes local.World k.World
    asked =
        answered local k files o op.address opened_server
          (record q.client.world { local = can.own })

    abbrev pub after : Process machines.World
    after = record q {
      client = record q.client {
        world = after_clock machines q asked;
        fd_map = insert op.fd op.full q.client.fd_map;
        fd_redir_map = insert op.fd far q.client.fd_redir_map;
        done = 1;
        pending = [];
      };
      open_stats =
          note_call (machines.clock q.client.world).0 (machines.clock asked).0 q.open_stats;
    }

    pub opened : wrap_open machines op.path op.flags op.mode q ≡ returns op.fd after
    opened =
        wrap_open_tracked machines q (rw (a.on, a.quiet) refl) op.path op.flags op.mode op.fd
          (record q.client.world { local = can.own }) can.good (ap (λ m. m.open_fn) a.mapped)
          (rw can.opens refl) op.full op.address far [] asked can.knows can.decided a.started
          (deliver_answered local k files o op.address (open_in op.full) (replied far [])
            opened_server (record q.client.world { local = can.own }) can.runs
            (unfold serve in refl))
