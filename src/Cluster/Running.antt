-- ===== src/Cluster/Running.antt =====
-- An application that reads a file through the wrappers.
use hvac_arc.Base.{
  ℕ, ◌^◌, ◌<◌, ◌≡◌, ◌≢◌, ◌||◌, refl, ap, ◌∙◌, ℤ, pos, minus_one, int_ord, int32, int32_small, true,
  false, some, [], if◌then◌else◌, Bytes, length, take, length-take-le, returns, pure, ◌>>=◌, arith,
}
use hvac_arc.OrderedMap.{insert, erase, eq_refl, lookup-insert_self}
use hvac_arc.Host.{Host, read_in, close_in, replied}
use hvac_arc.Server.{Kernel, Server}
use hvac_arc.Server.Cache.{StaticFiles, CacheOk}
use hvac_arc.Client.{tracked_path}
use hvac_arc.Client.Redirect.{Knows, IsTracked}
use hvac_arc.Wrappers.{all_mapped, Process, note_call, creates, wrap_open, wrap_read, wrap_close}
use hvac_arc.Wrappers.Passing.{after_clock}
use hvac_arc.Wrappers.Tracked.{wrap_read_tracked, wrap_close_tracked}
use hvac_arc.Wrappers.Opening.{wrap_open_tracked}
use hvac_arc.Cluster.{Nodes, set_server, deliver_to, cluster}
use hvac_arc.Cluster.Reading.{
  Readable, remote, opened_server, read_server, deliver_open, deliver_read,
}

module _ (k : Kernel) (files : StaticFiles k) (able : Readable k files) (s : Server k.World)
    (full contents : Bytes) (ok : CacheOk k files s)
    (there : files.content full s.world ≡ some contents) (local : Host) (address : Bytes) where
  abbrev pub machines : Host
  machines = cluster local k

  module _ (p : Process machines.World) (path : Bytes) (flags mode : ℕ) (fd : ℤ) (l : local.World)
      (known : Knows machines p.client full address)
      (on : (p.client.disable_redirect || p.tl_disable_redirect) ≡ false) (good : fd ≢ minus_one)
      (mapped : p.mapped ≡ all_mapped)
      (opens : local.real_open path flags
          (if creates flags then mode else 0)
          (local.clock p.client.world.local).1
        ≡ (fd, l))
      (started : p.client.mercury_init ≡ true) (runs : p.client.world.up address ≡ true)
      (at : p.client.world.servers address ≡ s) where
    abbrev pub far : ℤ
    far = remote k files able s full contents ok there

    abbrev pub at_open : Nodes local.World k.World
    at_open = record p.client.world { local = l }

    abbrev pub asked_open : Nodes local.World k.World
    asked_open =
        set_server address (opened_server k files able s full contents ok there) true at_open

    -- The process once the file is open.
    abbrev pub opened_process : Process machines.World
    opened_process = record p {
      client = record p.client {
        world = after_clock machines p asked_open;
        fd_map = insert fd full p.client.fd_map;
        fd_redir_map = insert fd far p.client.fd_redir_map;
        done = 1;
        pending = [];
      };
      open_stats =
          note_call (machines.clock p.client.world).0 (machines.clock asked_open).0 p.open_stats;
    }

    pub opened :
        tracked_path machines (record p.client { world = at_open }) path flags ≡ some full
        → wrap_open machines path flags mode p ≡ returns fd opened_process
    opened decided =
        wrap_open_tracked machines p on path flags mode fd at_open good (ap (λ m. m.open_fn) mapped)
          (ap (λ (a : ℤ × local.World). (a.0, record p.client.world { local = a.1 })) opens) full
          address far [] asked_open known decided started
          (deliver_open k files able s full contents ok there address at_open runs at)

    pub knows : Knows machines opened_process.client full address
    knows = record { some_server = known.some_server; posted = known.posted; quiet = refl }

    pub tracks : IsTracked machines opened_process.client fd full far
    tracks = record {
      local = lookup-insert_self fd full p.client.fd_map;
      redirected = lookup-insert_self fd far p.client.fd_redir_map;
    }

    module _ (n : ℕ) (small : n < 2 ^ 31) (old : Bytes) (buf : p.client.buffer ≡ some old) where
      abbrev at_read : Nodes local.World k.World
      at_read = after_clock machines p opened_process.client.world

      abbrev asked_read : Nodes local.World k.World
      asked_read =
          set_server address (read_server k files able s full contents ok there n) true at_read

      abbrev got : ℤ
      got = pos (length (take n contents))

      -- The process once the file is read.
      abbrev read_process : Process machines.World
      read_process = record opened_process {
        client = record opened_process.client {
          world = after_clock machines p asked_read;
          done = 1;
          read_ret = got;
          buffer = some (take n contents);
          pending = [];
        };
        read_stats =
            note_call (machines.clock opened_process.client.world).0 (machines.clock asked_read).0
              p.read_stats;
      }

      same : int32 got ≡ got
      same =
          int32_small (length (take n contents)) (ground (arith, small, length-take-le n contents))

      asked :
          deliver_to k address (read_in (int32 (pos n)) far minus_one) at_read
          ≡ (replied got (take n contents), asked_read)
      asked = rw (int32_small n (ground (arith, small))) (
          deliver_read k files able s full contents ok there address at_read n small
            (rw (eq_refl address) refl) (rw (eq_refl address) refl))

      reads : wrap_read machines fd n opened_process ≡ returns got read_process
      reads =
          wrap_read_tracked machines opened_process fd full address knows far tracks n got old
            (take n contents) asked_read (ap (λ m. m.read_fn) mapped) buf asked
            (λ e. ground (arith, same, e))
          ∙ ap (λ z. returns z read_process) same

      Knows-still : Knows machines read_process.client full address
      Knows-still = record { some_server = known.some_server; posted = known.posted; quiet = refl }

      IsTracked-still : IsTracked machines read_process.client fd full far
      IsTracked-still = record { local = tracks.local; redirected = tracks.redirected }

      -- The world in which the local descriptor is closed.
      abbrev closing : Nodes local.World k.World
      closing =
          (deliver_to k address (close_in far)
            (after_clock machines read_process read_process.client.world)).1

      abbrev closed_world : Nodes local.World k.World
      closed_world = (machines.real_close fd closing).1

      -- The process once the file is closed.
      abbrev closed_process : Process machines.World
      closed_process = record read_process {
        client = record read_process.client {
          world = after_clock machines read_process closed_world;
          fd_map = erase fd read_process.client.fd_map;
          fd_redir_map = erase fd read_process.client.fd_redir_map;
        };
        tl_disable_redirect = false;
        close_stats =
            note_call (machines.clock read_process.client.world).0 (machines.clock closed_world).0
              p.close_stats;
      }

      closed :
          ((m : local.World) → (local.real_close fd m).0 ≡ pos 0)
          → wrap_close machines fd read_process ≡ returns (pos 0) closed_process
      closed closes =
          wrap_close_tracked machines read_process fd full address Knows-still far IsTracked-still
            closed_world (ap (λ m. m.close_fn) mapped) on
            (ap (λ a. (a, closed_world)) (closes closing.local))

      -- A program, its real functions found, runs with redirection on, on a client that knows a
      -- running server, whatever that has served before. It opens a tracked file, reads `n` bytes,
      -- fewer than 2 ^ 31, and closes it, through the wrappers, and the kernel opens and closes the
      -- local descriptor. Then it gets the first `n` bytes of the file, or all of it if it is
      -- shorter, and their number.
      pub program_reads :
          tracked_path machines (record p.client { world = at_open }) path flags ≡ some full
          → ((m : local.World) → (local.real_close fd m).0 ≡ pos 0)
          → (q : Process machines.World) × ((do
            d ← wrap_open machines path flags mode
            r ← wrap_read machines d n
            _ ← wrap_close machines d
            pure r)
                p
              ≡ returns (pos (length (take n contents))) q)
            × (q.client.buffer ≡ some (take n contents))
      program_reads decided closes =
          (closed_process, ground (arith, opened decided, reads, closed closes), refl)
