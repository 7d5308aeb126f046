-- ===== src/Cluster/Positioned.antt =====
-- An application that reads a file at an offset, through the wrappers.
use hvac_arc.Base.{
  ℕ, ◌^◌, ◌<◌, ◌≡◌, ◌≢◌, ◌||◌, refl, ap, ℤ, pos, minus_one, int_ord, int32, int32_small, true,
  false, some, [], if◌then◌else◌, Bytes, bytes_ord, length, take, drop, length-take-le, returns,
  ◌>>=◌, arith,
}
use hvac_arc.OrderedMap.{eq_refl}
use hvac_arc.Host.{Host, read_in, replied}
use hvac_arc.Server.{Kernel, Server, serve}
use hvac_arc.Server.Cache.{StaticFiles, CacheOk}
use hvac_arc.Client.{tracked_path}
use hvac_arc.Client.Redirect.{Knows}
use hvac_arc.Wrappers.{all_mapped, Process, note_call, creates, wrap_open, wrap_pread}
use hvac_arc.Wrappers.Passing.{after_clock}
use hvac_arc.Wrappers.Tracked.{wrap_pread_tracked}
use hvac_arc.Cluster.{Nodes, set_server, deliver_to, cluster}
use hvac_arc.Cluster.Reading.{Readable, remote, chosen, same, opened_server}
use hvac_arc.Cluster.Running.{opened_process, opened, knows, tracks}

-- Descriptors of opened files are positive, and a `pread` on one gives the file's bytes from the offset.
pub record Positioned (k : Kernel) (files : StaticFiles k) (able : Readable k files) : Type 0 where
  pub positive : (path : Bytes) (w : k.World) → 0 < able.descriptor path w
  pub rest_at : Bytes → ℕ → ℕ → k.World → k.World
  pub preads :
      (path contents : Bytes) (n o : ℕ) (w : k.World)
      → files.content path w ≡ some contents
      → k.pread (pos (able.descriptor path w)) n (pos o) (k.open_ro path w).1
        ≡ (pos (length (take n (drop o contents))), take n (drop o contents), rest_at path n o w)

module _ (k : Kernel) (files : StaticFiles k) (able : Readable k files)
    (at_offset : Positioned k files able) (s : Server k.World) (full contents : Bytes)
    (ok : CacheOk k files s) (there : files.content full s.world ≡ some contents) (n o : ℕ)
    (small : n < 2 ^ 31) where
  -- The bytes from the offset.
  abbrev pub part : Bytes
  part = take n (drop o contents)

  abbrev far : ℤ
  far = remote k files able s full contents ok there

  abbrev before : Server k.World
  before = opened_server k files able s full contents ok there

  abbrev path_there : Bytes
  path_there = chosen k files able s full contents ok there

  abbrev after : Server k.World
  after = record before { world = at_offset.rest_at path_there n o s.world }

  serve_pread :
      serve k (read_in (pos n) far (pos o)) before
      ≡ returns (replied (pos (length part)) part) after
  unfolding serve
  serve_pread = ground (
    arith,
    at_offset.preads path_there contents n o s.world (same k files able s full contents ok there),
    able.registers n,
    able.transfers (length part) n (length-take-le n (drop o contents)),
    int32_small (length part),
    length-take-le n (drop o contents),
  )

  deliver_pread :
      (address : Bytes) {L : Type 0} (w : Nodes L k.World)
      → w.up address ≡ true
      → w.servers address ≡ before
      → deliver_to k address (read_in (pos n) far (pos o)) w
        ≡ (replied (pos (length part)) part, set_server address after true w)
  unfolding deliver_to
  deliver_pread address w runs at = rw (runs, at, serve_pread) refl

  module _ (local : Host) (address : Bytes) (p : Process (cluster local k).World) (path : Bytes)
      (flags mode : ℕ) (fd : ℤ) (l : local.World)
      (known : Knows (cluster local k) p.client full address)
      (on : (p.client.disable_redirect || p.tl_disable_redirect) ≡ false) (good : fd ≢ minus_one)
      (mapped : p.mapped ≡ all_mapped)
      (opens : local.real_open path flags
          (if creates flags then mode else 0)
          (local.clock p.client.world.local).1
        ≡ (fd, l))
      (started : p.client.mercury_init ≡ true) (runs : p.client.world.up address ≡ true)
      (at : p.client.world.servers address ≡ s) (old : Bytes)
      (buf : p.client.buffer ≡ some old) where
    -- The process once the file is open.
    abbrev open_process : Process (cluster local k).World
    open_process =
        opened_process k files able s full contents ok there local address p path flags mode fd l
          known on good mapped opens started runs at

    abbrev at_read : Nodes local.World k.World
    at_read = after_clock (cluster local k) p open_process.client.world

    abbrev asked_read : Nodes local.World k.World
    asked_read = set_server address after true at_read

    asked :
        deliver_to k address (read_in (int32 (pos n)) far (pos o)) at_read
        ≡ (replied (pos (length part)) part, asked_read)
    asked =
        rw (int32_small n (ground (arith, small)))
          (deliver_pread address at_read (rw (eq_refl address) refl) (rw (eq_refl address) refl))

    -- The process once the file is read.
    abbrev read_process : Process (cluster local k).World
    read_process = record open_process {
      client = record open_process.client {
        world = after_clock (cluster local k) p asked_read;
        done = 1;
        read_ret = pos (length part);
        buffer = some part;
        pending = [];
      };
      tl_disable_redirect = false;
      pread_stats =
          note_call ((cluster local k).clock open_process.client.world).0
            ((cluster local k).clock asked_read).0 p.pread_stats;
    }

    -- A program, its real functions found, runs with redirection on, on a client that knows a running
    -- server, whatever that has served before, and whose descriptors are positive. It opens a tracked
    -- file, and reads `n` bytes, fewer than 2 ^ 31, at the offset `o` with `pread`, through the
    -- wrappers. Then it gets the bytes of the file from the offset on, `n` of them or as many as there
    -- are, and their number.
    pub program_preads :
        tracked_path
            (cluster local k)
            (record p.client { world = record p.client.world { local = l } })
            path
            flags
          ≡ some full
        → (q : Process (cluster local k).World) × ((do
          d ← wrap_open (cluster local k) path flags mode
          wrap_pread (cluster local k) d n (pos o))
              p
            ≡ returns (pos (length part)) q)
          × (q.client.buffer ≡ some part)
    program_preads decided =
        let first =
          opened k files able s full contents ok there local address p path flags mode fd l known on
            good mapped opens started runs at decided in
        let far_positive = at_offset.positive path_there s.world in
        let second =
          wrap_pread_tracked (cluster local k) open_process fd full address
            (knows k files able s full contents ok there local address p path flags mode fd l known
              on good mapped opens started runs at)
            far
            (tracks k files able s full contents ok there local address p path flags mode fd l known
              on good mapped opens started runs at)
            n (pos o) (pos (length part)) old part asked_read (ap (λ m. m.pread_fn) mapped)
            (λ e. ground (arith, e, far_positive)) buf asked (λ e. ground (arith, e)) in
        (read_process, ground (arith, first, second), refl)
