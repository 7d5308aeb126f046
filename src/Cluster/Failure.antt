-- ===== src/Cluster/Failure.antt =====
-- What the end of a server does to its clients.
use hvac_arc.Base.{
  ℕ, ◌^◌, ◌≤◌, ◌<◌, ◌≡◌, ◌≢◌, ◌||◌, refl, ap, ◌∙◌, ℤ, pos, minus_one, int_ord, int32, true, false,
  some, if◌then◌else◌, Bytes, bytes_ord, stops, aborts, state_of, Stop, Outcome,
}
use hvac_arc.OrderedMap.{eq_refl}
use hvac_arc.Host.{Host, Request, read_in, failed}
use hvac_arc.Server.{Kernel, Server, serve}
use hvac_arc.Server.Crashes.{large_read_aborts}
use hvac_arc.Client.{tracked_path}
use hvac_arc.Client.Redirect.{Knows, IsTracked}
use hvac_arc.Wrappers.{all_mapped, Process, creates, wrap_open, wrap_read, wrap_pread}
use hvac_arc.Wrappers.Passing.{after_clock}
use hvac_arc.Wrappers.Stranded.{wrap_read-stranded, wrap_pread-stranded, wrap_open-stranded}
use hvac_arc.Cluster.{Nodes, set_server, deliver_to, cluster}

-- The call ends the process, by a failed assertion.
abbrev pub Aborts : {W A : Type 0} → Outcome (Process W) A → Type 0
Aborts {W} o = (u : Process W) × (o ≡ stops aborts u)

module _ (local : Host) (k : Kernel) (address : Bytes) where
  abbrev pub machines : Host
  machines = cluster local k

  deliver_down :
      (r : Request) (w : Nodes local.World k.World)
      → w.up address ≡ false
      → deliver_to k address r w ≡ (failed, w)
  unfolding deliver_to
  deliver_down r w down = rw down refl

  deliver_crash :
      (r : Request) (e : Stop) (s : Server k.World) (w : Nodes local.World k.World)
      → w.up address ≡ true
      → serve k r (w.servers address) ≡ stops e s
      → deliver_to k address r w ≡ (failed, set_server address s false w)
  unfolding deliver_to
  deliver_crash r e s w runs crash = rw (runs, crash) refl

  -- A client with redirection on that runs against a server that has ended, so that Mercury reports
  -- its requests as failed, knows the server's address and has its real functions found aborts in its next `read` of a file that it has open
  -- there, in its next `pread` of such a file whose descriptor at the server is not 0, and, with
  -- Mercury started, in its next `open` of a tracked file that hashes to this server.
  pub dead_server-Aborts :
      (q : Process machines.World) (fd remote : ℤ) (full old : Bytes) (n : ℕ) (offset : ℤ)
      (path to_open : Bytes) (flags mode : ℕ) (new : ℤ) (l : local.World)
      → q.client.world.up address ≡ false
      → q.mapped ≡ all_mapped
      → (q.client.disable_redirect || q.tl_disable_redirect) ≡ false
      → q.client.mercury_init ≡ true
      → q.client.buffer ≡ some old
      → Knows machines q.client full address
      → IsTracked machines q.client fd full remote
      → remote ≢ pos 0
      → Knows machines q.client to_open address
      → new ≢ minus_one
      → local.real_open path flags
          (if creates flags then mode else 0)
          (local.clock q.client.world.local).1
        ≡ (new, l)
      → tracked_path machines
          (record q.client { world = record q.client.world { local = l } })
          path
          flags
        ≡ some to_open
      → Aborts (wrap_read machines fd n q)
        × Aborts (wrap_pread machines fd n offset q)
        × Aborts (wrap_open machines path flags mode q)
  dead_server-Aborts q fd remote full old n offset path to_open flags mode new l down mapped on
        started buf known t other known_too good opens decided =
      let w = after_clock machines q q.client.world in
      (
        (
          _,
          wrap_read-stranded machines q fd full address known remote t n old buf w
              (ap (λ m. m.read_fn) mapped) (deliver_down _ _ down),
        ),
        (
          _,
          wrap_pread-stranded machines q fd full address known remote t n old buf w offset
              (ap (λ m. m.pread_fn) mapped) other (deliver_down _ _ down),
        ),
        (
          _,
          wrap_open-stranded machines q new to_open address known_too path flags mode _ _ on
              (ap (λ m. m.open_fn) mapped) started good (rw opens refl) decided
              (deliver_down _ _ down),
        ),
      )

  -- A client that knows a running server, has a file open there and reads at least 2 and less than 4
  -- GiB of it aborts, as the server ends over the request and Mercury reports it as failed; and a
  -- client that then runs against the servers as this leaves them, and has a file open at this
  -- server, aborts at its next `read`, of any count. The real functions of both are found.
  pub large_read-Aborts :
      (p q : Process machines.World) (fd remote : ℤ) (full old : Bytes) (n : ℕ)
      (its_fd its_remote : ℤ) (its_full its_old : Bytes) (m : ℕ)
      → 2 ^ 31 ≤ n
      → n < 2 ^ 32
      → p.client.world.up address ≡ true
      → p.mapped ≡ all_mapped
      → p.client.buffer ≡ some old
      → Knows machines p.client full address
      → IsTracked machines p.client fd full remote
      → q.client.world.up ≡ (state_of (wrap_read machines fd n p)).client.world.up
      → q.mapped ≡ all_mapped
      → q.client.buffer ≡ some its_old
      → Knows machines q.client its_full address
      → IsTracked machines q.client its_fd its_full its_remote
      → Aborts (wrap_read machines fd n p) × Aborts (wrap_read machines its_fd m q)
  large_read-Aborts p q fd remote full old n its_fd its_remote its_full its_old m lo hi runs mapped
        buf known t after its_mapped its_buf its_known its_t =
      let s = p.client.world.servers address in
      let aborted =
        wrap_read-stranded machines p fd full address known remote t n old buf _
          (ap (λ m. m.read_fn) mapped)
          (deliver_crash (read_in (int32 (pos n)) remote minus_one) aborts s
            (after_clock machines p p.client.world) runs
            (large_read_aborts k s n remote minus_one lo hi)) in
      (
        (_, aborted),
        (
          _,
          wrap_read-stranded machines q its_fd its_full address its_known its_remote its_t m its_old
              its_buf (after_clock machines q q.client.world) (ap (λ m. m.read_fn) its_mapped)
              (deliver_down _ _ (
                ap (λ up. up address)
                  (after
                    ∙ ap (λ (o : Outcome (Process machines.World) ℤ). (state_of o).client.world.up)
                        aborted)
                ∙ rw (eq_refl address) refl)),
        ),
      )
