-- ===== src/Cluster.antt =====
-- The client library over the servers of the repository: Mercury as the deliverer of requests to
-- the handlers of hvac_comm.cpp.
pub mod Reading
pub mod Running
pub mod Positioned
pub mod Streams
pub mod Programs
pub mod OpenTable
pub mod Agreement
pub mod ReadStep
pub mod OpenStep
pub mod OpenKeeps
pub mod CloseStep
pub mod Transparency
pub mod Failure
use hvac_arc.Base.{
  ℕ, ℤ, Bool, true, false, Option, none, some, List, [], ◌∷◌, if◌then◌else◌, ◌==◌, bytes_ord, Bytes,
  Outcome, returns, stops,
}
use hvac_arc.Host.{Host, Request, Delivery, replied, failed, silent}
use hvac_arc.Server.{Kernel, Server, serve}

-- The servers by their addresses, which of them run, and the client's own machine.
pub record Nodes (Local Remote : Type 0) : Type 0 where
  pub local : Local
  pub servers : Bytes → Server Remote
  pub up : Bytes → Bool

abbrev pub set_server : {L R : Type 0} → Bytes → Server R → Bool → Nodes L R → Nodes L R
set_server address s running w = record w {
  servers = λ a. if address == a then s else w.servers a;
  up = λ a. if address == a then running else w.up a;
}

-- A server that ends while it works on a request, or has ended before, makes the request fail.
abbrev pub delivered :
    {L R : Type 0} → Bytes → Nodes L R → Outcome (Server R) Delivery → Delivery × Nodes L R
delivered address w (returns d s) = (d, set_server address s true w)
delivered address w (stops e s) = (failed, set_server address s false w)

unfoldable pub deliver_to :
    (k : Kernel) {L : Type 0} → Bytes → Request → Nodes L k.World → Delivery × Nodes L k.World
deliver_to k address request w =
    if w.up address then delivered address w (serve k request (w.servers address)) else (failed, w)

-- On the client's own machine.
abbrev pub at_home : {A L R : Type 0} → (L → A × L) → Nodes L R → A × Nodes L R
at_home f w = let (a, l) = f w.local in (a, record w { local = l })

abbrev pub read_home : {A B L R : Type 0} → (L → A × B × L) → Nodes L R → A × B × Nodes L R
read_home f w = let (a, b, l) = f w.local in (a, b, record w { local = l })

abbrev pub cluster : Host → Kernel → Host
cluster local k = record {
  World = Nodes local.World k.World;
  deliver = deliver_to k;
  canonical = λ path w. local.canonical path w.local;
  current_path = λ w. local.current_path w.local;
  config_file = λ w. local.config_file w.local;
  hash = local.hash;
  slurm_procid = local.slurm_procid;
  resolves = local.resolves;
  real_open = λ path flags mode. at_home (local.real_open path flags mode);
  real_close = λ fd. at_home (local.real_close fd);
  real_read = λ fd count. read_home (local.real_read fd count);
  real_pread = λ fd count offset. read_home (local.real_pread fd count offset);
  clock = at_home local.clock;
}
