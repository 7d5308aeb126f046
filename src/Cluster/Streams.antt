-- ===== src/Cluster/Streams.antt =====
-- An application that reads a tracked file in parts through the wrappers, while other clients use its
-- server.
use hvac_arc.Base.{
  ℕ, ◌+◌, ◌^◌, ◌<◌, ◌≡◌, refl, ap, ◌∙◌, ℤ, pos, negsuc, minus_one, int_ord, int32, int32_small, eqb,
  true, Option, none, some, List, [], ◌∷◌, if◌then◌else◌, Bytes, bytes_ord, returns, pure, modify,
  gets, ◌>>=◌, ◌>>◌, Prog, take, drop, length, length-take-le, take_add, arith,
}
use hvac_arc.OrderedMap.{eq_refl}
use hvac_arc.Host.{Host, read_in, replied}
use hvac_arc.Server.{Kernel, Event, happen_all}
use hvac_arc.Server.Cache.{StaticFiles}
use hvac_arc.Server.OpenFiles.{OpenFiles, AllAvoid, HasLeft, happen_all-HasLeft}
use hvac_arc.Server.Streams.{Transfers, before, serve-read}
use hvac_arc.Client.Redirect.{Knows, IsTracked}
use hvac_arc.Wrappers.{Process, note_call, wrap_read}
use hvac_arc.Wrappers.Passing.{after_clock}
use hvac_arc.Wrappers.Tracked.{wrap_read_tracked}
use hvac_arc.Cluster.{Nodes, set_server, deliver_to, cluster}

-- What happens between two calls of an application: events at its file's server, and any change of its
-- own machine; and the size of the next read.
pub record Portion (Local : Type 0) : Type 0 where
  pub events : List Event
  pub local : Local
  pub count : ℕ

abbrev pub in_all : {L : Type 0} → List (Portion L) → ℕ
in_all [] = 0
in_all (t ∷ more) = t.count + in_all more

-- The others leave the server's descriptor alone, and no read is of 2 GiB or more.
abbrev pub AllSound : {L : Type 0} → ℤ → List (Portion L) → Type 0
AllSound far [] = Unit
AllSound far (t ∷ more) = AllAvoid far t.events × (t.count < 2 ^ 31) × AllSound far more

-- The bytes in the buffer, if the result is their number.
abbrev pub part : ℤ → Option Bytes → Option Bytes
part (pos n) (some bytes) = if eqb n (length bytes) then some bytes else none
part (pos n) none = none
part (negsuc n) buffer = none

module _ (local : Host) (k : Kernel) (address : Bytes) where
  abbrev pub machines : Host
  machines = cluster local k

  abbrev pub others : Portion local.World → Process machines.World → Process machines.World
  others t q = record q {
    client = record q.client {
      world =
          record (set_server address (happen_all k t.events (q.client.world.servers address)) true
            q.client.world) { local = t.local };
    };
  }

  -- The reads of the application, and all bytes that it gets.
  abbrev pub read_parts :
      ℤ → List (Portion local.World) → Prog (Process machines.World) (Option Bytes)
  read_parts fd [] = pure (some [])
  read_parts fd (t ∷ more) = do
    modify (others t)
    r ← wrap_read machines fd t.count
    buffer ← gets (λ q. q.client.buffer)
    rest ← read_parts fd more
    pure (before (part r buffer) rest)

  module _ (files : StaticFiles k) (o : OpenFiles k files) (able : Transfers k) (fd : ℤ)
      (full : Bytes) (far : ℤ) where
    -- The process has the file open, with these bytes before the server's descriptor.
    pub record IsReading (bytes : Bytes) (q : Process machines.World) : Type 0 where
      pub knows : Knows machines q.client full address
      pub tracks : IsTracked machines q.client fd full far
      pub mapped : q.mapped.read_fn ≡ true
      pub old : Bytes
      pub buffered : q.client.buffer ≡ some old
      pub runs : q.client.world.up address ≡ true
      pub there : HasLeft k files o far bytes (q.client.world.servers address)

    others-IsReading :
        (t : Portion local.World) (bytes : Bytes) (q : Process machines.World)
        → AllAvoid far t.events
        → IsReading bytes q
        → IsReading bytes (others t q)
    others-IsReading t bytes q avoid i = record {
      knows = record {
        some_server = i.knows.some_server;
        posted = i.knows.posted;
        quiet = i.knows.quiet;
      };
      tracks = record { local = i.tracks.local; redirected = i.tracks.redirected };
      mapped = i.mapped;
      old = i.old;
      buffered = i.buffered;
      runs = rw (eq_refl address) refl;
      there =
          rw (eq_refl address) (happen_all-HasLeft k files o far bytes t.events _ avoid i.there);
    }

    deliver_read :
        (n : ℕ) (bytes : Bytes) (w : Nodes local.World k.World)
        → n < 2 ^ 31
        → w.up address ≡ true
        → HasLeft k files o far bytes (w.servers address)
        → deliver_to k address (read_in (int32 (pos n)) far minus_one) w ≡ (
          replied (pos (length (take n bytes))) (take n bytes),
          set_server address
              (record (w.servers address) { world = (k.read far n (w.servers address).world).2 })
              true
              w,
        )
    unfolding deliver_to
    deliver_read n bytes w small runs there =
        rw
          (
            int32_small n (ground (arith, small)),
            runs,
            serve-read k files o able far n bytes (w.servers address) small there,
          )
          refl

    -- The process after a read of `n` bytes.
    abbrev pub after_read : ℕ → Bytes → Process machines.World → Process machines.World
    after_read n bytes q =
        let w = after_clock machines q q.client.world in
        let s = w.servers address in
        let w' = set_server address (record s { world = (k.read far n s.world).2 }) true w in
        record q {
          client = record q.client {
            world = after_clock machines q w';
            done = 1;
            read_ret = pos (length (take n bytes));
            buffer = some (take n bytes);
            pending = [];
          };
          read_stats =
              note_call (machines.clock q.client.world).0 (machines.clock w').0 q.read_stats;
        }

    pub wrap_read-IsReading :
        (n : ℕ) (bytes : Bytes) (q : Process machines.World)
        → n < 2 ^ 31
        → IsReading bytes q
        → (wrap_read machines fd n q ≡ returns (pos (length (take n bytes))) (after_read n bytes q))
          × IsReading (drop n bytes) (after_read n bytes q)
    wrap_read-IsReading n bytes q small i =
        let w = after_clock machines q q.client.world in
        let s = w.servers address in
        let w' = set_server address (record s { world = (k.read far n s.world).2 }) true w in
        let same : int32 (pos (length (take n bytes))) ≡ pos (length (take n bytes)) =
          int32_small (length (take n bytes)) (ground (arith, small, length-take-le n bytes)) in
        (
          wrap_read_tracked machines q fd full address i.knows far i.tracks n
                (pos (length (take n bytes))) i.old (take n bytes) w' i.mapped i.buffered
                (deliver_read n bytes w small i.runs i.there) (λ e. ground (arith, same, e))
              ∙ ap (λ z. returns z (after_read n bytes q)) same,
          record {
            knows = record {
              some_server = i.knows.some_server;
              posted = i.knows.posted;
              quiet = refl;
            };
            tracks = record { local = i.tracks.local; redirected = i.tracks.redirected };
            mapped = i.mapped;
            old = take n bytes;
            buffered = refl;
            runs = rw (eq_refl address) refl;
            there = rw (eq_refl address) (o.read_own far n bytes s.world i.there).2;
          },
        )

    pub read_parts-take :
        (ts : List (Portion local.World)) (bytes : Bytes) (q : Process machines.World)
        → AllSound far ts
        → IsReading bytes q
        → (u : Process machines.World) × (read_parts fd ts q
            ≡ returns (some (take (in_all ts) bytes)) u)
    read_parts-take [] bytes q sound i = (q, refl)
    read_parts-take (t ∷ more) bytes q sound i =
        let (reads, goes) =
          wrap_read-IsReading t.count bytes (others t q) sound.1
            (others-IsReading t bytes q sound.0 i) in
        let (u, later) =
          read_parts-take more (drop t.count bytes) (after_read t.count bytes (others t q)) sound.2
            goes in
        (u, rw (reads, later, take_add t.count (in_all more) bytes) (ground arith))
