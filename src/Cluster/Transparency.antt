-- ===== src/Cluster/Transparency.antt =====
-- A program with any number of tracked files, over any number of servers that others use.
use hvac_arc.Base.{
  ◌≡◌, ◌≢◌, ◌<◌, ◌^◌, refl, inl, inr, pos, int_ord, none, some, List, [], ◌∷◌, Option-cases, take,
  drop, Prog, returns, state_of, pure, modify, gets, ◌>>=◌, ◌>>◌, arith,
}
use hvac_arc.OrderedMap.{lookup, insert, erase}
use hvac_arc.Host.{Host}
use hvac_arc.Server.{Kernel}
use hvac_arc.Server.Cache.{StaticFiles}
use hvac_arc.Server.OpenFiles.{OpenFiles}
use hvac_arc.Server.Streams.{Transfers}
use hvac_arc.Server.Survival.{Posix}
use hvac_arc.Wrappers.{Process, wrap_open, wrap_read, wrap_close}
use hvac_arc.Cluster.{cluster}
use hvac_arc.Cluster.Streams.{part}
use hvac_arc.Cluster.OpenTable.{
  Call, opens, reads, closes, Between, Seen, gave, got, Table, on_table, all_on_table,
}
use hvac_arc.Cluster.Agreement.{Agrees, others, LeavesAlone, others-Agrees}
use hvac_arc.Cluster.OpenStep.{CanOpen, opened}
use hvac_arc.Cluster.OpenKeeps.{opens-Agrees}
use hvac_arc.Cluster.ReadStep as ReadStep
use hvac_arc.Cluster.CloseStep as CloseStep

module _ (local : Host) (k : Kernel) (files : StaticFiles k) (o : OpenFiles k files) where
  abbrev pub machines : Host
  machines = cluster local k

  -- A call through the wrappers.
  unfoldable pub make : Call → Prog (Process machines.World) Seen
  make (opens op) = do fd ← wrap_open machines op.path op.flags op.mode; pure (gave fd)
  make (reads fd n) = do
    r ← wrap_read machines fd n
    buffer ← gets (λ q. q.client.buffer)
    pure (got (part r buffer))
  make (closes fd) = do ret ← wrap_close machines fd; pure (gave ret)

  unfoldable pub make_all :
      List (Between local.World × Call) → Prog (Process machines.World) (List Seen)
  unfolding make
  make_all [] = pure []
  make_all ((b, c) ∷ more) = do
    modify (others local k files o b)
    s ← make c
    ss ← make_all more
    pure (s ∷ ss)

  -- When a call may be made.
  abbrev pub MayMake : Call → Table → Process machines.World → Type 0
  MayMake (opens op) t q = CanOpen local k files o op t q
  MayMake (reads fd n) t q = (lookup fd t ≢ none) × (n < 2 ^ 31)
  MayMake (closes fd) t q =
      (lookup fd t ≢ none) × ((m : local.World) → (local.real_close fd m).0 ≡ pos 0)

  abbrev pub IsSound : List (Between local.World × Call) → Table → Process machines.World → Type 0
  IsSound [] t q = Unit
  IsSound ((b, c) ∷ more) t q =
      LeavesAlone local k files o b q
      × MayMake c t (others local k files o b q)
      × IsSound more (on_table c t).1 (state_of (make c (others local k files o b q)))

  made :
      (c : Call) (s : Seen) (t : Table) (q u : Process machines.World)
      → make c q ≡ returns s u
      → Agrees local k files o t u
      → (make c q ≡ returns s (state_of (make c q)))
        × Agrees local k files o t (state_of (make c q))
  made c s t q u run a = rw run (refl, a)

  module _ (able : Transfers k) (posix : Posix k files o) where
    make-on_table :
        (c : Call) (t : Table) (q : Process machines.World)
        → Agrees local k files o t q
        → MayMake c t q
        → (make c q ≡ returns (on_table c t).0 (state_of (make c q)))
          × Agrees local k files o (on_table c t).1 (state_of (make c q))
    unfolding make on_table
    make-on_table (opens op) t q a can =
        let run = opened local k files o able t q a op can in
        made (opens op) (gave op.fd) (insert op.fd op.contents t) q _ (ground (arith, run))
          (opens-Agrees local k files o able t q a op can)
    make-on_table (reads fd n) t q a can = elim (Option-cases (lookup fd t)) [
      | inl missing ↦ absurd (can.0 missing)
      | inr (rest, listed) ↦
          let run = ReadStep.reads local k files o able t q a fd rest listed n can.1 in
          rw (listed, on_table)
            (made (reads fd n) (got (some (take n rest))) (insert fd (drop n rest) t) q _
              (ground (arith, run))
              (ReadStep.reads-Agrees local k files o able t q a fd rest listed n can.1))
    ]
    make-on_table (closes fd) t q a can = elim (Option-cases (lookup fd t)) [
      | inl missing ↦ absurd (can.0 missing)
      | inr (rest, listed) ↦
          let run = CloseStep.closed local k files o posix t q a fd rest listed can.1 in
          made (closes fd) (gave (pos 0)) (erase fd t) q _ (ground (arith, run))
            (CloseStep.closes-Agrees local k files o posix t q a fd rest listed can.1)
    ]

    -- An application with redirection on and its real functions found opens, reads and closes any number
    -- of tracked files, through the wrappers, over any number of running servers, whose kernels are as
    -- POSIX says and whose Mercury is as documented, from a state that agrees with a table of open
    -- files. Each file that it opens is there, the kernel opens it under a descriptor that is not in
    -- use, and its server is known and runs; it reads, in parts below 2 GiB, and closes only files that
    -- it has open, and the kernel closes them. Between its calls anything may happen on its own machine,
    -- and at each server other clients' requests and copies of the data mover, in any order, as long as
    -- the servers go on running and the program's descriptors are left alone. Then every call returns,
    -- with what the table alone gives: each open the kernel's descriptor, each close success, and each
    -- read the next bytes of its file and their number.
    pub make_all-on_table :
        (calls : List (Between local.World × Call)) (t : Table) (q : Process machines.World)
        → Agrees local k files o t q
        → IsSound calls t q
        → (u : Process machines.World) × (make_all calls q ≡ returns (all_on_table calls t) u)
    unfolding make_all all_on_table
    make_all-on_table [] t q a sound = (q, refl)
    make_all-on_table ((b, c) ∷ more) t q a sound =
        let (run, agrees) =
          make-on_table c t (others local k files o b q)
            (others-Agrees local k files o b t q sound.0 a) sound.1 in
        let (u, later) = make_all-on_table more (on_table c t).1 _ agrees sound.2 in
        (u, ground (arith, run, later))
