-- ===== src/Tests/Servers.antt =====
-- A server over a disk of one file, and a program that reads it.
use hvac_arc.Base.{
  Option, Bool, ℕ, false, Option-cases, inr, ℕ, ◌≡◌, ◌≢◌, refl, pos, minus_one, int_ord, inl, true,
  none, some, List, [], ◌∷◌, Bytes, bytes_ord, codes, returns, stops, aborts, ◌>>=◌, arith,
}
use hvac_arc.OrderedMap.{insert, lookup-insert, lookup}
use hvac_arc.Host.{open_in, read_in, close_in, replied}
use hvac_arc.Server.{
  Kernel, Server, Event, requested, woken, copies, happen_all, serve, mover_round, redirect,
}
use hvac_arc.Server.Cache.{CacheOk, happen_all-CacheOk, open_handler-content}
use hvac_arc.Server.Crashes.{close_unopened_aborts}
use hvac_arc.Server.Queue.{CanCopy, mover_round_lem}
use hvac_arc.Client.{tracked_path}
use hvac_arc.Client.Redirect.{Knows}
use hvac_arc.Cluster.{Nodes, cluster}
use hvac_arc.Cluster.Positioned.{program_preads}
use hvac_arc.Wrappers.{Process, wrap_open, wrap_pread}
use hvac_arc.Tests.Samples.{
  disk_at_offset, process_of, Disk, disk, disk_files, disk_able, fresh_server, machine, client,
  data_file, text,
}

-- A program reads the file, the data mover copies it, and a second program opens it.
abbrev events : List Event
events =
    requested (open_in data_file)
    ∷ requested (read_in (pos 2) (pos 5) minus_one)
    ∷ requested (close_in (pos 5))
    ∷ woken
    ∷ copies (codes "/bb")
    ∷ requested (open_in data_file)
    ∷ []

happen_all-CacheOk_example : CacheOk disk disk_files (happen_all disk events fresh_server)
happen_all-CacheOk_example = happen_all-CacheOk disk disk_files events fresh_server tt

open_handler-content_example :
    let t = happen_all disk events fresh_server in
    (opened : Bytes) × (lookup opened t.world.files ≡ lookup data_file t.world.files)
    × ((u : Server Disk) × (serve disk (open_in data_file) t
          ≡ returns (replied (disk.open_ro opened t.world).0 []) u))
open_handler-content_example = open_handler-content disk disk_files events fresh_server data_file tt

abbrev copy_over : Option Bytes → Bytes → Disk → Bool × Disk
copy_over none target w = (false, w)
copy_over (some contents) target w = (true, record w { files = insert target contents w.files })

-- A disk that writes over files.
abbrev overwriting : Kernel
overwriting = record disk { copy = λ source target w. copy_over (lookup source w.files) target w }

abbrev waiting : Server Disk
waiting = record fresh_server { data_queue = data_file ∷ [] }

copy_over_keeps :
    (source target : Bytes) (w : Disk)
    → lookup data_file w.files ≢ none
    → lookup data_file (overwriting.copy source target w).1.files ≢ none
copy_over_keeps source target w there = elim (Option-cases (lookup source w.files)) [
  | inl e ↦ rw e there
  | inr (contents, e) ↦
      rw e λ gone. ground (arith, there, lookup-insert data_file target contents w.files)
]

copies_there :
    (target : Bytes) (w : Disk)
    → lookup data_file w.files ≢ none
    → (overwriting.copy data_file target w).0 ≡ true
copies_there target w there = elim (Option-cases (lookup data_file w.files)) [
  | inl e ↦ absurd (there e)
  | inr (contents, e) ↦ rw e refl
]

abbrev can_copy : CanCopy overwriting (codes "/bb") data_file
can_copy = record {
  Ready = λ w. lookup data_file w.files ≢ none;
  after_mkdtemp = λ w there. there;
  after_copy = copy_over_keeps;
  copied = λ w there. copies_there _ w there;
}

mover_round_lem_example :
    let t = mover_round overwriting (codes "/bb") waiting in
    (t.data_queue ≡ []) × (t.local_list ≡ []) × (lookup data_file t.path_cache_map ≢ none)
unfolding lookup
mover_round_lem_example =
    mover_round_lem overwriting (codes "/bb") waiting data_file can_copy (inl refl)
      λ e. ground arith

close_unopened_aborts_example :
    (t : Server Disk) × ((serve disk (open_in (codes "/d/none")) fresh_server
        ≡ returns (replied minus_one []) t)
      × (serve disk (close_in minus_one) t ≡ stops aborts t))
unfolding redirect lookup
close_unopened_aborts_example =
    close_unopened_aborts disk fresh_server (codes "/d/none") (λ w. refl) refl

abbrev nodes : Nodes ℕ Disk
nodes = record { local = 0; servers = λ address. fresh_server; up = λ address. true }

cluster-Knows : Knows (cluster machine disk) (client nodes) data_file (codes "tcp:1")
cluster-Knows = record { some_server = refl; posted = unfold lookup in refl; quiet = refl }

abbrev node_process : Process (Nodes ℕ Disk)
node_process = process_of (client nodes)

-- The second of the three bytes, and what follows it.
program_preads_example :
    (q : Process (Nodes ℕ Disk)) × ((do
      d ← wrap_open (cluster machine disk) data_file 0 0
      wrap_pread (cluster machine disk) d 9 (pos 1))
        node_process
      ≡ returns (pos 2) q)
    × (q.client.buffer ≡ some (codes "bc"))
program_preads_example =
    program_preads disk disk_files disk_able disk_at_offset fresh_server data_file text tt
      (unfold lookup in refl) 9 1 (ground arith) machine (codes "tcp:1") node_process data_file 0 0
      (pos 3) 2 cluster-Knows refl (λ e. ground arith) refl refl refl refl refl [] refl
      (unfold tracked_path in refl)
