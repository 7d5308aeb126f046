-- ===== src/Cluster/Programs.antt =====
-- An application that opens a tracked file and reads it in parts.
use hvac_arc.Base.{
  ℕ, ◌≡◌, ◌≢◌, ◌||◌, refl, ap, ℤ, minus_one, int_ord, true, false, some, List, if◌then◌else◌, Bytes,
  bytes_ord, returns, ◌>>=◌, take, arith, subst,
}
use hvac_arc.OrderedMap.{eq_refl}
use hvac_arc.Host.{Host}
use hvac_arc.Server.{Kernel, Server}
use hvac_arc.Server.Cache.{StaticFiles, CacheOk}
use hvac_arc.Server.OpenFiles.{OpenFiles, HasLeft}
use hvac_arc.Client.{tracked_path}
use hvac_arc.Client.Redirect.{Knows}
use hvac_arc.Wrappers.{all_mapped, Process, creates, wrap_open}
use hvac_arc.Cluster.{cluster}
use hvac_arc.Cluster.Reading.{Readable, remote, chosen, same, opened_server}
use hvac_arc.Cluster.Running.{opened_process, opened, knows, tracks}
use hvac_arc.Cluster.Streams.{Portion, in_all, AllSound, read_parts, IsReading, read_parts-take}

module _ (k : Kernel) (files : StaticFiles k) (able : Readable k files) (o : OpenFiles k files)
    (s : Server k.World) (full contents : Bytes) (ok : CacheOk k files s)
    (there : files.content full s.world ≡ some contents) (local : Host) (address : Bytes)
    (p : Process (cluster local k).World) (path : Bytes) (flags mode : ℕ) (fd : ℤ) (l : local.World)
    (known : Knows (cluster local k) p.client full address)
    (on : (p.client.disable_redirect || p.tl_disable_redirect) ≡ false) (good : fd ≢ minus_one)
    (mapped : p.mapped ≡ all_mapped)
    (opens : local.real_open path flags
        (if creates flags then mode else 0)
        (local.clock p.client.world.local).1
      ≡ (fd, l))
    (started : p.client.mercury_init ≡ true) (runs : p.client.world.up address ≡ true)
    (at : p.client.world.servers address ≡ s) (first : Bytes)
    (buf : p.client.buffer ≡ some first) where
  abbrev pub far : ℤ
  far = remote k files able s full contents ok there

  abbrev open_process : Process (cluster local k).World
  open_process =
      opened_process k files able s full contents ok there local address p path flags mode fd l
        known on good mapped opens started runs at

  opened-HasLeft :
      HasLeft k files o far contents (opened_server k files able s full contents ok there)
  opened-HasLeft =
      let chosen_path = chosen k files able s full contents ok there in
      let here = same k files able s full contents ok there in
      subst (λ g. o.rest g (k.open_ro chosen_path s.world).1 ≡ some contents)
        (able.opens chosen_path contents s.world here)
        (o.open_rest chosen_path contents s.world here)

  opened-IsReading :
      IsReading local k address files o
        (record { registers = able.registers; transfers = able.transfers })
        fd
        full
        far
        contents
        open_process
  opened-IsReading = record {
    knows =
        knows k files able s full contents ok there local address p path flags mode fd l known on
          good mapped opens started runs at;
    tracks =
        tracks k files able s full contents ok there local address p path flags mode fd l known on
          good mapped opens started runs at;
    mapped = ap (λ m. m.read_fn) mapped;
    old = first;
    buffered = buf;
    runs = rw (eq_refl address) refl;
    there = rw (eq_refl address) opened-HasLeft;
  }

  -- A program, its real functions found, runs with redirection on, on a client that knows a running
  -- server, whatever that has served before. It opens a tracked file and reads it in parts, each below
  -- 2 GiB, through the wrappers. Between any two of its calls the server handles other clients'
  -- requests and the data mover copies files, in any order, as long as the server goes on running and
  -- none of them reads, seeks or closes the program's descriptor at the server; and on the program's
  -- own machine anything may happen. Then each read returns the number of bytes that it puts into the
  -- buffer, and all these bytes together are the first of the file, as many as were asked for, or the
  -- whole file.
  pub program_reads_parts :
      (ts : List (Portion local.World))
      → tracked_path
          (cluster local k)
          (record p.client { world = record p.client.world { local = l } })
          path
          flags
        ≡ some full
      → AllSound far ts
      → (u : Process (cluster local k).World) × ((do
        d ← wrap_open (cluster local k) path flags mode
        read_parts local k address d ts)
            p
          ≡ returns (some (take (in_all ts) contents)) u)
  program_reads_parts ts decided sound =
      let opened_here =
        opened k files able s full contents ok there local address p path flags mode fd l known on
          good mapped opens started runs at decided in
      let (u, reads) =
        read_parts-take local k address files o _ fd full far ts contents open_process sound
          opened-IsReading in
      (u, ground (arith, opened_here, reads))
