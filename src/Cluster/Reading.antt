-- ===== src/Cluster/Reading.antt =====
-- What a running server answers to the open and the read of a file.
use hvac_arc.Base.{
  ℕ, ◌^◌, ◌≤◌, ◌<◌, ◌≡◌, refl, ◌∙◌, ℤ, pos, minus_one, int_ord, int32_small, true, some, [], Bytes,
  bytes_ord, ◌==◌, length, take, length-take-le, returns, arith,
}
use hvac_arc.Host.{open_in, read_in, replied}
use hvac_arc.Server.{Kernel, Server, redirect, serve, after_open}
use hvac_arc.Server.Cache.{StaticFiles, CacheOk, content-redirect}
use hvac_arc.Cluster.{Nodes, set_server, deliver_to}

-- A file that is there can be opened, and a first read gives its first bytes, as many as were asked
-- for or as there are. Mercury takes buffers and pushes up to their length.
pub record Readable (k : Kernel) (files : StaticFiles k) : Type 0 where
  pub descriptor : Bytes → k.World → ℕ
  pub opens :
      (path contents : Bytes) (w : k.World)
      → files.content path w ≡ some contents
      → (k.open_ro path w).0 ≡ pos (descriptor path w)
  pub rest : Bytes → ℕ → k.World → k.World
  pub reads :
      (path contents : Bytes) (n : ℕ) (w : k.World)
      → files.content path w ≡ some contents
      → k.read (pos (descriptor path w)) n (k.open_ro path w).1
        ≡ (pos (length (take n contents)), take n contents, rest path n w)
  pub registers : (n : ℕ) → k.registers n ≡ true
  pub transfers : (size n : ℕ) → size ≤ n → k.transfers size n ≡ true

module _ (k : Kernel) (files : StaticFiles k) (able : Readable k files) (s : Server k.World)
    (full contents : Bytes) (ok : CacheOk k files s)
    (there : files.content full s.world ≡ some contents) where
  -- The file that the server opens, and its descriptor.
  abbrev pub chosen : Bytes
  chosen = redirect full s.path_cache_map

  abbrev pub remote : ℤ
  remote = pos (able.descriptor chosen s.world)

  abbrev pub opened_server : Server k.World
  opened_server = after_open full remote (k.open_ro chosen s.world).1 s

  pub same : files.content chosen s.world ≡ some contents
  same = content-redirect k files s full ok ∙ there

  serve_open : serve k (open_in full) s ≡ returns (replied remote []) opened_server
  unfolding serve
  serve_open = ground (arith, able.opens chosen contents s.world same)

  abbrev pub read_server : ℕ → Server k.World
  read_server n = record opened_server { world = able.rest chosen n s.world }

  serve_read :
      (n : ℕ)
      → n < 2 ^ 31
      → serve k (read_in (pos n) remote minus_one) opened_server
        ≡ returns (replied (pos (length (take n contents))) (take n contents)) (read_server n)
  unfolding serve
  serve_read n small = ground (
    arith,
    able.reads chosen contents n s.world same,
    able.registers n,
    able.transfers (length (take n contents)) n (length-take-le n contents),
    int32_small (length (take n contents)),
    length-take-le n contents,
  )

  pub deliver_open :
      (address : Bytes) {L : Type 0} (w : Nodes L k.World)
      → w.up address ≡ true
      → w.servers address ≡ s
      → deliver_to k address (open_in full) w
        ≡ (replied remote [], set_server address opened_server true w)
  unfolding deliver_to
  deliver_open address w runs at = rw (runs, at, serve_open, ◌==◌) refl

  pub deliver_read :
      (address : Bytes) {L : Type 0} (w : Nodes L k.World) (n : ℕ)
      → n < 2 ^ 31
      → w.up address ≡ true
      → w.servers address ≡ opened_server
      → deliver_to k address (read_in (pos n) remote minus_one) w ≡ (
        replied (pos (length (take n contents))) (take n contents),
        set_server address (read_server n) true w,
      )
  unfolding deliver_to
  deliver_read address w n small runs at = rw (runs, at, serve_read n small) refl
