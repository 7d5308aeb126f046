-- ===== src/Server/Streams.antt =====
-- A client of hvac_comm.cpp that reads a file in parts, while others use the server.
use hvac_arc.Base.{
  ℕ, ◌+◌, ◌^◌, ◌<◌, ◌≤◌, ◌≡◌, refl, ◌∙◌, ℤ, pos, negsuc, minus_one, int32_small, eqb, true, Option,
  none, some, List, [], ◌∷◌, ◌++◌, if◌then◌else◌, Bytes, returns, stops, Outcome, state_of, take,
  drop, length, length-take-le, take_add, arith,
}
use hvac_arc.Host.{Delivery, replied, failed, silent, open_in, read_in}
use hvac_arc.Server.Defs.{Kernel, Server}
use hvac_arc.Server.Handlers.{serve, redirect}
use hvac_arc.Server.Events.{Event, happen_all}
use hvac_arc.Server.Cache.{StaticFiles, CacheOk, content-redirect}
use hvac_arc.Server.OpenFiles.{OpenFiles, AllAvoid, HasLeft, happen_all-HasLeft}

-- Mercury takes buffers, and pushes up to their length.
pub record Transfers (k : Kernel) : Type 0 where
  pub registers : (n : ℕ) → k.registers n ≡ true
  pub transfers : (size n : ℕ) → size ≤ n → k.transfers size n ≡ true

-- The rounds of a client: what others do first, and how many bytes the client asks for then.
abbrev pub Rounds : Type 0
Rounds = List (List Event × ℕ)

abbrev pub asked : Rounds → ℕ
asked [] = 0
asked ((es, n) ∷ more) = n + asked more

-- The others leave the descriptor alone, and no request is for 2 GiB or more.
abbrev pub AllSound : ℤ → Rounds → Type 0
AllSound fd [] = Unit
AllSound fd ((es, n) ∷ more) = AllAvoid fd es × (n < 2 ^ 31) × AllSound fd more

-- The bytes of an answer that also says their number.
abbrev pub bytes_of : {S : Type 0} → Outcome S Delivery → Option Bytes
bytes_of (returns (replied (pos n) bytes) s) = if eqb n (length bytes) then some bytes else none
bytes_of (returns (replied (negsuc n) bytes) s) = none
bytes_of (returns failed s) = none
bytes_of (returns silent s) = none
bytes_of (stops e s) = none

abbrev pub before : Option Bytes → Option Bytes → Option Bytes
before none more = none
before (some bytes) none = none
before (some bytes) (some more) = some (bytes ++ more)

module _ (k : Kernel) where
  -- All bytes that the client gets, if each of its requests is answered.
  abbrev pub stream : ℤ → Rounds → Server k.World → Option Bytes
  stream fd [] s = some []
  stream fd ((es, n) ∷ more) s =
      let o = serve k (read_in (pos n) fd minus_one) (happen_all k es s) in
      before (bytes_of o) (stream fd more (state_of o))

  module _ (files : StaticFiles k) (o : OpenFiles k files) (able : Transfers k) where
    -- A read at the current offset.
    pub serve-read :
        (fd : ℤ) (n : ℕ) (bytes : Bytes) (s : Server k.World)
        → n < 2 ^ 31
        → HasLeft k files o fd bytes s
        → serve k (read_in (pos n) fd minus_one) s
          ≡ returns
              (replied (pos (length (take n bytes))) (take n bytes))
              (record s { world = (k.read fd n s.world).2 })
    unfolding serve
    serve-read fd n bytes s small h = ground (
      arith,
      o.read_own fd n bytes s.world h,
      able.registers n,
      able.transfers (length (take n bytes)) n (length-take-le n bytes),
      int32_small (length (take n bytes)),
      length-take-le n bytes,
    )

    stream-HasLeft :
        (fd : ℤ) (rounds : Rounds) (bytes : Bytes) (s : Server k.World)
        → AllSound fd rounds
        → HasLeft k files o fd bytes s
        → stream fd rounds s ≡ some (take (asked rounds) bytes)
    stream-HasLeft fd [] bytes s sound h = refl
    stream-HasLeft fd ((es, n) ∷ more) bytes s sound h =
        let t = happen_all k es s in
        let there = happen_all-HasLeft k files o fd bytes es s sound.0 h in
        let later =
          stream-HasLeft fd more (drop n bytes) (record t { world = (k.read fd n t.world).2 })
            sound.2 (o.read_own fd n bytes t.world there).2 in
        rw (serve-read fd n bytes t sound.1 there, later, take_add n (asked more) bytes)
          (ground arith)

    -- The open of a file that is there.
    pub opened-HasLeft :
        (s : Server k.World) (path contents : Bytes)
        → CacheOk k files s
        → files.content path s.world ≡ some contents
        → HasLeft k files o
            (k.open_ro (redirect path s.path_cache_map) s.world).0
            contents
            (state_of (serve k (open_in path) s))
    unfolding serve
    opened-HasLeft s path contents ok there =
        o.open_rest (redirect path s.path_cache_map) contents s.world
          (content-redirect k files s path ok ∙ there)

    -- A client opens a file at a server whose redirections lead to copies of the originals, and reads
    -- it in parts, each below 2 GiB, at the current offset. Whatever other requests and steps of the
    -- data mover come in between, as long as none reads, seeks or closes the client's descriptor: every
    -- request is answered, with the number of the bytes that it brings, and the answers together are
    -- the first bytes of the file, as many as were asked for in all, or the whole file.
    pub stream-open_handler :
        (s : Server k.World) (path contents : Bytes) (rounds : Rounds)
        → CacheOk k files s
        → files.content path s.world ≡ some contents
        → let fd = (k.open_ro (redirect path s.path_cache_map) s.world).0 in
          AllSound fd rounds
          → stream fd rounds (state_of (serve k (open_in path) s))
            ≡ some (take (asked rounds) contents)
    stream-open_handler s path contents rounds ok there sound =
        stream-HasLeft _ rounds contents _ sound (opened-HasLeft s path contents ok there)
