-- ===== src/Server/Handlers.antt =====
-- hvac_comm.cpp: what the server does with each request. Mercury is taken to decode a request and
-- to send an answer; whether it registers and pushes a buffer is a question to the kernel's record.
use hvac_arc.Base.{
  ℕ, ◌+◌, ◌-◌, ℤ, pos, negsuc, minus_one, int_ord, int32, eqz, none, some, [], ◌∷◌, ◌++◌,
  if◌then◌else◌, Bytes, bytes_ord, word, Prog, returns, stops, aborts,
}
use hvac_arc.OrderedMap.{Map, lookup, member, insert, erase, index}
use hvac_arc.Host.{Request, open_in, read_in, seek_in, close_in, Delivery, replied, silent}
use hvac_arc.Server.Defs.{Kernel, Server}

-- A `ssize_t` in an `hg_size_t`.
abbrev pub as_size : ℤ → ℕ
as_size (pos n) = n
as_size (negsuc n) = word - (n + 1)

abbrev pub after_open : {W : Type 0} → Bytes → ℤ → W → Server W → Server W
after_open path fd w s = record s { world = w; fd_to_path = insert fd path s.fd_to_path }

-- `path_cache_map[path]` if the file was moved, and `path` otherwise.
unfoldable pub redirect : Bytes → Map Bytes Bytes → Bytes
redirect path m = elim (lookup path m) [ none ↦ path | some copied ↦ copied ]

module _ (k : Kernel) where
  open k use {World, open_ro, read, pread, lseek, close, registers, transfers}

  abbrev pub Handler : Type 0 → Type 0
  Handler A = Prog (Server World) A

  -- `hvac_open_rpc_handler`: also a failed open is recorded and answered.
  unfoldable pub open_handler : Bytes → Handler Delivery
  unfolding redirect
  open_handler path s =
      let (fd, w) = open_ro (redirect path s.path_cache_map) s.world in
      returns (replied fd []) (after_open path fd w s)

  -- `read` where the offset is -1, and `pread` otherwise.
  unfoldable pub read_file : ℤ → ℕ → ℤ → World → ℤ × Bytes × World
  read_file fd n offset w = if eqz offset minus_one then read fd n w else pread fd n offset w

  -- `hvac_rpc_handler` once its buffer of `n` bytes is there, and `hvac_rpc_handler_bulk_cb`.
  unfoldable pub push_read : ℕ → ℤ → ℤ → Handler Delivery
  unfolding read_file
  push_read n fd offset s =
      let (readbytes, bytes, w) = read_file fd n offset s.world in
      if transfers (as_size readbytes) n
      then returns (replied (int32 (pos (as_size readbytes))) bytes) (record s { world = w })
      else stops aborts (record s { world = w })

  -- `hvac_rpc_handler`: a negative length is, as a `size_t`, more than `calloc` can give.
  unfoldable pub read_handler : ℤ → ℤ → ℤ → Handler Delivery
  unfolding push_read
  read_handler (negsuc n) fd offset s = stops aborts s
  read_handler (pos n) fd offset s = if registers n then push_read n fd offset s else stops aborts s

  -- The file that was closed is queued for the data mover, unless it was moved before.
  unfoldable pub queue_closed : ℤ → Server World → Server World
  unfolding index
  queue_closed fd s =
      let (path, m) = index [] fd s.fd_to_path in
      if member path s.path_cache_map
      then record s { fd_to_path = m }
      else record s { fd_to_path = m; data_queue = s.data_queue ++ path ∷ [] }

  abbrev pub forget : ℤ → Server World → Server World
  forget fd s = record s { fd_to_path = erase fd s.fd_to_path }

  -- `hvac_close_rpc_handler`.
  unfoldable pub close_handler : ℤ → Handler Delivery
  unfolding queue_closed
  close_handler fd s =
      let (ret, w) = close fd s.world in
      if eqz ret (pos 0)
      then returns silent (forget fd (queue_closed fd (record s { world = w })))
      else stops aborts (record s { world = w })

  -- `hvac_seek_rpc_handler`: the offset is answered in an `int32_t`.
  unfoldable pub seek_handler : ℤ → ℤ → ℤ → Handler Delivery
  seek_handler fd offset whence s =
      let (ret, w) = lseek fd offset whence s.world in
      returns (replied (int32 ret) []) (record s { world = w })

  -- The handlers as they are registered.
  unfoldable pub serve : Request → Handler Delivery
  unfolding open_handler read_handler seek_handler close_handler
  serve (open_in path) = open_handler path
  serve (read_in input_val accessfd offset) = read_handler input_val accessfd offset
  serve (seek_in fd offset whence) = seek_handler fd offset whence
  serve (close_in fd) = close_handler fd
