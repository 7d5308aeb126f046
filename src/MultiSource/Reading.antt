-- ===== src/MultiSource/Reading.antt =====
-- hvac_multi_source_read.cpp: `hvac::ms_read` from its first test.
use hvac_arc.Base.{
  ℕ, ◌≡◌, ℤ, pos, minus_one, int_ord, eqz, false, Option, none, some, if◌then◌else◌, returns, stops,
  hangs, faults, stop, ◌>>=◌, ◌>>◌, arith, Bytes,
}
use hvac_arc.OrderedMap.{lookup, index}
use hvac_arc.Host.{Host}
use hvac_arc.Client.{file_tracked, redir_at}
use hvac_arc.Wrappers.{
  Process, all_mapped, Wrapper, read_symbol, pread_symbol, map_or_fail, log, call_read, call_pread,
  on_client,
}
use hvac_arc.MultiSource.{Looks, ms_read_tracked}

module _ (h : Host) where
  -- What the waiting loop ends with; a loop that is still running when the looks end waits on.
  abbrev pub looked : Option ℤ → Wrapper h ℤ
  looked none p = stops hangs p
  looked (some r) p = returns r p

  unfoldable pub at_offset : ℤ → ℕ → ℤ → Wrapper h ℤ
  unfolding map_or_fail call_read call_pread
  at_offset fd count offset =
      if eqz offset minus_one
      then call_read h fd count
      else (do map_or_fail h pread_symbol; call_pread h fd count offset)

  -- The read of a file that is not tracked.
  unfoldable pub read_untracked : ℤ → ℕ → ℤ → Wrapper h ℤ
  unfolding map_or_fail log at_offset
  read_untracked fd count offset = do map_or_fail h read_symbol; log h; at_offset fd count offset

  -- `get_PM_rank` and `get_SSD_rank`: an `int` function that ends without `return`. To use what it
  -- returns is undefined behaviour.
  abbrev pub get_pm_rank : Wrapper h ℤ
  get_pm_rank = stop faults

  abbrev pub get_ssd_rank : Wrapper h ℤ
  get_ssd_rank = stop faults

  -- The two requests, given the rank of PM, the rank of SSD and the server's descriptor, and what
  -- the loop sees of their answers: a parameter, since their arguments are none that
  -- `hvac_client_comm_gen_read_rpc` takes.
  abbrev pub Launch : Type 0
  Launch = ℤ → ℤ → ℤ → Wrapper h Looks

  -- `fd_redir_map[fd]`, the two ranks, the two requests, and the loop.
  unfoldable pub read_tiers : Launch → ℤ → Wrapper h ℤ
  unfolding redir_at ms_read_tracked
  read_tiers launch fd = do
    remote_fd ← on_client (redir_at fd)
    pm_rank ← get_pm_rank
    ssd_rank ← get_ssd_rank
    looks ← launch pm_rank ssd_rank remote_fd
    looked (ms_read_tracked looks)

  -- `hvac::ms_read`.
  unfoldable pub ms_read : Launch → ℤ → ℕ → ℤ → Wrapper h ℤ
  unfolding file_tracked read_untracked read_tiers
  ms_read launch fd count offset = do
    tracked ← on_client (file_tracked h fd)
    if tracked then read_tiers launch fd else read_untracked fd count offset

  -- On a descriptor that is not tracked, once the real functions are found, `ms_read` is the kernel's
  -- `read` at the offset -1 and its `pread` at any other, after a message that clears the thread's
  -- flag.
  pub ms_read_untracked :
      (launch : Launch) (fd : ℤ) (count : ℕ) (offset : ℤ) (p : Process h.World)
      → lookup fd p.client.fd_map ≡ none
      → p.mapped ≡ all_mapped
      → let q = record p { tl_disable_redirect = false } in
        ms_read launch fd count offset p
        ≡ (if eqz offset minus_one then call_read h fd count q else call_pread h fd count offset q)
  unfolding ms_read read_untracked file_tracked map_or_fail log
  ms_read_untracked launch fd count offset p untracked mapped = ground (arith, untracked, mapped)

  -- On a tracked descriptor, `ms_read` ends in undefined behaviour before it sends a request.
  pub ms_read_tracked_faults :
      (launch : Launch) (fd : ℤ) (count : ℕ) (offset : ℤ) (full : Bytes) (p : Process h.World)
      → lookup fd p.client.fd_map ≡ some full
      → (q : Process h.World) × (ms_read launch fd count offset p ≡ stops faults q)
  unfolding ms_read file_tracked read_tiers redir_at
  ms_read_tracked_faults launch fd count offset full p tracked =
      let with_remote = (index (pos 0) fd p.client.fd_redir_map).1 in
      let q = record p { client = record p.client { fd_redir_map = with_remote } } in
      (q, ground (arith, tracked))
