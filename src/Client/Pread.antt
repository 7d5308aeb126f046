-- ===== src/Client/Pread.antt =====
-- `pread` at the offset -1, which stands for a plain read in the request.
use hvac_arc.Base.{◌≡◌, ◌≢◌, ℤ, pos, minus_one, int_ord, eqz_iff, Bytes, returns, arith}
use hvac_arc.OrderedMap.{index}
use hvac_arc.Host.{Host}
use hvac_arc.Client.Defs.{Client, redir_at}
use hvac_arc.Client.Files.{file_tracked, ask_read, remote_read, has_remote, remote_pread}
use hvac_arc.Client.Redirect.{IsTracked}

module _ (h : Host) where
  -- On a tracked descriptor whose server descriptor is not 0, `pread` at the offset -1 is not
  -- refused: it does what `read` does.
  pub remote_pread-minus_one :
      (c : Client h.World) (fd count : ℤ) (full : Bytes) (remote : ℤ)
      → IsTracked h c fd full remote
      → remote ≢ pos 0
      → remote_pread h fd count minus_one c ≡ remote_read h fd count c
  unfolding remote_pread remote_read has_remote file_tracked redir_at index
  remote_pread-minus_one c fd count full remote t other = ground (arith, t, eqz_iff remote (pos 0))

  -- Where the server's descriptor is 0, `pread` says -1 and asks no server; `read` asks it.
  pub remote_pread_zero :
      (c : Client h.World) (fd count offset : ℤ) (full : Bytes)
      → IsTracked h c fd full (pos 0)
      → (remote_pread h fd count offset c ≡ returns minus_one c)
        × (remote_read h fd count c ≡ ask_read h fd count minus_one c)
  unfolding remote_pread remote_read has_remote file_tracked redir_at index
  remote_pread_zero c fd count offset full t = (ground (arith, t), ground (arith, t))
