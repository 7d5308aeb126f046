-- ===== src/Client/Uses.antt =====
-- hvac_client.cpp: any use of the library by an application.
use hvac_arc.Base.{ℕ, ◌≡◌, ℤ, Bool, Option, Bytes, returns}
use hvac_arc.Host.{Host}
use hvac_arc.Client.Defs.{Client}
use hvac_arc.Client.Files.{track_file, remote_read, remote_pread, remote_lseek, remove_fd}
use hvac_arc.Client.Pairing.{
  IsPaired, track_file-IsPaired, remote_read-IsPaired, remote_pread-IsPaired, remote_lseek-IsPaired,
  remove_fd-IsPaired,
}

module _ (h : Host) where
  -- What an application does with the library, as far as the calls return. Between two calls it may
  -- offer another buffer and the other programs may change the world.
  pub data Uses : Client h.World → Client h.World → Type 0 where
    ended : (c : Client h.World) → Uses c c
    between :
        (w : h.World) (b : Option Bytes) (c d : Client h.World)
        → Uses (record c { world = w; buffer = b }) d
        → Uses c d
    tracks :
        (path : Bytes) (flags : ℕ) (fd : ℤ) (tracked : Bool) (c c' d : Client h.World)
        → track_file h path flags fd c ≡ returns tracked c'
        → Uses c' d
        → Uses c d
    reads :
        (fd count n : ℤ) (c c' d : Client h.World)
        → remote_read h fd count c ≡ returns n c'
        → Uses c' d
        → Uses c d
    preads :
        (fd count offset n : ℤ) (c c' d : Client h.World)
        → remote_pread h fd count offset c ≡ returns n c'
        → Uses c' d
        → Uses c d
    seeks :
        (fd offset whence n : ℤ) (c c' d : Client h.World)
        → remote_lseek h fd offset whence c ≡ returns n c'
        → Uses c' d
        → Uses c d
    closes :
        (fd : ℤ) (erased : Bool) (c c' d : Client h.World)
        → remove_fd h fd c ≡ returns erased c'
        → Uses c' d
        → Uses c d

  -- If the same descriptors are in `fd_map` and in `fd_redir_map` and no answer waits, this holds
  -- after any sequence of tracked opens, remote reads, positioned reads, seeks and removals that
  -- all return, whatever the servers answer.
  pub Uses-IsPaired : (c d : Client h.World) → Uses c d → IsPaired h c → IsPaired h d
  Uses-IsPaired _ _ (ended c) p = p
  Uses-IsPaired _ _ (between w b c d u) p =
      Uses-IsPaired _ d u (record { both = p.both; quiet = p.quiet })
  Uses-IsPaired _ _ (tracks path flags fd tracked c c' d e u) p =
      Uses-IsPaired c' d u (track_file-IsPaired h path flags fd tracked c c' p e)
  Uses-IsPaired _ _ (reads fd count n c c' d e u) p =
      Uses-IsPaired c' d u (remote_read-IsPaired h fd count n c c' p e)
  Uses-IsPaired _ _ (preads fd count offset n c c' d e u) p =
      Uses-IsPaired c' d u (remote_pread-IsPaired h fd count offset n c c' p e)
  Uses-IsPaired _ _ (seeks fd offset whence n c c' d e u) p =
      Uses-IsPaired c' d u (remote_lseek-IsPaired h fd offset whence n c c' p e)
  Uses-IsPaired _ _ (closes fd erased c c' d e u) p =
      Uses-IsPaired c' d u (remove_fd-IsPaired h fd erased c c' p e)
