-- ===== src/Client/Pairing.antt =====
-- hvac_client.cpp: the two tables of descriptors, over any use of the library by the application.
use hvac_arc.Base.{
  Outcome-cases, pure, ◌>>◌, ℕ, ◌≡◌, refl, ◌∙◌, inl, inr, ◌⊎◌, ℤ, pos, int_ord, eqz, Bool, true,
  none, some, [], Bytes, returns, arith, Bool-cases, Option-cases, minus_one,
}
use hvac_arc.OrderedMap.{
  lookup, member, insert, erase, index, lookup-insert, lookup-erase, lookup-insert_self,
  erase_missing,
}
use hvac_arc.Host.{Host}
use hvac_arc.Client.Defs.{Client, redir_at}
use hvac_arc.Client.Files.{
  tracked_path, track_file, start_mercury, open_remote, file_tracked, ask_open, remote_read,
  has_remote, remote_pread, remote_lseek, remote_close, remove_fd,
}
use hvac_arc.Client.Tables.{
  SameTables, ask_open-tables, ask_read-SameTables, ask_seek-SameTables, remove_fd-tables,
}

module _ (h : Host) where
  -- The same descriptors are in both tables, and no answer is left over.
  pub record IsPaired (c : Client h.World) : Type 0 where
    pub both : (fd : ℤ) → member fd c.fd_redir_map ≡ member fd c.fd_map
    pub quiet : c.pending ≡ []

  same-IsPaired : (c d : Client h.World) → IsPaired c → SameTables h c d → IsPaired d
  same-IsPaired c d p same = record {
    both = λ fd. grind (arith, p.both fd, same);
    quiet = grind (arith, p, same);
  }

  insert-IsPaired :
      (c d : Client h.World) (fd : ℤ) (full : Bytes) (remote : ℤ)
      → IsPaired c
      → d.fd_map ≡ insert fd full c.fd_map
      → d.fd_redir_map ≡ insert fd remote c.fd_redir_map
      → d.pending ≡ []
      → IsPaired d
  insert-IsPaired c d fd full remote p local far quiet = record {
    both = λ j. ground (
      arith,
      p.both j,
      local,
      far,
      lookup-insert j fd full c.fd_map,
      lookup-insert j fd remote c.fd_redir_map,
    );
    quiet = quiet;
  }

  erase-IsPaired :
      (c d : Client h.World) (fd : ℤ)
      → IsPaired c
      → d.fd_map ≡ erase fd c.fd_map
      → d.fd_redir_map ≡ erase fd c.fd_redir_map
      → d.pending ≡ c.pending
      → IsPaired d
  erase-IsPaired c d fd p local far quiet = record {
    both = λ j.
        ground (
          arith,
          p.both j,
          local,
          far,
          lookup-erase j fd c.fd_map,
          lookup-erase j fd c.fd_redir_map,
        );
    quiet = quiet ∙ p.quiet;
  }

  -- A descriptor is in neither table, or in both.
  at :
      (c : Client h.World) (fd : ℤ)
      → IsPaired c
      → (lookup fd c.fd_map ≡ none)
        ⊎ ((full : Bytes) × ((remote : ℤ) × (lookup fd c.fd_map ≡ some full)
              × (lookup fd c.fd_redir_map ≡ some remote)))
  at c fd p = elim (Option-cases (lookup fd c.fd_map)) [
    | inl absent ↦ inl absent
    | inr (full, e) ↦ elim (Option-cases (lookup fd c.fd_redir_map)) [
      | inl absent ↦ ground (arith, p.both fd)
      | inr (remote, e') ↦ inr (full, (remote, e, e'))
    ]
  ]

  pub remote_read-IsPaired :
      (fd count n : ℤ) (c d : Client h.World)
      → IsPaired c
      → remote_read h fd count c ≡ returns n d
      → IsPaired d
  unfolding remote_read file_tracked
  remote_read-IsPaired fd count n c d p e = elim (at c fd p) [
    | inl absent ↦ same-IsPaired c d p (ground (arith, p, absent))
    | inr (full, (remote, known, far)) ↦ same-IsPaired c d p (
        ask_read-SameTables h fd count minus_one n c d full remote p.quiet known far
          (ground (arith, known)))
  ]

  pub remote_pread-IsPaired :
      (fd count offset n : ℤ) (c d : Client h.World)
      → IsPaired c
      → remote_pread h fd count offset c ≡ returns n d
      → IsPaired d
  unfolding remote_pread has_remote file_tracked redir_at index
  remote_pread-IsPaired fd count offset n c d p e = elim (at c fd p) [
    | inl absent ↦ same-IsPaired c d p (ground (arith, p, absent))
    | inr (full, (remote, known, far)) ↦ elim (Bool-cases (eqz remote (pos 0))) [
      | inl zero ↦ same-IsPaired c d p (ground (arith, p, known, far, zero))
      | inr not_zero ↦ same-IsPaired c d p (
          ask_read-SameTables h fd count offset n c d full remote p.quiet known far
            (ground (arith, known, far, not_zero)))
    ]
  ]

  pub remote_lseek-IsPaired :
      (fd offset whence n : ℤ) (c d : Client h.World)
      → IsPaired c
      → remote_lseek h fd offset whence c ≡ returns n d
      → IsPaired d
  unfolding remote_lseek file_tracked
  remote_lseek-IsPaired fd offset whence n c d p e = elim (at c fd p) [
    | inl absent ↦ same-IsPaired c d p (ground (arith, p, absent))
    | inr (full, (remote, known, far)) ↦ same-IsPaired c d p (
        ask_seek-SameTables h fd offset whence n c d full remote p.quiet known far
          (ground (arith, known)))
  ]

  pub remove_fd-IsPaired :
      (fd : ℤ) (erased : Bool) (c d : Client h.World)
      → IsPaired c
      → remove_fd h fd c ≡ returns erased d
      → IsPaired d
  unfolding remove_fd remote_close file_tracked
  remove_fd-IsPaired fd erased c d p e = elim (at c fd p) [
    | inl absent ↦
        erase-IsPaired c d fd p (ground (arith, absent))
          (ground (arith, absent, p.both fd, erase_missing fd c.fd_redir_map))
          (ground (arith, absent))
    | inr (full, (remote, known, far)) ↦
        let after = remove_fd-tables h fd c d erased full remote known far e in
        erase-IsPaired c d fd p after.0 after.1 after.2
  ]

  -- The remote open of a descriptor that was just put into the first table.
  ask_open-IsPaired :
      (fd : ℤ) (full : Bytes) (tracked : Bool) (c c' d : Client h.World)
      → IsPaired c
      → c'.fd_map ≡ insert fd full c.fd_map
      → c'.fd_redir_map ≡ c.fd_redir_map
      → c'.pending ≡ c.pending
      → (do ask_open h fd; pure true) c' ≡ returns tracked d
      → IsPaired d
  ask_open-IsPaired fd full tracked c c' d p local far quiet e =
      elim (Outcome-cases (ask_open h fd c')) [
        | inl (r, (d', opens)) ↦
            let (remote, (paths, remotes, waits)) =
              ask_open-tables h fd c' d' full r (quiet ∙ p.quiet)
                (ground (arith, local, lookup-insert_self fd full c.fd_map)) opens in
            insert-IsPaired c d fd full remote p (ground (arith, opens, paths, local))
              (ground (arith, opens, remotes, far)) (ground (arith, opens, waits))
        | inr (s, (d', stopped)) ↦ ground (arith, stopped)
      ]

  pub track_file-IsPaired :
      (path : Bytes) (flags : ℕ) (fd : ℤ) (tracked : Bool) (c d : Client h.World)
      → IsPaired c
      → track_file h path flags fd c ≡ returns tracked d
      → IsPaired d
  unfolding track_file open_remote start_mercury
  track_file-IsPaired path flags fd tracked c d p e =
      elim (Option-cases (tracked_path h c path flags)) [
        | inl passed ↦ same-IsPaired c d p (ground (arith, passed))
        | inr (full, found) ↦ elim (Bool-cases c.mercury_init) [
          | inl started ↦
              ask_open-IsPaired fd full tracked c (record c { fd_map = insert fd full c.fd_map }) d
                p refl refl refl (ground (arith, found, started))
          | inr fresh ↦
              ask_open-IsPaired fd full tracked c
                (record c { fd_map = insert fd full c.fd_map; mercury_init = true }) d p refl refl
                refl (ground (arith, found, fresh))
        ]
      ]
