-- ===== src/Client/DataDir.antt =====
-- The directory test of `hvac_track_file`: `ppath.find(test) != npos`.
use hvac_arc.Base.{
  ℕ, ◌≡◌, refl, ap, ◌↔◌, true, false, some, [], ◌∷◌, ◌++◌, inl, inr, Bytes, starts_with, contains,
  codes, arith, Bool-cases,
}
use hvac_arc.Host.{Host}
use hvac_arc.Client.Defs.{Client}
use hvac_arc.Client.Files.{in_data_dir, tracked_path, parent_path, write_only, appends}

starts_with_append : (s t : Bytes) → starts_with s (s ++ t) ≡ true
starts_with_append [] t = refl
starts_with_append (a ∷ s) t = ground (arith, starts_with_append s t)

starts_with_split : (s t : Bytes) → starts_with s t ≡ true → (after : Bytes) × (t ≡ s ++ after)
starts_with_split [] t h = (t, refl)
starts_with_split (a ∷ s) [] h = absurd (ground arith)
starts_with_split (a ∷ s) (b ∷ t) h =
    let (after, e) = starts_with_split s t (ground arith) in (after, ground arith)

contains_append : (before s after : Bytes) → contains (before ++ (s ++ after)) s ≡ true
contains_append [] [] [] = refl
contains_append [] [] (c ∷ after) = refl
contains_append [] (a ∷ s) after = ground (arith, starts_with_append (a ∷ s) after)
contains_append (b ∷ before) s after = ground (arith, contains_append before s after)

contains_split :
    (t s : Bytes)
    → contains t s ≡ true
    → (before : Bytes) × ((after : Bytes) × (t ≡ before ++ (s ++ after)))
contains_split [] s h = ([], starts_with_split s [] h)
contains_split (b ∷ t) s h = elim (Bool-cases (starts_with s (b ∷ t))) [
  | inl here ↦ ([], starts_with_split s (b ∷ t) here)
  | inr later ↦
      let (before, rest) = contains_split t s (ground arith) in
      (b ∷ before, (rest.0, ap (◌∷◌ b) rest.1))
]

module _ (h : Host) (c : Client h.World) (dir test : Bytes) where
  -- With HVAC_DATA_DIR set and its canonical path known, a file is taken for one of the data set
  -- exactly if the path of its directory holds that canonical path anywhere, as text.
  pub in_data_dir_iff :
      (full : Bytes)
      → c.data_dir ≡ some dir
      → h.canonical dir c.world ≡ some test
      → (in_data_dir h c full ≡ true)
        ↔ ((before : Bytes) × ((after : Bytes) × (parent_path full ≡ before ++ (test ++ after))))
  unfolding in_data_dir
  in_data_dir_iff full set there = (
    (λ e. contains_split (parent_path full) test (ground arith)),
    λ s. ground (arith, contains_append s.0 test s.1.0, s.1.1),
  )

  -- With HVAC_DATA_DIR set, a file that is not opened write-only or for appending, and is no
  -- address file, is tracked also if the path of its directory is the data directory's with more
  -- text behind it: in `/data2` where the data is in `/data`.
  pub tracked_path_sibling :
      (path full suffix : Bytes) (flags : ℕ)
      → c.data_dir ≡ some dir
      → h.canonical dir c.world ≡ some test
      → h.canonical path c.world ≡ some full
      → parent_path full ≡ test ++ suffix
      → contains path (codes ".ports.cfg.") ≡ false
      → write_only flags ≡ false
      → appends flags ≡ false
      → tracked_path h c path flags ≡ some full
  unfolding tracked_path
  tracked_path_sibling path full suffix flags set there known sibling ports reads in_place =
      let inside : in_data_dir h c full ≡ true =
        (in_data_dir_iff full set there).1 ([], (suffix, sibling)) in
      ground arith
