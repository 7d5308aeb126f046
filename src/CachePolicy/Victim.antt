-- ===== src/CachePolicy/Victim.antt =====
-- Which file `cache_policy_select_victim_for_eviction` names.
use hvac_arc.Base.{
  ◌≤◌, ◌≡◌, ◌≢◌, refl, ◌⊎◌, inl, inr, true, false, some, [], ◌∷◌, Bytes, bytes_ord, eq_bytes,
  eq_bytes_iff, returns, arith, Bool-cases,
}
use hvac_arc.OrderedMap.{Map, lookup, After, IsSorted, AllEntries, AllEntries-lookup, entries_found}
use hvac_arc.CachePolicy.Defs.{FileMeta, Policy}
use hvac_arc.CachePolicy.Eviction.{is_candidate, count_of, better, scan, select_victim}

-- A file that may go, under a path that is not empty.
pub record IsEvictable (m : Map Bytes FileMeta) (path : Bytes) (file : FileMeta) : Type 0 where
  pub recorded : lookup path m ≡ some file
  pub candidate : is_candidate file ≡ true
  pub named : path ≢ []

-- Of those, one with the fewest accesses.
pub record IsLeastUsed (m : Map Bytes FileMeta) (victim : Bytes) : Type 0 where
  pub file : FileMeta
  pub evictable : IsEvictable m victim file
  pub least :
      (path : Bytes) (other : FileMeta)
      → IsEvictable m path other
      → file.access_count ≤ other.access_count

-- What the call promises: no victim if no file may go, and otherwise a least used one.
pub data IsVictim (m : Map Bytes FileMeta) (victim : Bytes) : Type 0 where
  nobody :
      victim ≡ []
      → ((path : Bytes) (file : FileMeta) → ¬ IsEvictable m path file)
      → IsVictim m victim
  least_used : IsLeastUsed m victim → IsVictim m victim

module _ (m : Map Bytes FileMeta) where
  -- A victim so far: none, or an evictable file.
  abbrev IsChosen : Bytes → Type 0
  IsChosen victim = (victim ≡ []) ⊎ ((file : FileMeta) × IsEvictable m victim file)

  better_cases :
      (victim path : Bytes) (file : FileMeta)
      → (better m victim path file ≡ victim)
        ⊎ ((better m victim path file ≡ path) × (is_candidate file ≡ true))
  unfolding better
  better_cases victim path file = ground arith

  better-IsChosen :
      (victim path : Bytes) (file : FileMeta)
      → lookup path m ≡ some file
      → IsChosen victim
      → IsChosen (better m victim path file)
  better-IsChosen victim path file h c = elim (better_cases victim path file) [
    | inl stays ↦ rw stays c
    | inr (takes, candidate) ↦ rw takes (elim (Bool-cases (eq_bytes path [])) [
      | inl empty ↦ inl ((eq_bytes_iff path []).0 empty)
      | inr named ↦ inr (
        file,
        record {
          recorded = h;
          candidate = candidate;
          named = ground (arith, eq_bytes_iff path []);
        },
      )
    ])
  ]

  module _ (victim path : Bytes) (file : FileMeta) (h : lookup path m ≡ some file) where
    -- The victim after an entry counts no more than the entry.
    better-le :
        is_candidate file ≡ true
        → path ≢ []
        → (better m victim path file ≢ [])
          × (count_of m (better m victim path file) ≤ file.access_count)
    unfolding better
    better-le c n = ground (arith, eq_bytes_iff victim [])

    -- Nor more than the victim before.
    better-le_self :
        path ≢ []
        → victim ≢ []
        → (better m victim path file ≢ [])
          × (count_of m (better m victim path file) ≤ count_of m victim)
    unfolding better
    better-le_self n v = ground (arith, eq_bytes_iff victim [])

  abbrev IsFound : Bytes → FileMeta → Type 0
  IsFound path file = (lookup path m ≡ some file) × (path ≢ [])

  scan-IsChosen :
      (victim : Bytes) (rest : Map Bytes FileMeta)
      → AllEntries (λ path file. lookup path m ≡ some file) rest
      → IsChosen victim
      → IsChosen (scan m victim rest)
  unfolding scan
  scan-IsChosen victim [] a c = c
  scan-IsChosen victim ((path, file) ∷ rest) a c =
      scan-IsChosen (better m victim path file) rest a.1 (better-IsChosen victim path file a.0 c)

  scan-le_self :
      (victim : Bytes) (rest : Map Bytes FileMeta)
      → AllEntries IsFound rest
      → victim ≢ []
      → (scan m victim rest ≢ []) × (count_of m (scan m victim rest) ≤ count_of m victim)
  unfolding scan
  scan-le_self victim [] a v = (v, omega arith)
  scan-le_self victim ((path, file) ∷ rest) a v =
      let (named, le) = better-le_self victim path file a.0.0 a.0.1 v in
      let (rest_named, rest_le) = scan-le_self (better m victim path file) rest a.1 named in
      (rest_named, omega arith)

  -- The result of the scan names a file, and counts no more than any candidate that it passed.
  abbrev Beats : Bytes → Bytes → FileMeta → Type 0
  Beats victim path file =
      is_candidate file ≡ true → path ≢ [] → (victim ≢ []) × (count_of m victim ≤ file.access_count)

  scan-Beats :
      (victim : Bytes) (rest : Map Bytes FileMeta)
      → AllEntries IsFound rest
      → AllEntries (Beats (scan m victim rest)) rest
  unfolding scan
  scan-Beats victim [] a = tt
  scan-Beats victim ((path, file) ∷ rest) a =
      (head, scan-Beats (better m victim path file) rest a.1)
    where
      head : Beats (scan m (better m victim path file) rest) path file
      head c n =
          let (named, le) = better-le victim path file a.0.0 c n in
          let (rest_named, rest_le) = scan-le_self (better m victim path file) rest a.1 named in
          (rest_named, omega arith)

  zip-IsFound :
      (k : Bytes) (rest : Map Bytes FileMeta)
      → After k rest
      → AllEntries (λ path file. lookup path m ≡ some file) rest
      → AllEntries IsFound rest
  zip-IsFound k [] a h = tt
  zip-IsFound k ((j, file) ∷ rest) a h = ((h.0, ground (arith, a.0)), zip-IsFound k rest a.1 h.1)

-- The whole scan beats every entry of the map. An empty path can only be the first key, which the
-- scan passes over.
scan_all-Beats : (m : Map Bytes FileMeta) → IsSorted m → AllEntries (Beats m (scan m [] m)) m
unfolding scan
scan_all-Beats [] s = tt
scan_all-Beats ((k, file) ∷ rest) s = (head, scan-Beats m (better m [] k file) rest found)
  where
    m : Map Bytes FileMeta
    m = (k, file) ∷ rest

    all_found : AllEntries (λ path other. lookup path m ≡ some other) m
    all_found = entries_found m s

    found : AllEntries (IsFound m) rest
    found = zip-IsFound m k rest s.0 all_found.1

    head : Beats m (scan m (better m [] k file) rest) k file
    head c n =
        let (named, le) = better-le m [] k file all_found.0 c n in
        let (rest_named, rest_le) = scan-le_self m (better m [] k file) rest found named in
        (rest_named, omega arith)

scan_beats :
    (m : Map Bytes FileMeta)
    → IsSorted m
    → (path : Bytes) (file : FileMeta) → IsEvictable m path file
    → (scan m [] m ≢ []) × (count_of m (scan m [] m) ≤ file.access_count)
scan_beats m s path file e =
    AllEntries-lookup (Beats m (scan m [] m)) path m file (scan_all-Beats m s) e.recorded
      e.candidate e.named

scan-IsVictim : (m : Map Bytes FileMeta) → IsSorted m → IsVictim m (scan m [] m)
unfolding count_of
scan-IsVictim m s = elim (scan-IsChosen m [] m (entries_found m s) (inl refl)) [
  | inl nothing ↦ nobody nothing λ path file e. (scan_beats m s path file e).0 nothing
  | inr (file, chosen) ↦ least_used (record {
    file = file;
    evictable = chosen;
    least = λ path other e. ground (arith, chosen.recorded, scan_beats m s path other e);
  })
]

-- On a map whose keys are in order, and with the lock free, whatever the counters and capacities
-- are, the call returns and changes nothing.
-- Its result is empty exactly if no closed file in PM has a path that is not empty; otherwise it is
-- the path of such a file, with the fewest accesses among them.
pub select_victim_lem :
    (p : Policy)
    → IsSorted p.files
    → p.locked ≡ false
    → (victim : Bytes) × (select_victim p ≡ returns victim p) × IsVictim p.files victim
unfolding select_victim
select_victim_lem p s free = (scan p.files [] p.files, ground arith, scan-IsVictim p.files s)
