-- ===== src/Logging/Buffer.antt =====
-- The memory of `prefix_and_pid` in hvac_init_logging.
use hvac_arc.Base.{
  ◌+◌, ◌<◌, ◌≤◌, ◌≡◌, pos, Option, none, some, ◌∷◌, ◌++◌, ltb, leb, length, length-append, true,
  false, arith, Bytes, returns, stops, faults, Outcome, Bool, Bool-cases, state_of, ◌>>=◌, inl, inr,
  refl,
}
use hvac_arc.Text.{print_int}
use hvac_arc.CachePolicy.Init.{Env}
use hvac_arc.Logging.Defs.{
  Build, Log4c, Thread, dir_name, prefix_name, dir_or_default, prefix_or_default, prefix_and_pid,
  roll_files, set, name_file, log_preformatter_internal, configure, init_logging,
}
use hvac_arc.Logging.Digits.{length-print_int}

module _ (l : Log4c) (build : Build) where
  fits :
      (prefix : Bytes)
      → leb (length (prefix ++ (b'.' ∷ print_int (pos l.pid))) + 1) (length prefix + 7)
        ≡ ltb l.pid 100000
  fits prefix =
      ground (arith, length-append prefix (b'.' ∷ print_int (pos l.pid)), length-print_int l.pid)

  -- How a call ends, beside its state.
  abbrev Ends : Bool → Outcome (Thread l.World) (Unit {0}) → Type 0
  Ends true o = o ≡ returns tt (state_of o)
  Ends false o = o ≡ stops faults (state_of o)

  name_file-Ends :
      (dir prefix : Bytes) (t : Thread l.World)
      → Ends (ltb l.pid 100000) (name_file l build dir prefix t)
  unfolding name_file prefix_and_pid set roll_files
  name_file-Ends dir prefix t = elim (Bool-cases (ltb l.pid 100000)) [
    | inl short ↦ rw (fits prefix, short) refl
    | inr long ↦ rw (fits prefix, long) refl
  ]

  -- The same after the defaults, whichever the environment leaves to them.
  defaults-Ends :
      (dir prefix : Option Bytes) (t : Thread l.World)
      → Ends (ltb l.pid 100000) (
          (do
            d ← dir_or_default l build dir
            p ← prefix_or_default l build prefix
            name_file l build d p)
            t)
  unfolding log_preformatter_internal
  defaults-Ends none none t = name_file-Ends _ _ _
  defaults-Ends none (some p) t = name_file-Ends _ _ _
  defaults-Ends (some d) none t = name_file-Ends _ _ _
  defaults-Ends (some d) (some p) t = name_file-Ends _ _ _

  configure-Ends :
      (getenv : Env) (t : Thread l.World) → Ends (ltb l.pid 100000) (configure l build getenv t)
  unfolding configure set
  configure-Ends getenv t = defaults-Ends (getenv dir_name) (getenv prefix_name) _

  -- If log4c starts, `hvac_init_logging` returns while the process id has at most five digits, and
  -- writes past the memory that it allocated, which is undefined behaviour, if it has more; this
  -- whatever the environment sets and for both programs.
  pub init_logging-Fits :
      (getenv : Env) (t : Thread l.World)
      → (l.init t.world).0 ≡ pos 0
      → (l.pid < 100000 → (u : Thread l.World) × (init_logging l build getenv t ≡ returns tt u))
        × (100000 ≤ l.pid → (u : Thread l.World) × (init_logging l build getenv t ≡ stops faults u))
  unfolding init_logging
  init_logging-Fits getenv t starts =
      let u = state_of (init_logging l build getenv t) in
      let ends = configure-Ends getenv (record t { world = (l.init t.world).1 }) in
      (λ short. (u, ground (arith, ends)), λ long. (u, ground (arith, ends)))
