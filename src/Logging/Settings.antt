-- ===== src/Logging/Settings.antt =====
-- What log4c sees of hvac_init_logging.
use hvac_arc.Base.{
  ℕ, ◌+◌, ◌≡◌, ℤ, pos, ltz, eqz, Option, none, some, ◌∷◌, ◌++◌, leb, length, true, false, arith,
  Bytes, ◌>>=◌, inl, inr, Bool-cases, state_of,
}
use hvac_arc.Text.{print_int, atoi}
use hvac_arc.CachePolicy.Init.{Env}
use hvac_arc.Logging.Defs.{
  Build, Log4c, Thread, Setting, level_name, dir_name, prefix_name, clamp, fatal, trace, level_of,
  dir_or_default, prefix_or_default, prefix_and_pid, roll_files, set, name_file,
  log_preformatter_internal, configure, init_logging, category_set_priority, appender_set_type,
  rollingfile_set_logdir, rollingfile_set_files_prefix, rollingpolicy_set_type,
  sizewin_set_file_maxsize, sizewin_set_max_num_files, rollingpolicy_set_udata,
  rollingfile_set_policy, appender_set_udata, rollingpolicy_init, appender_set_layout,
  category_set_appender, fini,
}

-- A level of log4c.
abbrev pub InRange : ℤ → Type 0
InRange level = (ltz level fatal ≡ false) × (ltz trace level ≡ false)

-- A priority that is set is in range.
abbrev pub IsValid : Setting → Type 0
IsValid (category_set_priority level) = InRange level
IsValid (appender_set_type s) = Unit
IsValid (rollingfile_set_logdir s) = Unit
IsValid (rollingfile_set_files_prefix s) = Unit
IsValid (rollingpolicy_set_type s) = Unit
IsValid (sizewin_set_file_maxsize n) = Unit
IsValid (sizewin_set_max_num_files n) = Unit
IsValid rollingpolicy_set_udata = Unit
IsValid rollingfile_set_policy = Unit
IsValid appender_set_udata = Unit
IsValid rollingpolicy_init = Unit
IsValid (appender_set_layout s) = Unit
IsValid category_set_appender = Unit
IsValid fini = Unit

clamp-InRange : (level : ℤ) → InRange (clamp level)
clamp-InRange level = ground arith

module _ (l : Log4c) (build : Build) (P : l.World → Type 0) where
  -- `P` holds through valid settings, and through messages that are kept from the wrappers.
  pub record Kept : Type 0 where
    pub sets : (x : Setting) (w : l.World) → IsValid x → P w → P (l.set x w)
    pub logs :
        (priority : ℕ) (text : Bytes) (w : l.World)
        → P w
        → P (l.write true build.cat_name priority text w)

  module _ (k : Kept) where
    name_file-keeps :
        (dir prefix : Bytes) (t : Thread l.World)
        → P t.world
        → P (state_of (name_file l build dir prefix t)).world
    unfolding name_file prefix_and_pid set roll_files
    name_file-keeps dir prefix t p =
        elim (Bool-cases
          (leb (length (prefix ++ (b'.' ∷ print_int (pos l.pid))) + 1) (length prefix + 7))) [
            | inl fits ↦ rw fits (
                k.sets _ _ tt (
                  k.sets _ _ tt (
                    k.sets _ _ tt (
                      k.sets _ _ tt (
                        k.sets _ _ tt (
                          k.sets _ _ tt (
                            k.sets _ _ tt (
                              k.sets _ _ tt
                                (k.sets _ _ tt (k.sets _ _ tt (k.sets _ _ tt p)))))))))))
            | inr long ↦ rw long p
          ]

    defaults-keeps :
        (dir prefix : Option Bytes) (t : Thread l.World)
        → P t.world
        → P
            (state_of (
              (do
                d ← dir_or_default l build dir
                p ← prefix_or_default l build prefix
                name_file l build d p)
                t)).world
    unfolding log_preformatter_internal
    defaults-keeps none none t p = name_file-keeps _ _ _ (k.logs _ _ _ (k.logs _ _ _ p))
    defaults-keeps none (some q) t p = name_file-keeps _ _ _ (k.logs _ _ _ p)
    defaults-keeps (some d) none t p = name_file-keeps _ _ _ (k.logs _ _ _ p)
    defaults-keeps (some d) (some q) t p = name_file-keeps _ _ _ p

    level_of-InRange : (o : Option Bytes) → InRange l.notice → InRange (level_of l build o)
    level_of-InRange none n = n
    level_of-InRange (some level) n = clamp-InRange (atoi level)

    configure-keeps :
        (getenv : Env) (t : Thread l.World)
        → InRange l.notice
        → P t.world
        → P (state_of (configure l build getenv t)).world
    unfolding configure set
    configure-keeps getenv t n p =
        defaults-keeps (getenv dir_name) (getenv prefix_name) _
          (k.sets _ _ tt (k.sets _ _ (level_of-InRange (getenv level_name) n) p))

    -- A property of log4c's state that holds through every setting of a level from FATAL to TRACE,
    -- through every other setting, and through messages that are written while the thread's flag
    -- keeps them from the wrappers, holds after `hvac_init_logging` if it holds after `log4c_init`,
    -- whatever the environment sets, and where the call ends in undefined behaviour too; the level
    -- NOTICE of log4c is taken to be such a level.
    pub init_logging-keeps :
        (getenv : Env) (t : Thread l.World)
        → InRange l.notice
        → P (l.init t.world).1
        → P (state_of (init_logging l build getenv t)).world
    unfolding init_logging
    init_logging-keeps getenv t n p = elim (Bool-cases (eqz (l.init t.world).0 (pos 0))) [
      | inl starts ↦
          rw starts (configure-keeps getenv (record t { world = (l.init t.world).1 }) n p)
      | inr fails ↦ rw fails p
    ]
