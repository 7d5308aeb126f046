-- ===== src/Logging/Defs.antt =====
-- hvac_init_logging, HVAC_finalize_logging and log_preformatter_internal.
use hvac_arc.Base.{
  ℕ, ◌+◌, ℤ, pos, int32, ltz, eqz, Bool, true, false, Option, none, some, [], ◌∷◌, ◌++◌,
  if◌then◌else◌, leb, eqb, Bytes, codes, length, take, Prog, returns, pure, modify, faults, stop,
  ◌>>=◌, ◌>>◌,
}
use hvac_arc.Text.{atoi, print_int}
use hvac_arc.CachePolicy.Init.{Env}

-- The macros that depend on which program is built.
pub record Build : Type 0 where
  pub cat_name : Bytes
  pub log_dir : Bytes
  pub log_name_prefix : Bytes

-- With HVAC_CLIENT.
abbrev pub client_build : Build
client_build = record {
  cat_name = codes "HVAC_CLIENT";
  log_dir = codes ".";
  log_name_prefix = codes "hvac_intercept_log";
}

-- With HVAC_SERVER.
abbrev pub server_build : Build
server_build = record {
  cat_name = codes "hvac_server";
  log_dir = codes ".";
  log_name_prefix = codes "hvac_server_log";
}

abbrev pub level_name : Bytes
level_name = codes "HVAC_LOG_LEVEL"

abbrev pub dir_name : Bytes
dir_name = codes "HVAC_LOG_DIR"

abbrev pub prefix_name : Bytes
prefix_name = codes "HVAC_LOG_PREFIX"

-- LOG4C_PRIORITY_FATAL and LOG4C_PRIORITY_TRACE, as the source says.
abbrev pub fatal : ℤ
fatal = pos 0

abbrev pub trace : ℤ
trace = pos 800

abbrev pub param_max_file_size : ℕ
param_max_file_size = 104857600

abbrev pub param_max_num_files : ℕ
param_max_num_files = 10

abbrev pub param_layout_to_use : Bytes
param_layout_to_use = codes "dated"

-- The calls that configure log4c, with what the source decides of their arguments.
pub data Setting : Type 0 where
  category_set_priority : ℤ → Setting
  appender_set_type : Bytes → Setting
  rollingfile_set_logdir rollingfile_set_files_prefix : Bytes → Setting
  rollingpolicy_set_type : Bytes → Setting
  sizewin_set_file_maxsize sizewin_set_max_num_files : ℕ → Setting
  rollingpolicy_set_udata rollingfile_set_policy appender_set_udata rollingpolicy_init : Setting
  appender_set_layout : Bytes → Setting
  category_set_appender fini : Setting

-- log4c and the process: not code of the repository. `write` is told whether the files that log4c
-- writes meanwhile are kept from the wrappers.
pub record Log4c : Type 1 where
  pub World : Type 0
  pub init : World → ℤ × World
  pub set : Setting → World → World
  pub write : (kept : Bool) → (category : Bytes) → (priority : ℕ) → Bytes → World → World
  pub notice : ℤ
  pub info : ℕ
  pub pid : ℕ
  pub file_name : Bytes

-- A thread of a process: `tl_disable_redirect`.
pub record Thread (World : Type 0) : Type 0 where
  pub world : World
  pub tl_disable_redirect : Bool

-- GNU `basename`: what follows the last slash.
abbrev pub after_slash : Bytes → Bytes → Bytes
after_slash last [] = last
after_slash last (c ∷ s) =
    let rest = after_slash last s in if eqb c b'/' then after_slash s s else rest

abbrev pub basename : Bytes → Bytes
basename path = after_slash path path

-- The bytes that `sprintf` puts into `size` bytes of memory; one more than fits is undefined
-- behaviour.
abbrev pub sprintf : {S : Type 0} → (size : ℕ) → Bytes → Prog S Bytes
sprintf size s = if leb (length s + 1) size then pure s else stop faults

-- `level`, brought into the range of log4c.
abbrev pub clamp : ℤ → ℤ
clamp level = if ltz level fatal then fatal else if ltz trace level then trace else level

module _ (l : Log4c) (build : Build) where
  abbrev pub Logs : Type 0 → Type 0
  Logs A = Prog (Thread l.World) A

  unfoldable pub set : Setting → Logs (Unit {0})
  set x = modify (λ t. record t { world = l.set x t.world })

  -- `"[%s:%d] %s"`, the line as an `int`.
  abbrev pub line_of : Bytes → ℕ → Bytes → Bytes
  line_of filename linenum text =
      b'['
      ∷ (basename filename ++ (b':' ∷ (print_int (int32 (pos linenum)) ++ (b']' ∷ b' ' ∷ text))))

  -- `log_preformatter_internal`, with the text that the format and its arguments give: `vsnprintf`
  -- keeps 1023 bytes of it.
  unfoldable pub log_preformatter_internal : ℕ → Bytes → ℕ → Bytes → Logs (Unit {0})
  unfolding print_int
  log_preformatter_internal priority filename linenum text = do
    modify (λ t. record t { tl_disable_redirect = true })
    modify (λ t. record t {
      world =
          l.write t.tl_disable_redirect build.cat_name priority
            (line_of filename linenum (take 1023 text)) t.world;
    })
    modify (λ t. record t { tl_disable_redirect = false })

  -- The priority of the root category, from HVAC_LOG_LEVEL.
  abbrev pub level_of : Option Bytes → ℤ
  level_of none = l.notice
  level_of (some level) = clamp (atoi level)

  abbrev pub dir_or_default : Option Bytes → Logs Bytes
  dir_or_default (some dir) = pure dir
  dir_or_default none = do
    log_preformatter_internal l.info l.file_name 87
        (codes "Using default log directory " ++ (build.log_dir ++ codes "\n"))
    pure build.log_dir

  abbrev pub prefix_or_default : Option Bytes → Logs Bytes
  prefix_or_default (some prefix) = pure prefix
  prefix_or_default none = do
    log_preformatter_internal l.info l.file_name 91
        (codes "Using default log prefix " ++ (build.log_name_prefix ++ codes "\n"))
    pure build.log_name_prefix

  -- `prefix_and_pid`, in the memory that is allocated for it.
  unfoldable pub prefix_and_pid : Bytes → Logs Bytes
  unfolding print_int
  prefix_and_pid prefix = sprintf (length prefix + 7) (prefix ++ (b'.' ∷ print_int (pos l.pid)))

  -- The rolling policy, the layout and the appender of the root category.
  unfoldable pub roll_files : Logs (Unit {0})
  unfolding set
  roll_files = do
    set (rollingpolicy_set_type (codes "sizewin"))
    set (sizewin_set_file_maxsize param_max_file_size)
    set (sizewin_set_max_num_files param_max_num_files)
    set rollingpolicy_set_udata
    set rollingfile_set_policy
    set appender_set_udata
    set rollingpolicy_init
    set (appender_set_layout param_layout_to_use)
    set category_set_appender

  -- The log's directory and the first part of its files' names.
  unfoldable pub name_file : Bytes → Bytes → Logs (Unit {0})
  unfolding set prefix_and_pid roll_files
  name_file dir prefix = do
    file ← prefix_and_pid prefix
    set (rollingfile_set_logdir dir)
    set (rollingfile_set_files_prefix file)
    roll_files

  -- `hvac_init_logging` once log4c has started.
  unfoldable pub configure : Env → Logs (Unit {0})
  unfolding set name_file
  configure getenv = do
    set (category_set_priority (level_of (getenv level_name)))
    set (appender_set_type (codes "rollingfile"))
    dir ← dir_or_default (getenv dir_name)
    prefix ← prefix_or_default (getenv prefix_name)
    name_file dir prefix

  -- `hvac_init_logging`: without log4c the process goes on without a log.
  unfoldable pub init_logging : Env → Logs (Unit {0})
  unfolding configure
  init_logging getenv t =
      let (rc, world) = l.init t.world in
      let started = record t { world = world } in
      if eqz rc (pos 0) then configure getenv started else returns tt started

  -- `HVAC_finalize_logging`.
  unfoldable pub finalize_logging : Logs (Unit {0})
  unfolding set
  finalize_logging = set fini
