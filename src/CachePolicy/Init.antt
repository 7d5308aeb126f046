-- ===== src/CachePolicy/Init.antt =====
-- `cache_policy_init`, over the environment of the process.
use hvac_arc.Base.{
  ℕ, ◌≡◌, ℤ, pos, minus_one, Bool, true, false, ◌||◌, Option, none, some, if◌then◌else◌, Bytes,
  codes, Prog, exits, faults, throws, returns, stops, pure, modify, stop, ◌>>=◌, ◌>>◌, arith,
}
use hvac_arc.Text.{stoull}
use hvac_arc.CachePolicy.Defs.{Policy}

-- `getenv`: no value stands for NULL.
abbrev pub Env : Type 0
Env = Bytes → Option Bytes

abbrev pub fsdax_path_name : Bytes
fsdax_path_name = codes "HVAC_FSDAX_PATH"

abbrev pub ssd_path_name : Bytes
ssd_path_name = codes "HVAC_SSD_PATH"

abbrev pub pm_capacity_name : Bytes
pm_capacity_name = codes "HVAC_PM_CAPACITY"

abbrev pub fsdax_capacity_name : Bytes
fsdax_capacity_name = codes "HVAC_FSDAX_CAPACITY"

abbrev pub ssd_capacity_name : Bytes
ssd_capacity_name = codes "HVAC_SSD_CAPACITY"

abbrev pub is_null : Option Bytes → Bool
is_null none = true
is_null (some s) = false

-- `std::string = getenv(..)`; a null pointer is undefined behaviour.
abbrev pub as_string : Option Bytes → Prog Policy Bytes
as_string none = stop faults
as_string (some s) = pure s

-- `std::stoull(getenv(..))`, whose exceptions nobody catches.
abbrev pub as_capacity : Option Bytes → Prog Policy ℕ
as_capacity none = stop faults
as_capacity (some s) = elim (stoull s) [ none ↦ stop throws | some n ↦ pure n ]

abbrev pub read_settings : Env → Prog Policy ℤ
read_settings getenv = do
  fsdax_path ← as_string (getenv fsdax_path_name)
  modify (λ p. record p { fsdax_path = fsdax_path })
  ssd_path ← as_string (getenv ssd_path_name)
  modify (λ p. record p { ssd_path = ssd_path })
  fsdax_capacity ← as_capacity (getenv fsdax_capacity_name)
  modify (λ p. record p { fsdax_capacity = fsdax_capacity })
  ssd_capacity ← as_capacity (getenv ssd_capacity_name)
  modify (λ p. record p { ssd_capacity = ssd_capacity })
  pure (pos 0)

unfoldable pub cache_policy_init : Env → Prog Policy ℤ
cache_policy_init getenv =
    if is_null (getenv fsdax_path_name)
      || (is_null (getenv ssd_path_name)
          || (is_null (getenv pm_capacity_name) || is_null (getenv ssd_capacity_name)))
    then stop (exits minus_one)
    else read_settings getenv

module _ (getenv : Env) (p : Policy) where
  -- With both paths, HVAC_PM_CAPACITY and both tier capacities set, and the tier capacities
  -- numbers, the function returns 0 and has both paths and both tier capacities from the
  -- environment.
  pub cache_policy_init_lem :
      {fsdax_path ssd_path pm_capacity fsdax_text ssd_text : Bytes} {m n : ℕ}
      → getenv fsdax_path_name ≡ some fsdax_path
      → getenv ssd_path_name ≡ some ssd_path
      → getenv pm_capacity_name ≡ some pm_capacity
      → getenv fsdax_capacity_name ≡ some fsdax_text
      → getenv ssd_capacity_name ≡ some ssd_text
      → stoull fsdax_text ≡ some m
      → stoull ssd_text ≡ some n
      → cache_policy_init getenv p
        ≡ returns (pos 0) (record p {
          fsdax_path = fsdax_path;
          ssd_path = ssd_path;
          fsdax_capacity = m;
          ssd_capacity = n;
        })
  unfolding cache_policy_init
  cache_policy_init_lem a b c d e f g = ground arith

  -- With the four variables set that the function tests, but not HVAC_FSDAX_CAPACITY, which it
  -- reads and does not test, it reads through a null pointer.
  pub cache_policy_init_faults :
      {fsdax_path ssd_path pm_capacity ssd_text : Bytes}
      → getenv fsdax_path_name ≡ some fsdax_path
      → getenv ssd_path_name ≡ some ssd_path
      → getenv pm_capacity_name ≡ some pm_capacity
      → getenv ssd_capacity_name ≡ some ssd_text
      → getenv fsdax_capacity_name ≡ none
      → cache_policy_init getenv p
        ≡ stops faults (record p { fsdax_path = fsdax_path; ssd_path = ssd_path })
  unfolding cache_policy_init
  cache_policy_init_faults a b c d e = ground arith
