-- ===== src/CachePolicy/Defs.antt =====
-- The metadata and the globals of hvac_cache_policy.cpp. `locked` is `g_cacheMutex`.
use hvac_arc.Base.{
  ℕ, Bool, true, false, [], if◌then◌else◌, Bytes, Prog, Outcome, returns, stops, hangs,
}
use hvac_arc.OrderedMap.{Map}

pub data Tier : Type 0 where
  fsdax ssd pfs unknown : Tier

pub record FileMeta : Type 0 where
  pub path : Bytes
  pub current_tier : Tier
  pub size : ℕ
  pub access_count : ℕ
  pub is_open : Bool

pub record Policy : Type 0 where
  pub files : Map Bytes FileMeta
  pub fsdax_capacity : ℕ
  pub ssd_capacity : ℕ
  pub fsdax_path : Bytes
  pub ssd_path : Bytes
  pub fsdax_used : ℕ
  pub ssd_used : ℕ
  pub locked : Bool

-- The globals before `main`.
abbrev pub initial : Policy
initial = record {
  files = [];
  fsdax_capacity = 0;
  ssd_capacity = 0;
  fsdax_path = [];
  ssd_path = [];
  fsdax_used = 0;
  ssd_used = 0;
  locked = false;
}

abbrev pub same_tier : Tier → Tier → Bool
same_tier fsdax fsdax = true
same_tier ssd ssd = true
same_tier pfs pfs = true
same_tier unknown unknown = true
same_tier _ _ = false

-- The end of the guard's scope. A process that has ended unlocks nothing.
abbrev pub unlock {ℓ} : {A : Type ℓ} → Outcome Policy A → Outcome Policy A
unlock (returns a p) = returns a (record p { locked = false })
unlock (stops e p) = stops e p

-- `std::lock_guard` over a `std::mutex`, which is not recursive: a thread that holds it and takes
-- it again waits for itself.
abbrev pub with_lock {ℓ} : {A : Type ℓ} → Prog Policy A → Prog Policy A
with_lock body p = if p.locked then stops hangs p else unlock (body (record p { locked = true }))
