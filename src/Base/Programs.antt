-- ===== src/Base/Programs.antt =====
-- Code that changes a state, and that may end the process or never return.
use mathlib.Core.Path.{◌≡◌, refl}
use mathlib.Core.Logic.{◌⊎◌, inl, inr}
use mathlib.Core.Bool.{Bool}
use hvac_arc.Base.Int.{ℤ}
use hvac_arc.Base.Tests.{if◌then◌else◌}

-- Why a call does not return: `exit`, a failed `assert`, a lock that is never released, undefined
-- behaviour, an exception.
pub data Stop : Type 0 where
  exits : ℤ → Stop
  aborts hangs faults throws : Stop

pub data Outcome {ℓ κ} (S : Type ℓ) (A : Type κ) : Type (ℓ ⊔ κ) where
  returns : A → S → Outcome S A
  stops : Stop → S → Outcome S A

abbrev pub Prog {ℓ κ} : Type ℓ → Type κ → Type (ℓ ⊔ κ)
Prog S A = S → Outcome S A

module _ {ℓ κ} {S : Type ℓ} {A : Type κ} where
  abbrev pub pure : A → Prog S A
  pure a s = returns a s

  abbrev pub stop : Stop → Prog S A
  stop e s = stops e s

  abbrev pub gets : (S → A) → Prog S A
  gets f s = returns (f s) s

abbrev pub modify {ℓ} : {S : Type ℓ} → (S → S) → Prog S (Unit {0})
modify f s = returns tt (f s)

-- What follows a step.
abbrev pub continue {ℓ κ μ} :
    {S : Type ℓ} {A : Type κ} {B : Type μ} → (A → Prog S B) → Outcome S A → Outcome S B
continue f (returns a s) = f a s
continue f (stops e s) = stops e s

infixl 5 ◌>>=◌ ◌>>◌
abbrev pub ◌>>=◌ {ℓ κ μ} :
    {S : Type ℓ} {A : Type κ} {B : Type μ} → Prog S A → (A → Prog S B) → Prog S B
◌>>=◌ m f s = continue f (m s)

abbrev pub ◌>>◌ {ℓ μ} : {S : Type ℓ} {B : Type μ} → Prog S (Unit {0}) → Prog S B → Prog S B
m >> k = m >>= λ _. k

-- `assert(b)`, in a build without NDEBUG.
abbrev pub assert {ℓ} : {S : Type ℓ} → Bool → Prog S (Unit {0})
assert b = if b then pure tt else stop aborts

-- The state that a call leaves.
abbrev pub state_of {ℓ κ} : {S : Type ℓ} {A : Type κ} → Outcome S A → S
state_of (returns a s) = s
state_of (stops e s) = s

pub Outcome-cases {ℓ κ} :
    {S : Type ℓ} {A : Type κ} (o : Outcome S A)
    → ((a : A) × ((s : S) × (o ≡ returns a s))) ⊎ ((e : Stop) × ((s : S) × (o ≡ stops e s)))
Outcome-cases (returns a s) = inl (a, (s, refl))
Outcome-cases (stops e s) = inr (e, (s, refl))
