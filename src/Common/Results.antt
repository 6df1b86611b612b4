-- ===== src/Common/Results.antt =====
-- `outcome::result` (src/core/common/outcome.hpp): a value or an error code, and the chain
-- `if (not result.has_error()) result = ...` over a state that the calls change in place.
use mathlib.Core.Path.{◌≡◌, refl}
use mathlib.Core.Logic.{◌⊎◌, inl, inr}
use mathlib.Core.Bool.{Bool, true, false}

pub data Outcome {ℓ} (E : Type 0) (A : Type ℓ) : Type ℓ where
  success : A → Outcome E A
  failure : E → Outcome E A

module _ {ℓ κ} {E : Type 0} {A : Type ℓ} {B : Type κ} where
  infixl 5 ◌>>=◌
  abbrev pub ◌>>=◌ : Outcome E A → (A → Outcome E B) → Outcome E B
  success a >>= f = f a
  failure e >>= f = failure e

pub has_error {ℓ} : {E : Type 0} {A : Type ℓ} → Outcome E A → Bool
has_error (success a) = false
has_error (failure e) = true

pub Outcome-cases {ℓ} :
    {E : Type 0} {A : Type ℓ} (r : Outcome E A)
    → ((a : A) × (r ≡ success a)) ⊎ ((e : E) × (r ≡ failure e))
Outcome-cases (success a) = inl (a, refl)
Outcome-cases (failure e) = inr (e, refl)
