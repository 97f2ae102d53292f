-- ===== src/Common/Outcome.antt =====
-- The result of a Go function that may panic, with the model's own case for a loop out of fuel.
use mathlib.Core.Path.{◌≡◌, refl}

pub data Outcome {ℓ} (A : Type ℓ) : Type ℓ where
  out_of_fuel panic : Outcome A
  done : A → Outcome A

-- What stands behind a call runs only if the call returns.
infixl 5 ◌>>=◌
abbrev pub ◌>>=◌ {ℓ κ} : {A : Type ℓ} {B : Type κ} → Outcome A → (A → Outcome B) → Outcome B
◌>>=◌ call next = elim call [ out_of_fuel ↦ out_of_fuel | panic ↦ panic | done x ↦ next x ]

module _ {ℓ κ} {A : Type ℓ} {B : Type κ} (next : A → Outcome B) {y : B} where
  -- A composite that returns has a first part that returned.
  pub bind_done :
      (call : Outcome A) (h : (call >>= next) ≡ done y)
      → (x : A) × (call ≡ done x) × (next x ≡ done y)
  bind_done out_of_fuel h = cc
  bind_done panic h = cc
  bind_done (done x) h = (x, refl, h)

pub done_inj : {A : Type 0} {x y : A} → ◌≡◌ {A = Outcome A} (done x) (done y) → x ≡ y
done_inj e = cc
