-- ===== src/Common/Result.antt =====
-- A Go pair of a value and an error, of which one is meant.
use mathlib.Core.Path.{◌≡◌, refl}
use mathlib.Core.Logic.{◌⊎◌, inl, inr}

pub data Result (E A : Type 0) : Type 0 where
  err : E → Result E A
  ok : A → Result E A

-- `if err != nil { return err }` behind a call.
infixl 5 ◌>>=◌
abbrev pub ◌>>=◌ : {E A B : Type 0} → Result E A → (A → Result E B) → Result E B
◌>>=◌ call next = elim call [ err e ↦ err e | ok x ↦ next x ]

-- The same, where `>>=` stands for other calls.
abbrev pub if_ok : {E A B : Type 0} → Result E A → (A → Result E B) → Result E B
if_ok (err e) next = err e
if_ok (ok x) next = next x

pub Result-cases :
    {E A : Type 0} (call : Result E A) → ((x : A) × (call ≡ ok x)) ⊎ ((e : E) × (call ≡ err e))
Result-cases (err e) = inr (e, refl)
Result-cases (ok x) = inl (x, refl)

module _ {E A B : Type 0} (next : A → Result E B) {y : B} where
  -- A composite without an error has a first part without one.
  pub bind_ok :
      (call : Result E A) (h : (call >>= next) ≡ ok y) → (x : A) × (call ≡ ok x) × (next x ≡ ok y)
  bind_ok (err e) h = cc
  bind_ok (ok x) h = (x, refl, h)

  pub both_ok :
      (call : Result E A) (h : if_ok call next ≡ ok y) → (x : A) × (call ≡ ok x) × (next x ≡ ok y)
  both_ok (err e) h = cc
  both_ok (ok x) h = (x, refl, h)

pub ok_inj : {E A : Type 0} {x y : A} → ◌≡◌ {A = Result E A} (ok x) (ok y) → x ≡ y
ok_inj e = cc
