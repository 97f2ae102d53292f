-- ===== src/Common/Decimal.antt =====
-- `fmt` of a number with `%d`: decimal digits.
use Prim.Native.Nat.{ℕ, zero, suc, ◌+◌, ◌-◌, ◌*◌, ◌/◌, ◌%◌, ◌<◌}
use mathlib.Core.Path.{◌≡◌, refl, ◌∙◌}
use mathlib.Core.List.{[], ◌∷◌, ◌++◌}
use mathlib.Core.Logic.{inl, inr}
use native.Mathlib.Omega.{arith}
use want.Common.Tests.{ltb, if◌then◌else◌, Bool-cases}
use want.Common.Text.{Str}

-- The digits of `n` without padding, on fuel for their number.
unfoldable pub decimal_digits : ℕ → ℕ → Str
decimal_digits zero n = []
decimal_digits (suc f) n =
    let rest = decimal_digits f (n / 10) in
    if ltb n 10 then (n + 48) ∷ [] else rest ++ (n % 10 + 48) ∷ []

unfoldable pub decimal : ℕ → Str
unfolding decimal_digits
decimal n = decimal_digits (suc n) n

-- The number that digits stand for, behind `n`.
abbrev pub number_from : ℕ → Str → ℕ
number_from n [] = n
number_from n (c ∷ s) = number_from (10 * n + (c - 48)) s

number_from-append :
    (n : ℕ) (s : Str) (c : ℕ) → number_from n (s ++ c ∷ []) ≡ 10 * number_from n s + (c - 48)
number_from-append n [] c = refl
number_from-append n (d ∷ s) c = number_from-append (10 * n + (d - 48)) s c

number_from-decimal_digits : (f n : ℕ) → n < f → number_from 0 (decimal_digits f n) ≡ n
unfolding decimal_digits
number_from-decimal_digits zero n h = absurd (omega (arith, h))
number_from-decimal_digits (suc f) n h = elim (Bool-cases (ltb n 10)) [
  | inl e ↦ rw e (omega arith)
  | inr e ↦
      let big : 10 < suc n = ground (arith, e) in
      let rest = number_from-decimal_digits f (n / 10) (omega (arith, h, big)) in
      rw e (number_from-append 0 (decimal_digits f (n / 10)) (n % 10 + 48) ∙ omega (arith, rest))
]

-- Reading the digits of a number gives the number.
pub number_from-decimal : (n : ℕ) → number_from 0 (decimal n) ≡ n
unfolding decimal
number_from-decimal n = number_from-decimal_digits (suc n) n (omega arith)
