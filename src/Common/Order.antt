-- ===== src/Common/Order.antt =====
-- The order of Go strings, byte by byte.
use mathlib.Core.Path.{◌≡◌, refl}
use mathlib.Core.Bool.{Bool, true, false, ◌&&◌, ◌||◌}
use mathlib.Core.List.{[], ◌∷◌}
use native.Mathlib.Omega.{arith}
use want.Common.Tests.{◌==◌, ltb}
use want.Common.Text.{Str, str_eq}

-- `s < t`.
unfoldable pub str_lt : Str → Str → Bool
str_lt [] [] = false
str_lt [] (b ∷ t) = true
str_lt (a ∷ s) [] = false
str_lt (a ∷ s) (b ∷ t) = ltb a b || (a == b) && str_lt s t

pub str_lt_irrefl : (s : Str) → str_lt s s ≡ false
unfolding str_lt
str_lt_irrefl [] = refl
str_lt_irrefl (a ∷ s) = ground (arith, str_lt_irrefl s)

pub str_lt_trans : (s t u : Str) → str_lt s t ≡ true → str_lt t u ≡ true → str_lt s u ≡ true
unfolding str_lt
str_lt_trans [] [] u h k = cc
str_lt_trans [] (b ∷ t) [] h k = cc
str_lt_trans [] (b ∷ t) (c ∷ u) h k = refl
str_lt_trans (a ∷ s) [] u h k = cc
str_lt_trans (a ∷ s) (b ∷ t) [] h k = cc
str_lt_trans (a ∷ s) (b ∷ t) (c ∷ u) h k = ground (arith, str_lt_trans s t u)

-- Of two strings that differ, one is less.
pub str_lt-total : (s t : Str) → str_lt s t ≡ false → str_eq s t ≡ false → str_lt t s ≡ true
unfolding str_lt str_eq
str_lt-total [] [] h k = cc
str_lt-total [] (b ∷ t) h k = cc
str_lt-total (a ∷ s) [] h k = refl
str_lt-total (a ∷ s) (b ∷ t) h k = ground (arith, str_lt-total s t)

pub str_lt-asymm : (s t : Str) → str_lt s t ≡ true → (str_lt t s ≡ false) × (str_eq t s ≡ false)
unfolding str_lt str_eq
str_lt-asymm [] [] h = cc
str_lt-asymm [] (b ∷ t) h = (refl, refl)
str_lt-asymm (a ∷ s) [] h = cc
str_lt-asymm (a ∷ s) (b ∷ t) h = ground (arith, str_lt-asymm s t)
