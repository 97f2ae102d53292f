-- ===== src/Common/Text.antt =====
-- Go strings as lists of bytes: `==`, `strings.HasPrefix`, `strings.HasSuffix`, and their laws.
use Prim.Native.Nat.{ℕ}
use Prim.Native.Char.{code}
use Prim.Native.String.{String}
use mathlib.Core.Path.{◌≡◌, refl}
use mathlib.Core.Logic.{◌⊎◌, inl, inr}
use mathlib.Core.Bool.{Bool, true, false, ◌&&◌}
use mathlib.Core.List.{List, [], ◌∷◌, ◌++◌, reverse}
use native.Mathlib.Omega.{arith}
use want.Common.Tests.{◌==◌}

abbrev pub Str : Type 0
Str = List ℕ

-- The bytes of an ASCII text.
abbrev pub bytes : String → Str
bytes String.[] = []
bytes (String.◌∷◌ c s) = code c ∷ bytes s

unfoldable pub str_eq : Str → Str → Bool
str_eq [] [] = true
str_eq (a ∷ s) (b ∷ t) = (a == b) && str_eq s t
str_eq _ _ = false

unfoldable pub has_prefix : Str → Str → Bool
has_prefix s [] = true
has_prefix [] (b ∷ p) = false
has_prefix (a ∷ s) (b ∷ p) = (a == b) && has_prefix s p

unfoldable pub has_suffix : Str → Str → Bool
unfolding has_prefix
has_suffix s p = has_prefix (reverse s) (reverse p)

pub str_eq_refl : (s : Str) → str_eq s s ≡ true
unfolding str_eq
str_eq_refl [] = refl
str_eq_refl (a ∷ s) = ground (arith, str_eq_refl s)

pub str_eq-eq : (s t : Str) → str_eq s t ≡ true → s ≡ t
unfolding str_eq
str_eq-eq [] [] h = refl
str_eq-eq (a ∷ s) (b ∷ t) h = ground (arith, str_eq-eq s t)
str_eq-eq [] (b ∷ t) h = cc
str_eq-eq (a ∷ s) [] h = cc

pub has_prefix_refl : (s : Str) → has_prefix s s ≡ true
unfolding has_prefix
has_prefix_refl [] = refl
has_prefix_refl (a ∷ s) = ground (arith, has_prefix_refl s)

pub has_prefix_trans :
    (s t u : Str) → has_prefix s t ≡ true → has_prefix t u ≡ true → has_prefix s u ≡ true
unfolding has_prefix
has_prefix_trans s t [] h k = refl
has_prefix_trans s [] (c ∷ u) h k = cc
has_prefix_trans [] (b ∷ t) (c ∷ u) h k = cc
has_prefix_trans (a ∷ s) (b ∷ t) (c ∷ u) h k = ground (arith, has_prefix_trans s t u)

-- Of two prefixes of one string, one is a prefix of the other.
pub has_prefix-chain :
    (s p q : Str)
    → has_prefix s p ≡ true
    → has_prefix s q ≡ true
    → (has_prefix p q ≡ true) ⊎ (has_prefix q p ≡ true)
unfolding has_prefix
has_prefix-chain s p [] h k = inl refl
has_prefix-chain s [] (c ∷ q) h k = inr refl
has_prefix-chain [] (b ∷ p) (c ∷ q) h k = cc
has_prefix-chain (a ∷ s) (b ∷ p) (c ∷ q) h k = ground (arith, has_prefix-chain s p q)

pub has_prefix-append : (p s : Str) → has_prefix (p ++ s) p ≡ true
unfolding has_prefix
has_prefix-append [] s = refl
has_prefix-append (a ∷ p) s = ground (arith, has_prefix-append p s)

pub has_prefix_antisymm : (s t : Str) → has_prefix s t ≡ true → has_prefix t s ≡ true → s ≡ t
unfolding has_prefix
has_prefix_antisymm [] [] h k = refl
has_prefix_antisymm [] (b ∷ t) h k = cc
has_prefix_antisymm (a ∷ s) [] h k = cc
has_prefix_antisymm (a ∷ s) (b ∷ t) h k = ground (arith, has_prefix_antisymm s t)

pub has_suffix_refl : (s : Str) → has_suffix s s ≡ true
unfolding has_suffix
has_suffix_refl s = has_prefix_refl (reverse s)

pub has_suffix_trans :
    (s t u : Str) → has_suffix s t ≡ true → has_suffix t u ≡ true → has_suffix s u ≡ true
unfolding has_suffix
has_suffix_trans s t u = has_prefix_trans (reverse s) (reverse t) (reverse u)

pub has_suffix-chain :
    (s p q : Str)
    → has_suffix s p ≡ true
    → has_suffix s q ≡ true
    → (has_suffix p q ≡ true) ⊎ (has_suffix q p ≡ true)
unfolding has_suffix
has_suffix-chain s p q = has_prefix-chain (reverse s) (reverse p) (reverse q)

pub has_prefix-empty : (s p : Str) → str_eq p [] ≡ true → has_prefix s p ≡ true
unfolding has_prefix str_eq
has_prefix-empty s [] h = refl
has_prefix-empty s (b ∷ p) h = cc

pub has_suffix-empty : (s p : Str) → str_eq p [] ≡ true → has_suffix s p ≡ true
unfolding has_suffix str_eq
has_suffix-empty s [] h = refl
has_suffix-empty s (b ∷ p) h = cc
