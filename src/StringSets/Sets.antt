-- ===== src/StringSets/Sets.antt =====
-- The Go types that implement `Set` (set.go, unit.go, ix.go, not.go, boolean.go) and `Contains`.
use want.Common.{ℕ, suc, ◌+◌, ◌≤◌, ◌≡◌, refl, Bool, true, false, ◌&&◌, ◌||◌, bnot, arith}
use want.Common.Text.{Str, str_eq, str_eq_refl, str_eq-eq, has_prefix, has_suffix}

pub data Set : Type 0 where
  top empty : Set
  unit prefix suffix : Str → Set
  not : Set → Set
  and or : Set → Set → Set

unfoldable pub contains : Set → Str → Bool
contains top x = true
contains empty x = false
contains (unit k) x = str_eq k x
contains (prefix p) x = has_prefix x p
contains (suffix s) x = has_suffix x s
contains (not a) x = bnot (contains a x)
contains (and l r) x = contains l x && contains r x
contains (or l r) x = contains l x || contains r x

-- `reflect.DeepEqual` on two sets.
unfoldable pub deep_equal : Set → Set → Bool
unfolding str_eq
deep_equal top top = true
deep_equal empty empty = true
deep_equal (unit a) (unit b) = str_eq a b
deep_equal (prefix a) (prefix b) = str_eq a b
deep_equal (suffix a) (suffix b) = str_eq a b
deep_equal (not a) (not b) = deep_equal a b
deep_equal (and a c) (and b d) = deep_equal a b && deep_equal c d
deep_equal (or a c) (or b d) = deep_equal a b && deep_equal c d
deep_equal _ _ = false

-- `Subtract`: a - b.
unfoldable pub subtract : Set → Set → Set
subtract a b = and a (not b)

-- The number of nodes.
unfoldable pub size : Set → ℕ
size (not a) = suc (size a)
size (and l r) = suc (size l + size r)
size (or l r) = suc (size l + size r)
size _ = 1

pub size-pos : (a : Set) → 1 ≤ size a
unfolding size
size-pos (not a) = omega arith
size-pos (and l r) = omega arith
size-pos _ = omega arith

pub deep_equal-eq : (a b : Set) → deep_equal a b ≡ true → a ≡ b
unfolding deep_equal
deep_equal-eq top top h = refl
deep_equal-eq empty empty h = refl
deep_equal-eq (unit a) (unit b) h = ground (arith, str_eq-eq a b h)
deep_equal-eq (prefix a) (prefix b) h = ground (arith, str_eq-eq a b h)
deep_equal-eq (suffix a) (suffix b) h = ground (arith, str_eq-eq a b h)
deep_equal-eq (not a) (not b) h = ground (arith, deep_equal-eq a b)
deep_equal-eq (and a c) (and b d) h = ground (arith, deep_equal-eq a b, deep_equal-eq c d)
deep_equal-eq (or a c) (or b d) h = ground (arith, deep_equal-eq a b, deep_equal-eq c d)
deep_equal-eq _ _ h = cc

pub deep_equal_refl : (a : Set) → deep_equal a a ≡ true
unfolding deep_equal
deep_equal_refl top = refl
deep_equal_refl empty = refl
deep_equal_refl (unit a) = str_eq_refl a
deep_equal_refl (prefix a) = str_eq_refl a
deep_equal_refl (suffix a) = str_eq_refl a
deep_equal_refl (not a) = deep_equal_refl a
deep_equal_refl (and a c) = ground (arith, deep_equal_refl a, deep_equal_refl c)
deep_equal_refl (or a c) = ground (arith, deep_equal_refl a, deep_equal_refl c)
