-- ===== src/StringSets/Answers.antt =====
-- Which answers of the three-valued methods can be relied on.
use want.Common.{ℕ, zero, suc, ◌+◌, ◌≡◌, refl, true, false, some, arith}
use want.Common.Text.{
  Str, str_eq-eq, has_prefix_trans, has_prefix-chain, has_suffix_trans, has_suffix-chain,
  has_prefix-empty, has_suffix-empty,
}
use want.StringSets.Sets.{
  Set, top, empty, unit, prefix, suffix, not, and, or, size, contains, deep_equal-eq,
}
use want.StringSets.Methods.{
  Methods, methods, try_both, intersects_of, superset_of, unit_intersects, unit_superset,
  prefix_intersects, prefix_superset, suffix_intersects, suffix_superset, intersects, superset,
}

-- "No" to `intersects` means disjoint, and "yes" to `superset` means that it covers.
pub record Sound (m : Methods) : Type 0 where
  pub disjoint :
      (a b : Set) (x : Str)
      → m.intersects a b ≡ some false
      → contains a x ≡ true
      → contains b x ≡ false
  pub covers :
      (a b : Set) (x : Str) → m.superset a b ≡ some true → contains b x ≡ true → contains a x ≡ true

try_both-disjoint :
    {m : Methods} (h : Sound m) (a b : Set) (x : Str)
    → try_both m a b ≡ some false
    → contains a x ≡ true
    → contains b x ≡ false
unfolding try_both
try_both-disjoint h a b x e c = ground (arith, h.disjoint a b x, h.disjoint b a x)

unit_intersects-disjoint :
    (k : Str) (b : Set) (x : Str)
    → unit_intersects k b ≡ some false
    → contains (unit k) x ≡ true
    → contains b x ≡ false
unfolding unit_intersects contains
unit_intersects-disjoint k (unit y) x e c = ground (arith, str_eq-eq k x c, str_eq-eq y x)
unit_intersects-disjoint k _ x e c = cc

prefix_intersects-disjoint :
    (p : Str) (b : Set) (x : Str)
    → prefix_intersects p b ≡ some false
    → contains (prefix p) x ≡ true
    → contains b x ≡ false
unfolding prefix_intersects contains
prefix_intersects-disjoint p (unit y) x e c = ground (arith, str_eq-eq y x)
prefix_intersects-disjoint p (prefix q) x e c = ground (arith, has_prefix-chain x p q c)
prefix_intersects-disjoint p _ x e c = cc

suffix_intersects-disjoint :
    (p : Str) (b : Set) (x : Str)
    → suffix_intersects p b ≡ some false
    → contains (suffix p) x ≡ true
    → contains b x ≡ false
unfolding suffix_intersects contains
suffix_intersects-disjoint p (unit y) x e c = ground (arith, str_eq-eq y x)
suffix_intersects-disjoint p (suffix q) x e c = ground (arith, has_suffix-chain x p q c)
suffix_intersects-disjoint p _ x e c = cc

unit_superset-covers :
    (k : Str) (b : Set) (x : Str)
    → unit_superset k b ≡ some true
    → contains b x ≡ true
    → contains (unit k) x ≡ true
unfolding unit_superset contains
unit_superset-covers k (unit y) x e c = ground (arith, str_eq-eq k y)
unit_superset-covers k empty x e c = cc
unit_superset-covers k _ x e c = cc

prefix_superset-covers :
    (p : Str) (b : Set) (x : Str)
    → prefix_superset p b ≡ some true
    → contains b x ≡ true
    → contains (prefix p) x ≡ true
unfolding prefix_superset contains
prefix_superset-covers p empty x e c = cc
prefix_superset-covers p top x e c = has_prefix-empty x p (ground arith)
prefix_superset-covers p (unit y) x e c = ground (arith, str_eq-eq y x)
prefix_superset-covers p (prefix q) x e c = has_prefix_trans x q p c (ground arith)
prefix_superset-covers p (suffix q) x e c = has_prefix-empty x p (ground arith)
prefix_superset-covers p _ x e c = cc

suffix_superset-covers :
    (p : Str) (b : Set) (x : Str)
    → suffix_superset p b ≡ some true
    → contains b x ≡ true
    → contains (suffix p) x ≡ true
unfolding suffix_superset contains
suffix_superset-covers p empty x e c = cc
suffix_superset-covers p top x e c = has_suffix-empty x p (ground arith)
suffix_superset-covers p (unit y) x e c = ground (arith, str_eq-eq y x)
suffix_superset-covers p (suffix q) x e c = has_suffix_trans x q p c (ground arith)
suffix_superset-covers p (prefix q) x e c = has_suffix-empty x p (ground arith)
suffix_superset-covers p _ x e c = cc

module _ {m : Methods} (h : Sound m) where
  intersects_of-disjoint :
      (a b : Set) (x : Str)
      → intersects_of m a b ≡ some false
      → contains a x ≡ true
      → contains b x ≡ false
  unfolding intersects_of contains
  intersects_of-disjoint top b x e c = cc
  intersects_of-disjoint empty b x e c = cc
  intersects_of-disjoint (unit k) b x e c = unit_intersects-disjoint k b x e c
  intersects_of-disjoint (prefix p) b x e c = prefix_intersects-disjoint p b x e c
  intersects_of-disjoint (suffix s) b x e c = suffix_intersects-disjoint s b x e c
  intersects_of-disjoint (not y) b x e c = ground (arith, h.covers y b x)
  intersects_of-disjoint (and l r) b x e c =
      ground (arith, try_both-disjoint h l b x, try_both-disjoint h r b x)
  intersects_of-disjoint (or l r) b x e c =
      ground (arith, try_both-disjoint h l b x, try_both-disjoint h r b x)

  superset_of-covers :
      (a b : Set) (x : Str)
      → superset_of m a b ≡ some true
      → contains b x ≡ true
      → contains a x ≡ true
  unfolding superset_of contains
  superset_of-covers top b x e c = refl
  superset_of-covers empty b x e c = ground (arith, deep_equal-eq b empty)
  superset_of-covers (unit k) b x e c = unit_superset-covers k b x e c
  superset_of-covers (prefix p) b x e c = prefix_superset-covers p b x e c
  superset_of-covers (suffix s) b x e c = suffix_superset-covers s b x e c
  superset_of-covers (not y) b x e c = ground (arith, try_both-disjoint h y b x)
  superset_of-covers (and l r) b x e c = ground (arith, h.covers l b x, h.covers r b x)
  superset_of-covers (or l r) b x e c = ground (arith, h.covers l b x, h.covers r b x)

pub methods-Sound : (n : ℕ) → Sound (methods n)
unfolding methods
methods-Sound zero = record { disjoint = λ a b x e c. cc; covers = λ a b x e c. cc }
methods-Sound (suc n) =
    let below = methods-Sound n in
    record {
      disjoint = λ a b x e c. intersects_of-disjoint below a b x e c;
      covers = λ a b x e c. superset_of-covers below a b x e c;
    }

-- When `intersects` answers false, no string is in both sets.
pub intersects-disjoint :
    (a b : Set) (x : Str) → intersects a b ≡ some false → contains a x ≡ true → contains b x ≡ false
unfolding intersects
intersects-disjoint a b x = try_both-disjoint (methods-Sound (size a + size b)) a b x

-- When `superset a b` answers true, every string of `b` is in `a`.
pub superset-covers :
    (a b : Set) (x : Str) → superset a b ≡ some true → contains b x ≡ true → contains a x ≡ true
unfolding superset
superset-covers a b x = (methods-Sound (size a + size b)).covers a b x
