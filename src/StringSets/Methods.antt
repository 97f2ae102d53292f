-- ===== src/StringSets/Methods.antt =====
-- The three-valued methods `intersects` and `superset` of every set type, and the functions of
-- set.go that dispatch to them. `none` is `maybe.Nothing`. The methods call one another on smaller
-- sets, so a table of methods takes the table one level below it.
use want.Common.{
  ℕ, zero, suc, ◌+◌, Bool, true, false, ◌&&◌, ◌||◌, bnot, Option, none, some, [], if◌then◌else◌,
}
use want.Common.Text.{Str, str_eq, has_prefix, has_suffix}
use want.StringSets.Sets.{Set, top, empty, unit, prefix, suffix, not, and, or, size, deep_equal}

abbrev pub is_true : Option Bool → Bool
is_true none = false
is_true (some b) = b

abbrev pub is_false : Option Bool → Bool
is_false none = false
is_false (some b) = bnot b

pub record Methods : Type 0 where
  pub intersects : Set → Set → Option Bool
  pub superset : Set → Set → Option Bool

-- The function `intersects`: the method of `a`, then the method of `b`.
unfoldable pub try_both : Methods → Set → Set → Option Bool
try_both m a b = elim (m.intersects a b) [ some y ↦ some y | none ↦ m.intersects b a ]

-- What the functions answer once they know what the parts answer.
unfoldable pub and_intersects : Option Bool → Option Bool → Option Bool
and_intersects li ri = if is_false li || is_false ri then some false else none

unfoldable pub and_superset : Option Bool → Option Bool → Option Bool
and_superset ls rs =
    if is_false ls || is_false rs
    then some false
    else if is_true ls && is_true rs
    then some true
    else none

-- `Or.intersects` and `Or.superset` have one body.
unfoldable pub or_answer : Option Bool → Option Bool → Option Bool
or_answer l r =
    if is_true l || is_true r
    then some true
    else if is_false l && is_false r
    then some false
    else none

unfoldable pub not_superset : Option Bool → Option Bool → Option Bool
not_superset meets covers =
    if is_true meets
    then some false
    else if is_false meets
    then some true
    else if is_true covers
    then some false
    else none

unfoldable pub not_intersects : Option Bool → Option Bool → Option Bool
not_intersects covers meets =
    if is_true covers then some false else if is_false meets then some true else none

unfoldable pub unit_intersects : Str → Set → Option Bool
unfolding str_eq
unit_intersects k (unit x) = some (str_eq k x)
unit_intersects k _ = none

unfoldable pub unit_superset : Str → Set → Option Bool
unfolding str_eq
unit_superset k empty = some true
unit_superset k top = some false
unit_superset k (unit x) = some (str_eq k x)
unit_superset k _ = none

unfoldable pub prefix_intersects : Str → Set → Option Bool
unfolding has_prefix
prefix_intersects p (unit x) = some (has_prefix x p)
prefix_intersects p (prefix x) = some (has_prefix x p || has_prefix p x)
prefix_intersects p (suffix x) = some true
prefix_intersects p _ = none

unfoldable pub prefix_superset : Str → Set → Option Bool
unfolding has_prefix str_eq
prefix_superset p empty = some true
prefix_superset p top = some (str_eq p [])
prefix_superset p (unit x) = some (has_prefix x p)
prefix_superset p (prefix x) = some (has_prefix x p)
prefix_superset p (suffix x) = some (str_eq p [] && str_eq x [])
prefix_superset p _ = none

unfoldable pub suffix_intersects : Str → Set → Option Bool
unfolding has_suffix
suffix_intersects s (unit x) = some (has_suffix x s)
suffix_intersects s (prefix x) = some true
suffix_intersects s (suffix x) = some (has_suffix x s || has_suffix s x)
suffix_intersects s _ = none

unfoldable pub suffix_superset : Str → Set → Option Bool
unfolding has_suffix str_eq
suffix_superset s empty = some true
suffix_superset s top = some (str_eq s [])
suffix_superset s (unit x) = some (has_suffix x s)
suffix_superset s (prefix x) = some (str_eq s [] && str_eq x [])
suffix_superset s (suffix x) = some (has_suffix x s)
suffix_superset s _ = none

unfoldable pub intersects_of : Methods → Set → Set → Option Bool
unfolding try_both and_intersects or_answer not_intersects unit_intersects prefix_intersects
    suffix_intersects
intersects_of m top x = some true
intersects_of m empty x = some false
intersects_of m (unit k) x = unit_intersects k x
intersects_of m (prefix p) x = prefix_intersects p x
intersects_of m (suffix s) x = suffix_intersects s x
intersects_of m (not y) x = not_intersects (m.superset y x) (try_both m y x)
intersects_of m (and l r) x = and_intersects (try_both m l x) (try_both m r x)
intersects_of m (or l r) x = or_answer (try_both m l x) (try_both m r x)

unfoldable pub superset_of : Methods → Set → Set → Option Bool
unfolding try_both and_superset or_answer not_superset unit_superset prefix_superset suffix_superset
    deep_equal
superset_of m top x = some true
superset_of m empty x = some (deep_equal x empty)
superset_of m (unit k) x = unit_superset k x
superset_of m (prefix p) x = prefix_superset p x
superset_of m (suffix s) x = suffix_superset s x
superset_of m (not y) x = not_superset (try_both m y x) (m.superset y x)
superset_of m (and l r) x = and_superset (m.superset l x) (m.superset r x)
superset_of m (or l r) x = or_answer (m.superset l x) (m.superset r x)

-- The methods with `n` levels of calls below them. Adequacy shows how many levels are enough.
unfoldable pub methods : ℕ → Methods
unfolding intersects_of superset_of
methods zero = record { intersects = λ a b. none; superset = λ a b. none }
methods (suc n) = record {
  intersects = λ a b. intersects_of (methods n) a b;
  superset = λ a b. superset_of (methods n) a b;
}

unfoldable pub intersects : Set → Set → Option Bool
unfolding methods try_both size
intersects a b = try_both (methods (size a + size b)) a b

unfoldable pub superset : Set → Set → Option Bool
unfolding methods size
superset a b = (methods (size a + size b)).superset a b
