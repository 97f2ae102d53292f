-- ===== src/StringSets/PathSets.antt =====
-- `FromPathSet`, `ToPathSet`, `MapPrependPrefix` and `SetFromGlob` (util.go).
use want.Common.{
  Bool, true, false, ◌&&◌, bnot, none, some, List, [], ◌∷◌, ◌≡◌, refl, ◌∙◌, ap, arith,
}
use want.Common.Text.{Str}
use want.Common.Outcome.{Outcome, done, panic, out_of_fuel, ◌>>=◌}
use want.StringSets.Sets.{Set, top, empty, unit, prefix, suffix, not, and, or, contains}
use want.StringSets.Simplify.{simplified}
use want.StringSets.Meaning.{contains-simplified}
use want.StringSets.Combine.{
  union, intersection, any_contains, all_contain, contains-union, contains-intersection,
}
use want.WantCfg.{
  PathSet, PathSets, MaybeSet, path_set, no_set, a_set, absent, present, nil, cons, of_unit,
  of_prefix, of_suffix, of_not, of_union, of_intersect, pair, has_path, has_not, any_has, all_have,
}

unfoldable mutual
  pub from_path_set : PathSet → Set
  from_path_set (path_set (some k) p s n u i) = unit k
  from_path_set (path_set none (some p) s n u i) = prefix p
  from_path_set (path_set none none (some s) n u i) = suffix s
  from_path_set (path_set none none none n (present qs) i) = simplified (union (from_path_sets qs))
  from_path_set (path_set none none none n absent (present qs)) =
      simplified (intersection (from_path_sets qs))
  from_path_set (path_set none none none n absent absent) = from_not n

  pub from_not : MaybeSet → Set
  from_not no_set = empty
  from_not (a_set q) = not (from_path_set q)

  pub from_path_sets : PathSets → List Set
  from_path_sets nil = []
  from_path_sets (cons q qs) = from_path_set q ∷ from_path_sets qs

unfoldable pub to_path_set : Set → Outcome PathSet
unfolding of_unit of_prefix of_suffix of_not of_union of_intersect
to_path_set (unit k) = done (of_unit k)
to_path_set (prefix p) = done (of_prefix p)
to_path_set (suffix s) = done (of_suffix s)
to_path_set (not a) = do q ← to_path_set a; done (of_not q)
to_path_set (and l r) = do p ← to_path_set l; q ← to_path_set r; done (of_intersect (pair p q))
to_path_set (or l r) = do p ← to_path_set l; q ← to_path_set r; done (of_union (pair p q))
to_path_set top = panic
to_path_set empty = panic

mutual
  unfolding from_path_set from_not from_path_sets has_path has_not any_has all_have contains

  contains-from : (q : PathSet) (x : Str) → contains (from_path_set q) x ≡ has_path q x
  contains-from (path_set (some k) p s n u i) x = refl
  contains-from (path_set none (some p) s n u i) x = refl
  contains-from (path_set none none (some s) n u i) x = refl
  contains-from (path_set none none none n (present qs) i) x =
      contains-simplified (union (from_path_sets qs)) x
      ∙ contains-union (from_path_sets qs) x
      ∙ any-from qs x
  contains-from (path_set none none none n absent (present qs)) x =
      contains-simplified (intersection (from_path_sets qs)) x
      ∙ contains-intersection (from_path_sets qs) x
      ∙ all-from qs x
  contains-from (path_set none none none n absent absent) x = not-from n x

  not-from : (n : MaybeSet) (x : Str) → contains (from_not n) x ≡ has_not n x
  not-from no_set x = refl
  not-from (a_set q) x = ap bnot (contains-from q x)

  any-from : (qs : PathSets) (x : Str) → any_contains (from_path_sets qs) x ≡ any_has qs x
  any-from nil x = refl
  any-from (cons q qs) x = ground (arith, contains-from q x, any-from qs x)

  all-from : (qs : PathSets) (x : Str) → all_contain (from_path_sets qs) x ≡ all_have qs x
  all-from nil x = refl
  all-from (cons q qs) x = ground (arith, contains-from q x, all-from qs x)

-- `FromPathSet` gives a set with exactly the paths of the path set, through every `Simplify`.
pub contains-from_path_set : (q : PathSet) (x : Str) → contains (from_path_set q) x ≡ has_path q x
contains-from_path_set q x = contains-from q x

-- The sets in which neither the full nor the empty set occurs.
abbrev pub is_writable : Set → Bool
is_writable top = false
is_writable empty = false
is_writable (not a) = is_writable a
is_writable (and l r) = is_writable l && is_writable r
is_writable (or l r) = is_writable l && is_writable r
is_writable _ = true

-- A path set with the strings of a writable set, or a panic on any other.
abbrev pub Writes : Set → Outcome PathSet → Type 0
Writes a (done q) = (is_writable a ≡ true) × ((x : Str) → has_path q x ≡ contains a x)
Writes a panic = is_writable a ≡ false
Writes a out_of_fuel = ⊥

not-Writes :
    (a : Set) (r : Outcome PathSet) → Writes a r → Writes (not a) (r >>= λ q. done (of_not q))
unfolding of_not has_path has_not contains
not-Writes a (done q) h = (h.0, λ x. ap bnot (h.1 x))
not-Writes a panic h = h
not-Writes a out_of_fuel h = h

and-Writes :
    (l r : Set) (p q : Outcome PathSet)
    → Writes l p
    → Writes r q
    → Writes (and l r) (p >>= λ p'. q >>= λ q'. done (of_intersect (pair p' q')))
unfolding of_intersect has_path all_have contains
and-Writes l r (done p) (done q) hl hr = (ground arith, λ x. ground (arith, hl.1 x, hr.1 x))
and-Writes l r (done p) panic hl hr = ground arith
and-Writes l r (done p) out_of_fuel hl hr = hr
and-Writes l r panic q hl hr = ground arith
and-Writes l r out_of_fuel q hl hr = hl

or-Writes :
    (l r : Set) (p q : Outcome PathSet)
    → Writes l p
    → Writes r q
    → Writes (or l r) (p >>= λ p'. q >>= λ q'. done (of_union (pair p' q')))
unfolding of_union has_path any_has contains
or-Writes l r (done p) (done q) hl hr = (ground arith, λ x. ground (arith, hl.1 x, hr.1 x))
or-Writes l r (done p) panic hl hr = ground arith
or-Writes l r (done p) out_of_fuel hl hr = hr
or-Writes l r panic q hl hr = ground arith
or-Writes l r out_of_fuel q hl hr = hl

-- `ToPathSet` returns exactly when neither the full nor the empty set occurs in its argument, which
-- it panics on; what it returns has exactly the strings of the set.
pub to_path_set-Writes : (a : Set) → Writes a (to_path_set a)
unfolding to_path_set has_path contains
to_path_set-Writes (unit k) = (refl, λ x. refl)
to_path_set-Writes (prefix p) = (refl, λ x. refl)
to_path_set-Writes (suffix s) = (refl, λ x. refl)
to_path_set-Writes (not a) = not-Writes a (to_path_set a) (to_path_set-Writes a)
to_path_set-Writes (and l r) =
    and-Writes l r (to_path_set l) (to_path_set r) (to_path_set-Writes l) (to_path_set-Writes r)
to_path_set-Writes (or l r) =
    or-Writes l r (to_path_set l) (to_path_set r) (to_path_set-Writes l) (to_path_set-Writes r)
to_path_set-Writes top = refl
to_path_set-Writes empty = refl

-- A set that is written as a path set and read back has the strings that it had.
pub from-to_path_set :
    (a : Set)
    → is_writable a ≡ true
    → (q : PathSet) × (to_path_set a ≡ done q)
      × ((x : Str) → contains (from_path_set q) x ≡ contains a x)
from-to_path_set a w = read (to_path_set a) refl (to_path_set-Writes a)
  where
    read :
        (r : Outcome PathSet)
        → to_path_set a ≡ r
        → Writes a r
        → (q : PathSet) × (to_path_set a ≡ done q)
          × ((x : Str) → contains (from_path_set q) x ≡ contains a x)
    read (done q) e h = (q, e, λ x. contains-from_path_set q x ∙ h.1 x)
    read panic e h = cc
    read out_of_fuel e h = absurd h
