-- ===== src/StringSets/Meaning.antt =====
-- The strings of a simplified set, and what the decisions of set.go say of strings.
use want.Common.{
  ℕ, zero, suc, ◌≡◌, refl, sym, ◌∙◌, ap, Bool, true, false, arith, ◌&&◌, bnot, inl, inr,
  Option-cases,
}
use want.Common.Text.{Str}
use want.StringSets.Sets.{Set, top, empty, not, and, or, size, contains, deep_equal-eq, subtract}
use want.StringSets.Methods.{intersects, superset}
use want.StringSets.Answers.{intersects-disjoint, superset-covers}
use want.StringSets.Simplify.{
  and_dist, or_dist, and_choose, or_choose, simplify_within, simplify, and_minterms,
  sum_of_minterms, not_minterms, simplify_once, simplify_loop, simplified, equals,
  decide_intersects, decide_superset,
}

contains-and_dist :
    (l r : Set) (x : Str)
    → contains (and (and_dist l r).0 (and_dist l r).1) x ≡ contains (and l r) x
unfolding and_dist contains
contains-and_dist (and a b) (and c d) x = refl
contains-and_dist (and a b) r x = ground arith
contains-and_dist l (and c d) x = ground arith
contains-and_dist _ _ x = refl

-- `Or.dist` keeps the strings of the union.
contains-or_dist : (l r : Set) (x : Str) → contains (or_dist l r) x ≡ contains (or l r) x
unfolding or_dist contains
contains-or_dist (or a b) (or c d) x = refl
contains-or_dist (or a b) r x = ground arith
contains-or_dist l (or c d) x = ground arith
contains-or_dist _ _ x = refl

contains-and_choose :
    (l₀ r₀ l r : Set) (x : Str)
    → contains l₀ x ≡ contains l x
    → contains r₀ x ≡ contains r x
    → contains (and_choose l₀ r₀ l r) x ≡ contains (and l r) x
unfolding and_choose contains
contains-and_choose l₀ r₀ l r x hl hr = ground (
  arith,
  deep_equal-eq l r,
  superset-covers r l x,
  superset-covers l r x,
  superset-covers (not r) l x,
  superset-covers (not l) r x,
  intersects-disjoint l₀ r₀ x,
)

contains-or_choose : (l r : Set) (x : Str) → contains (or_choose l r) x ≡ contains (or l r) x
unfolding or_choose contains
contains-or_choose l r x = ground (
  arith,
  deep_equal-eq l top,
  deep_equal-eq r top,
  superset-covers l r x,
  superset-covers r l x,
  superset-covers l (not r) x,
  superset-covers r (not l) x,
)

contains-simplify_within :
    (n : ℕ) (a : Set) (x : Str) → contains (simplify_within n a) x ≡ contains a x
unfolding simplify_within contains
contains-simplify_within zero a x = refl
contains-simplify_within (suc n) (not (not a)) x = ground (arith, contains-simplify_within n a x)
contains-simplify_within (suc n) (and l r) x =
    let (l₀, r₀) = and_dist l r in
    contains-and_choose l₀ r₀ (simplify_within n l₀) (simplify_within n r₀) x
      (sym (contains-simplify_within n l₀ x)) (sym (contains-simplify_within n r₀ x))
    ∙ ground (
      arith,
      contains-simplify_within n l₀ x,
      contains-simplify_within n r₀ x,
      contains-and_dist l r x,
    )
contains-simplify_within (suc n) (or l r) x =
    contains-or_choose (simplify_within n l) (simplify_within n r) x
    ∙ ground (arith, contains-simplify_within n l x, contains-simplify_within n r x)
contains-simplify_within (suc n) (not a) x = ground (arith, contains-simplify_within n a x)
contains-simplify_within (suc n) _ x = refl

-- `simplify` keeps the strings of a set.
pub contains-simplify : (a : Set) (x : Str) → contains (simplify a) x ≡ contains a x
unfolding simplify
contains-simplify a x = contains-simplify_within (size a) a x

contains-and_minterms : (l r : Set) (x : Str) → contains (and_minterms l r) x ≡ contains (and l r) x
unfolding and_minterms contains
contains-and_minterms (or a b) (or c d) x = ground arith
contains-and_minterms (or a b) r x = ground arith
contains-and_minterms l (or c d) x = ground arith
contains-and_minterms _ _ x = refl

mutual
  unfolding sum_of_minterms not_minterms contains

  contains-minterms : (a : Set) (x : Str) → contains (sum_of_minterms a) x ≡ contains a x
  contains-minterms (or l r) x = ground (arith, contains-minterms l x, contains-minterms r x)
  contains-minterms (and l r) x = ground (
    arith,
    contains-and_minterms (sum_of_minterms l) (sum_of_minterms r) x,
    contains-minterms l x,
    contains-minterms r x,
  )
  contains-minterms (not a) x = contains-not_minterms a x
  contains-minterms _ x = refl

  contains-not_minterms : (a : Set) (x : Str) → contains (not_minterms a) x ≡ contains (not a) x
  contains-not_minterms (and l r) x =
      ground (arith, contains-not_minterms l x, contains-not_minterms r x)
  contains-not_minterms (or l r) x = ground (arith, contains-minterms l x, contains-minterms r x)
  contains-not_minterms (not a) x = ground (arith, contains-not_minterms a x)
  contains-not_minterms _ x = refl

contains-simplify_once : (a : Set) (x : Str) → contains (simplify_once a) x ≡ contains a x
unfolding simplify_once
contains-simplify_once a x = contains-minterms (simplify a) x ∙ contains-simplify a x

contains-simplify_loop : (n : ℕ) (a : Set) (x : Str) → contains (simplify_loop n a) x ≡ contains a x
unfolding simplify_loop
contains-simplify_loop zero a x = refl
contains-simplify_loop (suc n) a x =
    ground (arith, contains-simplify_loop n (simplify_once a) x, contains-simplify_once a x)

-- `Simplify` keeps the strings of every set: the simplified set contains a string exactly when the
-- set does.
pub contains-simplified : (a : Set) (x : Str) → contains (simplified a) x ≡ contains a x
unfolding simplified
contains-simplified a x = contains-simplify_loop 3 a x

-- When `Equals` answers true, the two sets have the same strings.
pub equals-same : (a b : Set) → equals a b ≡ true → (x : Str) → contains a x ≡ contains b x
unfolding equals
equals-same a b h x =
    sym (contains-simplified a x)
    ∙ ap (λ s. contains s x) (deep_equal-eq (simplified a) (simplified b) h)
    ∙ contains-simplified b x

and_left : (p q : Bool) → (p && q) ≡ false → p ≡ true → q ≡ false
and_left true q h e = h
and_left false q h e = cc

not_false : (p : Bool) → bnot p ≡ false → p ≡ true
not_false true h = refl
not_false false h = cc

-- When `Intersects` answers false, no string is in both sets.
pub decide_intersects-disjoint :
    (a b : Set)
    → decide_intersects a b ≡ false
    → (x : Str) → contains a x ≡ true
    → contains b x ≡ false
unfolding decide_intersects contains
decide_intersects-disjoint a b h x c = elim (Option-cases (intersects a b)) [
  | inl e ↦
      let same = not_false (equals (and a b) empty) (rw (e, decide_intersects) at h) in
      and_left (contains a x) (contains b x) (equals-same (and a b) empty same x) c
  | inr (y, e) ↦ intersects-disjoint a b x (ground arith) c
]

-- When `Superset` answers true, every string of the second set is in the first.
pub decide_superset-covers :
    (super sub : Set)
    → decide_superset super sub ≡ true
    → (x : Str) → contains sub x ≡ true
    → contains super x ≡ true
unfolding decide_superset subtract contains
decide_superset-covers super sub h x c = elim (Option-cases (superset super sub)) [
  | inl e ↦ ground (arith, equals-same (and sub (not super)) empty (ground arith) x)
  | inr (y, e) ↦ superset-covers super sub x (ground arith) c
]
