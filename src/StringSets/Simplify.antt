-- ===== src/StringSets/Simplify.antt =====
-- `simplify` of every set type, `And.dist` and `Or.dist`, De Morgan, simplify.go, and the functions
-- of set.go that decide by simplifying.
use want.Common.{ℕ, zero, suc, Bool, ◌||◌, bnot, none, some, if◌then◌else◌}
use want.StringSets.Sets.{Set, top, empty, not, and, or, size, deep_equal, subtract}
use want.StringSets.Methods.{is_true, is_false, intersects, superset}

-- `And.dist`. The inner call of `dist` meets two conjunctions and returns them.
unfoldable pub and_dist : Set → Set → Set × Set
and_dist (and a b) (and c d) = (and a b, and c d)
and_dist (and a b) r = (and a r, and b r)
and_dist l (and c d) = (and l c, and l d)
and_dist l r = (l, r)

-- `Or.dist`.
unfoldable pub or_dist : Set → Set → Set
or_dist (or a b) (or c d) = or (or a b) (or c d)
or_dist (or a b) r = or (or a r) (or b r)
or_dist l (or c d) = or (or l c) (or l d)
or_dist l r = or l r

unfoldable pub and_de_morgan : Set → Set → Set
and_de_morgan l r = not (or (not l) (not r))

unfoldable pub or_de_morgan : Set → Set → Set
or_de_morgan l r = not (and (not l) (not r))

-- The switch of `And.simplify`: the halves before and after they are simplified.
unfoldable pub and_choose : Set → Set → Set → Set → Set
unfolding deep_equal
and_choose l₀ r₀ l r =
    if deep_equal l r
    then l
    else if is_true (superset r l)
    then l
    else if is_true (superset l r)
    then r
    else if is_true (superset (not r) l) || is_true (superset (not l) r)
    then empty
    else if is_false (intersects l₀ r₀)
    then empty
    else and l r

-- The switch of `Or.simplify`.
unfoldable pub or_choose : Set → Set → Set
unfolding deep_equal
or_choose l r =
    if deep_equal l top || deep_equal r top
    then top
    else if is_true (superset l r)
    then l
    else if is_true (superset r l)
    then r
    else if is_true (superset l (not r)) || is_true (superset r (not l))
    then top
    else or l r

-- `simplify` with `n` levels of calls below it. Termination shows how many are enough.
unfoldable pub simplify_within : ℕ → Set → Set
unfolding and_dist and_choose or_choose
simplify_within zero x = x
simplify_within (suc n) (not (not x)) = simplify_within n x
simplify_within (suc n) (not x) = not (simplify_within n x)
simplify_within (suc n) (and l r) =
    let (l₀, r₀) = and_dist l r in and_choose l₀ r₀ (simplify_within n l₀) (simplify_within n r₀)
simplify_within (suc n) (or l r) = or_choose (simplify_within n l) (simplify_within n r)
simplify_within (suc n) x = x

unfoldable pub simplify : Set → Set
unfolding simplify_within size
simplify x = simplify_within (size x) x

-- `And.sumOfMinterms`, once both halves are sums of minterms.
unfoldable pub and_minterms : Set → Set → Set
and_minterms (or a b) (or c d) = or (or (and a c) (and a d)) (or (and b c) (and b d))
and_minterms (or a b) r = or (and a r) (and b r)
and_minterms l (or c d) = or (and l c) (and l d)
and_minterms l r = and l r

-- `sumOfMinterms`, and its case for the complement of a set.
unfoldable mutual
  pub sum_of_minterms : Set → Set
  sum_of_minterms (or l r) = or (sum_of_minterms l) (sum_of_minterms r)
  sum_of_minterms (and l r) = and_minterms (sum_of_minterms l) (sum_of_minterms r)
  sum_of_minterms (not x) = not_minterms x
  sum_of_minterms x = x

  pub not_minterms : Set → Set
  not_minterms (and l r) = or (not_minterms l) (not_minterms r)
  not_minterms (or l r) = and (not (sum_of_minterms l)) (not (sum_of_minterms r))
  not_minterms (not x) = not (not_minterms x)
  not_minterms x = not x

unfoldable pub simplify_once : Set → Set
unfolding simplify sum_of_minterms and_minterms
simplify_once x = sum_of_minterms (simplify x)

-- The loop of `Simplify`, with the rounds left.
unfoldable pub simplify_loop : ℕ → Set → Set
unfolding simplify_once deep_equal
simplify_loop zero x = x
simplify_loop (suc n) x =
    let x₁ = simplify_once x in let rest = simplify_loop n x₁ in if deep_equal x₁ x then x else rest

-- `Simplify`.
unfoldable pub simplified : Set → Set
unfolding simplify_loop
simplified x = simplify_loop 3 x

-- `Equals`.
unfoldable pub equals : Set → Set → Bool
unfolding simplified
equals a b = deep_equal (simplified a) (simplified b)

-- `Intersects`.
unfoldable pub decide_intersects : Set → Set → Bool
unfolding intersects equals
decide_intersects a b = elim (intersects a b) [ some y ↦ y | none ↦ bnot (equals (and a b) empty) ]

-- `Superset`.
unfoldable pub decide_superset : Set → Set → Bool
unfolding superset equals subtract
decide_superset super sub = elim (superset super sub) [
  | some y ↦ y
  | none ↦ equals (subtract sub super) empty
]

-- `Subset`.
unfoldable pub decide_subset : Set → Set → Bool
unfolding decide_superset
decide_subset sub super = decide_superset super sub
