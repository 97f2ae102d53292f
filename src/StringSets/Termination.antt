-- ===== src/StringSets/Termination.antt =====
-- The levels of calls that `simplify` is given (simplify.go).
use want.Common.{ℕ, zero, suc, ◌+◌, ◌≤◌, ◌≡◌, refl, ap, arith}
use want.StringSets.Sets.{Set, not, and, or, size, size-pos}
use want.StringSets.Simplify.{and_dist, simplify_within}

size-and_dist :
    (l r : Set)
    → (size (and_dist l r).0 ≤ size l + size r) × (size (and_dist l r).1 ≤ size l + size r)
unfolding and_dist size
size-and_dist (and a b) (and c d) = omega arith
size-and_dist (and a b) r = ground (arith, size-pos a, size-pos b)
size-and_dist l (and c d) = ground (arith, size-pos c, size-pos d)
size-and_dist l r = omega arith

within_same :
    (n k : ℕ) (a : Set) → size a ≤ n → size a ≤ k → simplify_within n a ≡ simplify_within k a
unfolding simplify_within size
within_same zero k a p q = absurd (omega (arith, size-pos a))
within_same (suc n) zero a p q = absurd (omega (arith, size-pos a))
within_same (suc n) (suc k) (not (not a)) p q = within_same n k a (omega arith) (omega arith)
within_same (suc n) (suc k) (not a) p q = ap not (within_same n k a (omega arith) (omega arith))
within_same (suc n) (suc k) (and l r) p q =
    let (fits₀, fits₁) = size-and_dist l r in
    rw (
      within_same n k (and_dist l r).0 (omega arith) (omega arith),
      within_same n k (and_dist l r).1 (omega arith) (omega arith),
    )
within_same (suc n) (suc k) (or l r) p q = rw (
  within_same n k l (omega (arith, size-pos r)) (omega (arith, size-pos r)),
  within_same n k r (omega (arith, size-pos l)) (omega (arith, size-pos l)),
)
within_same (suc n) (suc k) _ p q = refl

-- However many more levels of calls are allowed, `simplify` gives the set of `size a` levels: its
-- recursion, which `And.dist` sends into sets that are no parts of its own, has ended by then.
pub simplify_enough :
    (a : Set) (n : ℕ) → size a ≤ n → simplify_within n a ≡ simplify_within (size a) a
simplify_enough a n h = within_same n (size a) a h (omega arith)
