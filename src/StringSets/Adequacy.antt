-- ===== src/StringSets/Adequacy.antt =====
-- The levels of calls that `intersects` and `superset` are given (set.go).
use want.Common.{ℕ, zero, suc, ◌+◌, ◌≤◌, ◌≡◌, refl, arith}
use want.StringSets.Sets.{Set, not, and, or, size, size-pos}
use want.StringSets.Methods.{Methods, methods, try_both, intersects_of, superset_of}

-- Two tables of methods answer alike wherever the two sets have at most `s` nodes.
pub record Agree (s : ℕ) (m k : Methods) : Type 0 where
  pub intersects_eq : (a b : Set) → size a + size b ≤ s → m.intersects a b ≡ k.intersects a b
  pub superset_eq : (a b : Set) → size a + size b ≤ s → m.superset a b ≡ k.superset a b

try_both-Agree :
    {s : ℕ} {m k : Methods} (h : Agree s m k) (a b : Set)
    → size a + size b ≤ s
    → try_both m a b ≡ try_both k a b
unfolding try_both
try_both-Agree h a b fits =
    ground (arith, h.intersects_eq a b fits, h.intersects_eq b a (omega arith))

module _ {s : ℕ} {m k : Methods} (h : Agree s m k) where
  intersects_of-Agree :
      (a b : Set) → size a + size b ≤ suc s → intersects_of m a b ≡ intersects_of k a b
  unfolding intersects_of size
  intersects_of-Agree (not y) x fits =
      ground (arith, h.superset_eq y x (omega arith), try_both-Agree h y x (omega arith))
  intersects_of-Agree (and l r) x fits = ground (
    arith,
    try_both-Agree h l x (omega (arith, size-pos r)),
    try_both-Agree h r x (omega (arith, size-pos l)),
  )
  intersects_of-Agree (or l r) x fits = ground (
    arith,
    try_both-Agree h l x (omega (arith, size-pos r)),
    try_both-Agree h r x (omega (arith, size-pos l)),
  )
  intersects_of-Agree _ x fits = refl

  superset_of-Agree : (a b : Set) → size a + size b ≤ suc s → superset_of m a b ≡ superset_of k a b
  unfolding superset_of size
  superset_of-Agree (not y) x fits =
      ground (arith, h.superset_eq y x (omega arith), try_both-Agree h y x (omega arith))
  superset_of-Agree (and l r) x fits = ground (
    arith,
    h.superset_eq l x (omega (arith, size-pos r)),
    h.superset_eq r x (omega (arith, size-pos l)),
  )
  superset_of-Agree (or l r) x fits = ground (
    arith,
    h.superset_eq l x (omega (arith, size-pos r)),
    h.superset_eq r x (omega (arith, size-pos l)),
  )
  superset_of-Agree _ x fits = refl

no_small : {P : Type 0} (a b : Set) → size a + size b ≤ 0 → P
no_small a b h = absurd (omega (arith, size-pos a))

pub methods-Agree : (s n k : ℕ) → s ≤ n → s ≤ k → Agree s (methods n) (methods k)
unfolding methods
methods-Agree zero n k p q = record {
  intersects_eq = λ a b h. no_small a b h;
  superset_eq = λ a b h. no_small a b h;
}
methods-Agree (suc s) zero k p q = elim p [ ]
methods-Agree (suc s) (suc n) zero p q = elim q [ ]
methods-Agree (suc s) (suc n) (suc k) p q =
    let below = methods-Agree s n k (omega arith) (omega arith) in
    record {
      intersects_eq = λ a b h. intersects_of-Agree below a b h;
      superset_eq = λ a b h. superset_of-Agree below a b h;
    }

-- However many more levels of calls are allowed, both methods give the answers of `size a + size b`
-- levels: their recursion has ended by then.
pub methods_enough :
    (a b : Set) (n : ℕ)
    → size a + size b ≤ n
    → ((methods n).superset a b ≡ (methods (size a + size b)).superset a b)
      × (try_both (methods n) a b ≡ try_both (methods (size a + size b)) a b)
methods_enough a b n h =
    let same = methods-Agree (size a + size b) n (size a + size b) h (omega arith) in
    (same.superset_eq a b (omega arith), try_both-Agree same a b (omega arith))
