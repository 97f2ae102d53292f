-- ===== src/StringSets/BoundingUnion.antt =====
-- `BoundingPrefix` of a union of paths and prefixes, the form of what statements and expression
-- files affect.
use want.Common.{
  ℕ, zero, suc, ◌+◌, ◌≤◌, ◌≡◌, refl, sym, ◌∙◌, true, false, ◌&&◌, [], ◌∷◌, arith, inl, inr,
  Bool-cases,
}
use want.Common.Text.{Str, str_eq-eq, str_eq_refl, has_prefix, has_prefix_trans, has_prefix_refl}
use want.Common.Outcome.{Outcome, done}
use want.StringSets.Sets.{
  Set, top, empty, unit, prefix, suffix, not, and, or, size, size-pos, contains, deep_equal,
}
use want.StringSets.Methods.{is_true, methods, superset_of, superset}
use want.StringSets.Simplify.{
  simplified, simplify_loop, simplify_once, simplify, simplify_within, or_choose, sum_of_minterms,
}
use want.StringSets.Meaning.{contains-simplified}
use want.StringSets.Prefixes.{longest_common_prefix}
use want.StringSets.Bounding.{bounding_of, bounding_within, AllBegin, lcp_begins}

abbrev pub IsUnion : Set → Type 0
IsUnion (unit k) = Unit
IsUnion (prefix p) = Unit
IsUnion (or l r) = IsUnion l × IsUnion r
IsUnion _ = ⊥

-- Such a union is never found to cover a complement.
not_covered : (n : ℕ) (a b : Set) → IsUnion a → is_true ((methods n).superset a (not b)) ≡ false
unfolding methods superset_of
not_covered zero a b u = refl
not_covered (suc n) (unit k) b u = refl
not_covered (suc n) (prefix p) b u = refl
not_covered (suc n) (or l r) b u = ground (arith, not_covered n l b u.0, not_covered n r b u.1)
not_covered (suc n) top b u = absurd u
not_covered (suc n) empty b u = absurd u
not_covered (suc n) (suffix s) b u = absurd u
not_covered (suc n) (not a) b u = absurd u
not_covered (suc n) (and l r) b u = absurd u

not_top : (a : Set) → IsUnion a → deep_equal a top ≡ false
unfolding deep_equal
not_top (unit k) u = refl
not_top (prefix p) u = refl
not_top (or l r) u = refl
not_top top u = absurd u
not_top empty u = refl
not_top (suffix s) u = refl
not_top (not a) u = refl
not_top (and l r) u = refl

-- A union with at most `s` nodes.
abbrev Small : ℕ → Set → Type 0
Small s a = IsUnion a × (size a ≤ s)

or_choose-Small :
    (l r : Set) (s t : ℕ) → Small s l → Small t r → Small (suc (s + t)) (or_choose l r)
unfolding or_choose superset size
or_choose-Small l r s t (ul, sl) (ur, sr) = ground (
  arith,
  not_top l ul,
  not_top r ur,
  not_covered (size l + size (not r)) l r ul,
  not_covered (size r + size (not l)) r l ur,
)

simplify_within-Small : (n : ℕ) (a : Set) → IsUnion a → Small (size a) (simplify_within n a)
unfolding simplify_within size
simplify_within-Small zero a u = (u, omega arith)
simplify_within-Small (suc n) (unit k) u = (u, omega arith)
simplify_within-Small (suc n) (prefix p) u = (u, omega arith)
simplify_within-Small (suc n) (or l r) u =
    or_choose-Small (simplify_within n l) (simplify_within n r) (size l) (size r)
      (simplify_within-Small n l u.0) (simplify_within-Small n r u.1)
simplify_within-Small (suc n) top u = absurd u
simplify_within-Small (suc n) empty u = absurd u
simplify_within-Small (suc n) (suffix s) u = absurd u
simplify_within-Small (suc n) (not a) u = absurd u
simplify_within-Small (suc n) (and l r) u = absurd u

minterms_same : (a : Set) → IsUnion a → sum_of_minterms a ≡ a
unfolding sum_of_minterms
minterms_same (unit k) u = refl
minterms_same (prefix p) u = refl
minterms_same (or l r) u = rw (minterms_same l u.0, minterms_same r u.1)
minterms_same top u = refl
minterms_same empty u = refl
minterms_same (suffix s) u = refl
minterms_same (not a) u = absurd u
minterms_same (and l r) u = absurd u

simplify_once-Small : (a : Set) → IsUnion a → Small (size a) (simplify_once a)
unfolding simplify_once simplify
simplify_once-Small a u =
    let small = simplify_within-Small (size a) a u in
    rw (minterms_same (simplify_within (size a) a) small.0) small

simplify_loop-Small : (n : ℕ) (a : Set) → IsUnion a → Small (size a) (simplify_loop n a)
unfolding simplify_loop
simplify_loop-Small zero a u = (u, omega arith)
simplify_loop-Small (suc n) a u =
    let once = simplify_once-Small a u in
    let rest = simplify_loop-Small n (simplify_once a) once.0 in
    elim (Bool-cases (deep_equal (simplify_once a) a)) [
      | inl e ↦ rw e (u, omega arith)
      | inr e ↦ rw e (rest.0, omega arith)
    ]

simplified-Small : (a : Set) → IsUnion a → Small (size a) (simplified a)
unfolding simplified
simplified-Small a u = simplify_loop-Small 3 a u

-- What `BoundingPrefix` owes a union: the longest string with which all of its strings begin.
abbrev pub IsBound : Set → Str → Type 0
IsBound a p =
    (q : Str) → (AllBegin a q → has_prefix p q ≡ true) × (has_prefix p q ≡ true → AllBegin a q)

IsBound-same :
    (a b : Set) (p : Str) → ((x : Str) → contains a x ≡ contains b x) → IsBound a p → IsBound b p
IsBound-same a b p same h q =
    (λ begins. (h q).0 (λ x c. begins x (sym (same x) ∙ c)), λ e x c. (h q).1 e x (same x ∙ c))

IsBound-unit : (k : Str) → IsBound (unit k) k
unfolding contains
IsBound-unit k q = (λ begins. begins k (str_eq_refl k), λ e x c. rw (← str_eq-eq k x c) e)

IsBound-prefix : (p : Str) → IsBound (prefix p) p
unfolding contains
IsBound-prefix p q = (λ begins. begins p (has_prefix_refl p), λ e x c. has_prefix_trans x p q c e)

IsBound-or :
    (l r : Set) (lp rp : Str)
    → IsBound l lp
    → IsBound r rp
    → IsBound (or l r) (longest_common_prefix (lp ∷ rp ∷ []))
unfolding contains
IsBound-or l r lp rp hl hr q = (
  λ begins.
      (let left = (hl q).0 (λ x c. begins x (ground arith)) in
        let right = (hr q).0 (λ x c. begins x (ground arith)) in
        rw (lcp_begins lp rp q, left) right),
  λ e x c.
      (let both : (has_prefix lp q && has_prefix rp q) ≡ true = sym (lcp_begins lp rp q) ∙ e in
        ground (arith, (hl q).1 (ground arith) x, (hr q).1 (ground arith) x)),
)

abbrev Bounds : Outcome Str → Set → Type 0
Bounds r a = (p : Str) × (r ≡ done p) × IsBound a p

bounding_of-Bounds :
    (n : ℕ) (rec : Set → Outcome Str)
    → ((a : Set) → IsUnion a → size a ≤ n → Bounds (rec a) a)
    → (a : Set) → IsUnion a
    → size a ≤ suc n
    → Bounds (bounding_of rec a) a
unfolding bounding_of size
bounding_of-Bounds n rec ih (unit k) u h = (k, refl, IsBound-unit k)
bounding_of-Bounds n rec ih (prefix p) u h = (p, refl, IsBound-prefix p)
bounding_of-Bounds n rec ih (or l r) u h =
    let (lp, el, bl) = ih l u.0 (omega (arith, size-pos r)) in
    let (rp, er, br) = ih r u.1 (omega (arith, size-pos l)) in
    (longest_common_prefix (lp ∷ rp ∷ []), rw (el, er), IsBound-or l r lp rp bl br)
bounding_of-Bounds n rec ih top u h = absurd u
bounding_of-Bounds n rec ih empty u h = absurd u
bounding_of-Bounds n rec ih (suffix s) u h = absurd u
bounding_of-Bounds n rec ih (not a) u h = absurd u
bounding_of-Bounds n rec ih (and l r) u h = absurd u

-- For a union of paths and prefixes, and as many levels of calls as it has nodes or more,
-- `BoundingPrefix` returns: the result begins with a string exactly when all strings of the union do.
pub bounding_within-IsUnion :
    (n : ℕ) (a : Set)
    → IsUnion a
    → size a ≤ n
    → (p : Str) × (bounding_within n a ≡ done p) × IsBound a p
unfolding bounding_within
bounding_within-IsUnion zero a u h = absurd (omega (arith, size-pos a))
bounding_within-IsUnion (suc n) a u h =
    let (u', small) = simplified-Small a u in
    let (p, e, bound) =
      bounding_of-Bounds n (λ s. bounding_within n s) (bounding_within-IsUnion n) (simplified a) u'
        (omega arith) in
    (p, e, IsBound-same (simplified a) a p (contains-simplified a) bound)
