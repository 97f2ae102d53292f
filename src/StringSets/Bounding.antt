-- ===== src/StringSets/Bounding.antt =====
-- `BoundingPrefix` (util.go).
use want.Common.{ℕ, zero, suc, ◌≡◌, refl, ◌∙◌, true, ◌&&◌, [], ◌∷◌, if◌then◌else◌, arith}
use want.Common.Text.{Str, str_eq-eq, has_prefix, has_prefix_trans, has_prefix_refl}
use want.Common.Outcome.{Outcome, done, panic, out_of_fuel, ◌>>=◌, bind_done}
use want.StringSets.Sets.{Set, top, empty, unit, prefix, suffix, not, and, or, contains}
use want.StringSets.Simplify.{simplified}
use want.StringSets.Meaning.{contains-simplified}
use want.StringSets.Prefixes.{longest_common_prefix, longest_common_prefix_lem}

-- The switch of `BoundingPrefix`, over the recursive call.
unfoldable pub bounding_of : (Set → Outcome Str) → Set → Outcome Str
unfolding has_prefix longest_common_prefix
bounding_of rec (unit k) = done k
bounding_of rec (prefix p) = done p
bounding_of rec (suffix s) = done []
bounding_of rec top = done []
bounding_of rec empty = panic
bounding_of rec (not a) = done []
bounding_of rec (or l r) = do lp ← rec l; rp ← rec r; done (longest_common_prefix (lp ∷ rp ∷ []))
bounding_of rec (and l r) = do
  lp ← rec l
  rp ← rec r
  let p = longest_common_prefix (lp ∷ rp ∷ [])
  (if has_prefix lp rp && has_prefix rp lp then done p else panic)

-- `BoundingPrefix`, with `n` levels of calls.
unfoldable pub bounding_within : ℕ → Set → Outcome Str
unfolding bounding_of simplified
bounding_within zero a = out_of_fuel
bounding_within (suc n) a = bounding_of (λ s. bounding_within n s) (simplified a)

-- Every string of the set begins with `p`.
abbrev pub AllBegin : Set → Str → Type 0
AllBegin a p = (x : Str) → contains a x ≡ true → has_prefix x p ≡ true

pub lcp_begins :
    (lp rp q : Str)
    → has_prefix (longest_common_prefix (lp ∷ rp ∷ [])) q ≡ (has_prefix lp q && has_prefix rp q)
lcp_begins lp rp q = ground (arith, longest_common_prefix_lem lp (rp ∷ []) q)

join_AllBegin :
    (l r : Set) (lp rp : Str)
    → AllBegin l lp
    → AllBegin r rp
    → AllBegin (or l r) (longest_common_prefix (lp ∷ rp ∷ []))
unfolding contains
join_AllBegin l r lp rp hl hr x c =
    let p = longest_common_prefix (lp ∷ rp ∷ []) in
    ground (
      arith,
      hl x,
      hr x,
      lcp_begins lp rp p,
      has_prefix_refl p,
      has_prefix_trans x lp p,
      has_prefix_trans x rp p,
    )

meet_AllBegin : (l r : Set) (p : Str) → AllBegin (or l r) p → AllBegin (and l r) p
unfolding contains
meet_AllBegin l r p h x c = h x (ground arith)

begins_nil : (x : Str) → has_prefix x [] ≡ true
unfolding has_prefix
begins_nil [] = refl
begins_nil (a ∷ x) = refl

bounding_of-AllBegin :
    (rec : Set → Outcome Str)
    → ((a : Set) (p : Str) → rec a ≡ done p → AllBegin a p)
    → (a : Set) (p : Str) → bounding_of rec a ≡ done p
    → AllBegin a p
unfolding bounding_of contains
bounding_of-AllBegin rec ih (unit k) p h x c = ground (arith, str_eq-eq k x c, has_prefix_refl x)
bounding_of-AllBegin rec ih (prefix q) p h x c = ground arith
bounding_of-AllBegin rec ih (suffix s) p h x c = ground (arith, begins_nil x)
bounding_of-AllBegin rec ih top p h x c = ground (arith, begins_nil x)
bounding_of-AllBegin rec ih empty p h x c = cc
bounding_of-AllBegin rec ih (not a) p h x c = ground (arith, begins_nil x)
bounding_of-AllBegin rec ih (or l r) p h x c =
    let (lp, el, h₁) = bind_done _ (rec l) h in
    let (rp, er, h₂) = bind_done _ (rec r) h₁ in
    let e : longest_common_prefix (lp ∷ rp ∷ []) ≡ p = ground arith in
    rw (← e) (join_AllBegin l r lp rp (ih l lp el) (ih r rp er) x c)
bounding_of-AllBegin rec ih (and l r) p h x c =
    let (lp, el, h₁) = bind_done _ (rec l) h in
    let (rp, er, h₂) = bind_done _ (rec r) h₁ in
    let e : longest_common_prefix (lp ∷ rp ∷ []) ≡ p = ground arith in
    let both = join_AllBegin l r lp rp (ih l lp el) (ih r rp er) in
    rw (← e) (meet_AllBegin l r (longest_common_prefix (lp ∷ rp ∷ [])) both x c)

-- Where `BoundingPrefix` returns, every string of the set begins with what it returns.
pub bounding_within-AllBegin :
    (n : ℕ) (a : Set) (p : Str)
    → bounding_within n a ≡ done p
    → (x : Str) → contains a x ≡ true
    → has_prefix x p ≡ true
unfolding bounding_within
bounding_within-AllBegin zero a p h x c = cc
bounding_within-AllBegin (suc n) a p h x c =
    bounding_of-AllBegin (λ s. bounding_within n s) (bounding_within-AllBegin n) (simplified a) p h
      x (contains-simplified a x ∙ c)
