-- ===== src/WantC/Cycles.antt =====
-- `detectCycles` (compiler.go). The maps from the strings of sets are lists; `f` bounds the calls in
-- `BoundingPrefix`, and `dfs` runs on fuel for its depth.
use want.Common.{ℕ, zero, suc, if◌then◌else◌, Bool, true, false, ◌||◌, List, [], ◌∷◌}
use want.Common.Text.{Str, str_eq}
use want.Common.Outcome.{Outcome, out_of_fuel, panic, done, ◌>>=◌}
use want.Common.Result.{Result, ok, err}
use want.StringSets.Sets.{Set}
use want.StringSets.Print.{set_string}
use want.WantC.Exprs.{Expr, Inputs, compute, selection, value, no_inputs, input}
use want.WantC.Vfs.{Entry, VfsNode, vfs_get}

-- The variables of `detectCycles`; the last element of `path` stands first.
pub record Search : Type 0 where
  pub visited : List Str
  pub current : List Str
  pub path : List Str

abbrev pub has_text : Str → List Str → Bool
has_text x [] = false
has_text x (y ∷ ys) = str_eq y x || has_text x ys

abbrev pub remove_text : Str → List Str → List Str
remove_text x [] = []
remove_text x (y ∷ ys) = if str_eq y x then remove_text x ys else y ∷ remove_text x ys

-- `path[:len(path)-1]`.
abbrev pub pop : List Str → Outcome (List Str)
pop [] = panic
pop (x ∷ xs) = done xs

-- What a search returns: whether it goes on, and its variables.
abbrev pub Searched : Type 0
Searched = Outcome (Bool × Search)

-- `if !f() { return false }`, and what follows.
abbrev pub and_on : Searched → (Search → Searched) → Searched
and_on out_of_fuel f = out_of_fuel
and_on panic f = panic
and_on (done (false, s)) f = done (false, s)
and_on (done (true, s)) f = f s

-- The deferred calls of `dfs`.
abbrev pub leave : Str → Bool × Search → Searched
leave x (on, s) = do
  p ← pop s.path
  done (on, record s { current = remove_text x s.current; path = p })

abbrev pub visit : Str → Search → Searched
visit x s = done (true, record s { visited = x ∷ s.visited })

abbrev pub enter : Str → Search → Search
enter x s = record s { current = x ∷ s.current; path = x ∷ s.path }

-- `check`: the cycle that it reports.
abbrev pub check : List Str → Result (List Str) (Unit {0})
check [] = ok tt
check (x ∷ xs) = err (x ∷ xs)

abbrev pub check_after :
    Bool
    → Search
    → (Search → Outcome (Result (List Str) (Unit {0})))
    → Outcome (Result (List Str) (Unit {0}))
check_after true s f = f s
check_after false s f = elim (check s.path) [ err c ↦ done (err c) | ok u ↦ f s ]

module _ {Ref : Type 0} where
  unfoldable mutual
    -- `traverseExpr`.
    pub traverse_expr : (Set → Search → Searched) → Expr Ref → Search → Searched
    traverse_expr dfs (selection m d x) s = dfs x s
    traverse_expr dfs (compute op ins) s = traverse_inputs dfs ins s
    traverse_expr dfs (value r) s = done (true, s)

    pub traverse_inputs : (Set → Search → Searched) → Inputs Ref → Search → Searched
    traverse_inputs dfs no_inputs s = done (true, s)
    traverse_inputs dfs (input to from mode ins) s =
        and_on (traverse_expr dfs from s) (λ s1. traverse_inputs dfs ins s1)

  -- The loop of `dfs` over the entries.
  unfoldable pub traverse_ents :
      (Set → Search → Searched) → List (Entry (Expr Ref)) → Search → Searched
  unfolding traverse_expr
  traverse_ents dfs [] s = done (true, s)
  traverse_ents dfs (e ∷ es) s = and_on (traverse_expr dfs e.v s) (λ s1. traverse_ents dfs es s1)

  -- `dfs`.
  unfoldable pub dfs : ℕ → ℕ → VfsNode (Expr Ref) → Set → Search → Searched
  unfolding set_string str_eq vfs_get traverse_ents
  dfs f zero v x s = out_of_fuel
  dfs f (suc n) v x s = do
    k ← set_string x
    let search = (do
      ents ← vfs_get f v x
      r ← and_on (traverse_ents (dfs f n v) ents (enter k s)) (visit k)
      leave k r)
    (if has_text k s.visited
        then done (true, s)
        else if has_text k s.current
        then done (false, s)
        else search)

  -- The loops over the expressions of the module.
  unfoldable pub check_all :
      ℕ → ℕ → VfsNode (Expr Ref) → List (Expr Ref) → Search → Outcome (Result (List Str) (Unit {0}))
  unfolding traverse_expr dfs
  check_all f n v [] s = done (check s.path)
  check_all f n v (e ∷ es) s = do
    r ← traverse_expr (dfs f n v) e s
    check_after (r.0) (r.1) (λ s1. check_all f n v es s1)

  unfoldable pub detect_cycles :
      ℕ → ℕ → VfsNode (Expr Ref) → List (Expr Ref) → Outcome (Result (List Str) (Unit {0}))
  unfolding check_all
  detect_cycles f n v es = check_all f n v es (record { visited = []; current = []; path = [] })
