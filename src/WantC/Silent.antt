-- ===== src/WantC/Silent.antt =====
-- What `detectCycles` (compiler.go) reports.
use want.Common.{ℕ, zero, suc, ◌≡◌, ◌≢◌, refl, sym, ◌∙◌, subst, true, false, List, [], ◌∷◌, if_both}
use want.Common.Text.{Str}
use want.Common.Outcome.{Outcome, out_of_fuel, panic, done, ◌>>=◌}
use want.Common.Result.{Result, err}
use want.StringSets.Sets.{Set}
use want.StringSets.Print.{set_string}
use want.WantC.Exprs.{Expr, Inputs, compute, selection, value, no_inputs, input}
use want.WantC.Vfs.{Entry, VfsNode, vfs_get}
use want.WantC.Cycles.{
  Search, Searched, and_on, leave, visit, enter, has_text, traverse_expr, traverse_inputs,
  traverse_ents, dfs, check_after, check_all, detect_cycles,
}

-- A search that returns has the path that it began with.
abbrev Keeps : List Str → Searched → Type 0
Keeps p (done (on, s)) = s.path ≡ p
Keeps p out_of_fuel = Unit
Keeps p panic = Unit

and_on-Keeps :
    (p : List Str) (r : Searched) (f : Search → Searched)
    → Keeps p r
    → ((s : Search) → s.path ≡ p → Keeps p (f s))
    → Keeps p (and_on r f)
and_on-Keeps p (done (true, s)) f h k = k s h
and_on-Keeps p (done (false, s)) f h k = h
and_on-Keeps p out_of_fuel f h k = tt
and_on-Keeps p panic f h k = tt

abbrev AllKeep : (Set → Search → Searched) → Type 0
AllKeep rec = (x : Set) (s : Search) → Keeps s.path (rec x s)

leave-Keeps : (k : Str) (p : List Str) (r : Searched) → Keeps (k ∷ p) r → Keeps p (r >>= leave k)
leave-Keeps k p out_of_fuel h = tt
leave-Keeps k p panic h = tt
leave-Keeps k p (done (on, s)) h = rw h refl

string_Keeps :
    (p : List Str) (o : Outcome Str) (f : Str → Searched)
    → ((k : Str) → Keeps p (f k))
    → Keeps p (o >>= f)
string_Keeps p out_of_fuel f h = tt
string_Keeps p panic f h = tt
string_Keeps p (done k) f h = h k

entered_Keeps :
    {A : Type 0} (k : Str) (p : List Str) (o : Outcome A) (f : A → Searched)
    → ((x : A) → Keeps (k ∷ p) (f x))
    → Keeps p (o >>= λ x. f x >>= leave k)
entered_Keeps k p out_of_fuel f h = tt
entered_Keeps k p panic f h = tt
entered_Keeps k p (done x) f h = leave-Keeps k p (f x) (h x)

searched_silent :
    (r : Searched) (f : Search → Outcome (Result (List Str) (Unit {0}))) (c : List Str)
    → Keeps [] r
    → ((s : Search) → s.path ≡ [] → f s ≢ done (err c))
    → (r >>= λ x. check_after (x.0) (x.1) f) ≢ done (err c)
searched_silent out_of_fuel f c h k e = cc
searched_silent panic f c h k e = cc
searched_silent (done (true, s)) f c h k e = k s h e
searched_silent (done (false, s)) f c h k e =
    let goes_on : check_after false s f ≡ f s = rw h refl in k s h (sym goes_on ∙ e)

module _ {Ref : Type 0} where
  mutual
    unfolding traverse_expr traverse_inputs

    traverse_expr-Keeps :
        (rec : Set → Search → Searched)
        → AllKeep rec
        → (e : Expr Ref) (s : Search) → Keeps s.path (traverse_expr rec e s)
    traverse_expr-Keeps rec h (selection m d x) s = h x s
    traverse_expr-Keeps rec h (compute op ins) s = traverse_inputs-Keeps rec h ins s
    traverse_expr-Keeps rec h (value r) s = refl

    traverse_inputs-Keeps :
        (rec : Set → Search → Searched)
        → AllKeep rec
        → (ins : Inputs Ref) (s : Search) → Keeps s.path (traverse_inputs rec ins s)
    traverse_inputs-Keeps rec h no_inputs s = refl
    traverse_inputs-Keeps rec h (input to from mode ins) s =
        and_on-Keeps s.path _ _ (traverse_expr-Keeps rec h from s) (λ s1 e.
          subst (λ p. Keeps p (traverse_inputs rec ins s1)) e (traverse_inputs-Keeps rec h ins s1))

  traverse_ents-Keeps :
      (rec : Set → Search → Searched)
      → AllKeep rec
      → (es : List (Entry (Expr Ref))) (s : Search) → Keeps s.path (traverse_ents rec es s)
  unfolding traverse_ents
  traverse_ents-Keeps rec h [] s = refl
  traverse_ents-Keeps rec h (x ∷ es) s =
      and_on-Keeps s.path _ _ (traverse_expr-Keeps rec h x.v s)
        (λ s1 e. subst (λ p. Keeps p (traverse_ents rec es s1)) e (traverse_ents-Keeps rec h es s1))

  dfs-Keeps : (f n : ℕ) (v : VfsNode (Expr Ref)) → AllKeep (dfs f n v)
  unfolding dfs
  dfs-Keeps f zero v x s = tt
  dfs-Keeps f (suc n) v x s = string_Keeps s.path (set_string x) _ (λ k.
      if_both (Keeps s.path) (has_text k s.visited) refl (
        if_both (Keeps s.path) (has_text k s.current) refl (
          entered_Keeps k s.path (vfs_get f v x) _ (λ ents.
            and_on-Keeps (k ∷ s.path) _ (visit k)
              (traverse_ents-Keeps (dfs f n v) (dfs-Keeps f n v) ents (enter k s)) (λ s1 e. e)))))

  -- With an empty path `check` has nothing to report.
  check_all-silent :
      (f n : ℕ) (v : VfsNode (Expr Ref)) (es : List (Expr Ref)) (s : Search) (c : List Str)
      → s.path ≡ []
      → check_all f n v es s ≢ done (err c)
  unfolding check_all
  check_all-silent f n v [] s c h e = cc
  check_all-silent f n v (x ∷ es) s c h e =
      searched_silent (traverse_expr (dfs f n v) x s) (λ s1. check_all f n v es s1) c
        (subst (λ p. Keeps p (traverse_expr (dfs f n v) x s)) h
          (traverse_expr-Keeps (dfs f n v) (dfs-Keeps f n v) x s))
        (λ s1 k. check_all-silent f n v es s1 c k) e

  -- `detectCycles` reports no cycle, whatever the expressions select: when a search finds one, the
  -- calls that it returns through have taken their sets off the path before the path is looked at.
  pub detect_cycles_silent :
      (f n : ℕ) (v : VfsNode (Expr Ref)) (es : List (Expr Ref)) (c : List Str)
      → detect_cycles f n v es ≢ done (err c)
  unfolding detect_cycles
  detect_cycles_silent f n v es c =
      check_all-silent f n v es (record { visited = []; current = []; path = [] }) c refl
