-- ===== src/WantC/Ordered.antt =====
-- The targets that `makeTargets` (compiler.go) returns.
use want.Common.{
  ◌≡◌, refl, sym, ap, ◌∙◌, subst, inl, inr, false, Bool-cases, Option, List, [], ◌∷◌, ◌++◌,
}
use mathlib.Core.List.{Memᴰ}
use mathlib.Core.List.Memᴰ
use want.Common.Outcome.{out_of_fuel, panic, done, done_inj}
use want.Common.Result.{ok, err, ok_inj}
use want.WantDag.Nodes.{Node}
use want.WantC.Compile.{Backend}
use want.WantC.Lower.{Modules}
use want.StringSets.PathSets.{to_path_set}
use want.WantC.Stmts.{StmtSet, ExprRoot, root_affects}
use want.WantC.Targets.{
  Target, Try, and_then, sure, target_lt, insert, sort, root_with, root_target, root_targets,
  set_targets, make_graph_from_expr, make_targets,
}

and_then_done :
    {A B : Type 0} (m : Try A) (f : A → Try B) (y : B)
    → and_then m f ≡ done (ok y)
    → (x : A) × (m ≡ done (ok x)) × (f x ≡ done (ok y))
and_then_done out_of_fuel f y h = cc
and_then_done panic f y h = cc
and_then_done (done (err e)) f y h = cc
and_then_done (done (ok x)) f y h = (x, refl, h)

mem_left : {A : Type 0} (x : A) (xs ys : List A) → Memᴰ x xs → Memᴰ x (xs ++ ys)
mem_left x [] ys m = absurd (Memᴰ.not-nil m)
mem_left x (z ∷ xs) ys (Memᴰ.head e) = Memᴰ.head e
mem_left x (z ∷ xs) ys (Memᴰ.tail m) = Memᴰ.tail (mem_left x xs ys m)

module _ {Ref : Type 0} where
  -- No target is less than the one in front of it.
  abbrev pub InOrder : List (Target Ref) → Type 0
  InOrder [] = Unit
  InOrder (t ∷ []) = Unit
  InOrder (t ∷ u ∷ us) = (target_lt u t ≡ false) × InOrder (u ∷ us)

  insert-here : (t : Target Ref) (us : List (Target Ref)) → Memᴰ t (insert t us)
  unfolding insert
  insert-here t [] = Memᴰ.head refl
  insert-here t (u ∷ us) = elim (Bool-cases (target_lt u t)) [
    | inl e ↦ rw e (Memᴰ.tail (insert-here t us))
    | inr e ↦ rw e (Memᴰ.head refl)
  ]

  insert-keeps : (t x : Target Ref) (us : List (Target Ref)) → Memᴰ x us → Memᴰ x (insert t us)
  unfolding insert
  insert-keeps t x [] m = absurd (Memᴰ.not-nil m)
  insert-keeps t x (u ∷ us) (Memᴰ.head q) = elim (Bool-cases (target_lt u t)) [
    | inl e ↦ rw e (Memᴰ.head q)
    | inr e ↦ rw e (Memᴰ.tail (Memᴰ.head q))
  ]
  insert-keeps t x (u ∷ us) (Memᴰ.tail m) = elim (Bool-cases (target_lt u t)) [
    | inl e ↦ rw e (Memᴰ.tail (insert-keeps t x us m))
    | inr e ↦ rw e (Memᴰ.tail (Memᴰ.tail m))
  ]

  sort-keeps : (x : Target Ref) (ts : List (Target Ref)) → Memᴰ x ts → Memᴰ x (sort ts)
  unfolding sort
  sort-keeps x [] m = absurd (Memᴰ.not-nil m)
  sort-keeps x (t ∷ ts) (Memᴰ.head e) =
      subst (λ y. Memᴰ x (insert y (sort ts))) e (insert-here x (sort ts))
  sort-keeps x (t ∷ ts) (Memᴰ.tail m) = insert-keeps t x (sort ts) (sort-keeps x ts m)

  module _ (be : Backend Ref) (ms : Modules Ref) (post_dag : List (Node Ref) → Option Ref) where
    root_target_parts :
        (r : ExprRoot Ref) (t : Target Ref)
        → root_target be ms post_dag r ≡ done (ok t)
        → (t.defined_in ≡ r.path)
          × (t.spec ≡ r.spec)
          × (make_graph_from_expr be ms post_dag r.expr r.path ≡ done (ok t.dag))
    unfolding root_target
    root_target_parts r t h =
        let (g, a, b) = and_then_done (make_graph_from_expr be ms post_dag r.expr r.path) _ t h in
        let (q, c, d) =
          and_then_done (sure (to_path_set (root_affects r)))
            (λ to. done (ok (root_with be ms post_dag r g to))) t b in
        let same : root_with be ms post_dag r g q ≡ t = ok_inj (done_inj d) in
        (
          sym (ap (λ x. x.defined_in) same),
          sym (ap (λ x. x.spec) same),
          a ∙ ap (λ x. done (ok (x.dag))) same,
        )

    root_targets-find :
        (rs : List (ExprRoot Ref)) (r : ExprRoot Ref) (ts : List (Target Ref))
        → root_targets be ms post_dag rs ≡ done (ok ts)
        → Memᴰ r rs
        → (t : Target Ref) × Memᴰ t ts × (root_target be ms post_dag r ≡ done (ok t))
    unfolding root_targets
    root_targets-find [] r ts h m = absurd (Memᴰ.not-nil m)
    root_targets-find (q ∷ rs) r ts h m =
        let (t, a, b) = and_then_done (root_target be ms post_dag q) _ ts h in
        let (us, c, d) = and_then_done (root_targets be ms post_dag rs) _ ts b in
        let same = ok_inj (done_inj d) in
        elim m [
          | Memᴰ.head e ↦ (
            t,
            subst (λ l. Memᴰ t l) same (Memᴰ.head refl),
            subst (λ x. root_target be ms post_dag x ≡ done (ok t)) (sym e) a,
          )
          | Memᴰ.tail k ↦
              let (w, i, j) = root_targets-find rs r us c k in
              (w, subst (λ l. Memᴰ w l) same (Memᴰ.tail i), j)
        ]

    -- Among the targets that `makeTargets` returns there is one for each expression file: it is
    -- defined in the file, has the file's expression, and its graph is the one that is built from the
    -- expression and placed at the file's path.
    pub make_targets-root :
        (roots : List (ExprRoot Ref)) (sets : List (StmtSet Ref)) (r : ExprRoot Ref)
        (ts : List (Target Ref))
        → make_targets be ms post_dag roots sets ≡ done (ok ts)
        → Memᴰ r roots
        → (t : Target Ref) × Memᴰ t ts
          × (t.defined_in ≡ r.path)
          × (t.spec ≡ r.spec)
          × (make_graph_from_expr be ms post_dag r.expr r.path ≡ done (ok t.dag))
    unfolding make_targets
    make_targets-root roots sets r ts h m =
        let (us, a, b) = and_then_done (root_targets be ms post_dag roots) _ ts h in
        let (vs, c, d) = and_then_done (set_targets be ms post_dag sets) _ ts b in
        let (t, i, j) = root_targets-find roots r us a m in
        let (x, y, z) = root_target_parts r t j in
        (
          t,
          subst (λ l. Memᴰ t l) (ok_inj (done_inj d))
              (sort-keeps t (us ++ vs) (mem_left t us vs i)),
          x,
          y,
          z,
        )
