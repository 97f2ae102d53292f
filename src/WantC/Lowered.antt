-- ===== src/WantC/Lowered.antt =====
-- What `compileExpr` (expr.go) and `replaceSelections` (compiler.go) make of expressions with selections.
use want.Common.{
  ℕ, zero, suc, ◌≡◌, refl, sym, ap, ◌∙◌, subst, inl, inr, Bool, Bool-cases, Option, none, some,
  List, [], ◌∷◌, arith,
}
use want.Common.Text.{Str, str_eq, str_eq_refl}
use want.Common.Outcome.{Outcome, out_of_fuel, panic, done, ◌>>=◌, bind_done, done_inj}
use want.Common.Result.{Result, ok, err, bind_ok, ok_inj}
use want.StringSets.Sets.{Set}
use want.WantCfg.Exprs.{
  ConfigExpr, ConfigInputs, config_expr, no_tree, a_tree, no_compute, a_compute, no_config_inputs,
  config_input,
}
use want.WantC.Exprs.{Expr, Inputs, compute, selection, value, no_inputs, input, key}
use want.WantC.Compile.{
  CompileError, Backend, compile_expr, compile_inputs, compile_blob, compile_tree, compile_ref,
  as_value,
}
use want.WantC.Lower.{
  Modules, find_key, then_ok, Lowered, bind, replace_inputs, select_expr, replace_body, cached,
  replace_selections,
}

module _ {Ref : Type 0} where
  abbrev mutual
    -- No selection occurs.
    pub Closed : Expr Ref → Type 0
    Closed (compute op ins) = AllClosed ins
    Closed (selection m d s) = ⊥
    Closed (value r) = Unit

    pub AllClosed : Inputs Ref → Type 0
    AllClosed no_inputs = Unit
    AllClosed (input to from mode ins) = Closed from × AllClosed ins

  as_value-Closed :
      (be : Backend Ref) (r : Result CompileError Ref) (e : Expr Ref)
      → as_value be r ≡ ok e
      → Closed e
  as_value-Closed be (err x) e h = cc
  as_value-Closed be (ok x) e h = subst Closed (ok_inj h) tt

  module _ (be : Backend Ref) where
    mutual
      unfolding compile_expr compile_inputs

      compiled_Closed : (x : ConfigExpr Ref) (e : Expr Ref) → compile_expr be [] x ≡ ok e → Closed e
      compiled_Closed (config_expr (some b) t r c s) e h =
          as_value-Closed be (compile_blob be b) e h
      compiled_Closed (config_expr none (a_tree es) r c s) e h =
          as_value-Closed be (compile_tree be es) e h
      compiled_Closed (config_expr none no_tree (some r) c s) e h =
          as_value-Closed be (compile_ref be r) e h
      compiled_Closed (config_expr none no_tree none (a_compute op ins) s) e h =
          let (xs, f, g) = bind_ok _ (compile_inputs be [] ins) h in
          subst Closed (ok_inj g) (compile_inputs-Closed ins xs f)
      compiled_Closed (config_expr none no_tree none no_compute (some s)) e h = cc
      compiled_Closed (config_expr none no_tree none no_compute none) e h = cc

      compile_inputs-Closed :
          (ins : ConfigInputs Ref) (xs : Inputs Ref)
          → compile_inputs be [] ins ≡ ok xs
          → AllClosed xs
      compile_inputs-Closed no_config_inputs xs h = subst AllClosed (ok_inj h) tt
      compile_inputs-Closed (config_input to from mode ins) xs h =
          let (y, f, g) = bind_ok _ (compile_expr be [] from) h in
          let (ys, k, l) = bind_ok _ (compile_inputs be [] ins) g in
          subst AllClosed (ok_inj l) (compiled_Closed from y f, compile_inputs-Closed ins ys k)

    -- An expression that is compiled outside of a file has no selection in it: the compiler
    -- refuses them all, at every depth.
    pub compile_expr-Closed :
        (x : ConfigExpr Ref) (e : Expr Ref) → compile_expr be [] x ≡ ok e → Closed e
    compile_expr-Closed = compiled_Closed

    module _ (ms : Modules Ref) where
      -- Every expression of the cache is closed.
      abbrev pub CacheClosed : List (Str × Expr Ref) → Type 0
      CacheClosed [] = Unit
      CacheClosed ((k, e) ∷ c) = Closed e × CacheClosed c

      find_key-Closed :
          (k : Str) (c : List (Str × Expr Ref)) (y : Expr Ref)
          → CacheClosed c
          → find_key k c ≡ some y
          → Closed y
      find_key-Closed k [] y h e = cc
      find_key-Closed k ((j, x) ∷ c) y h e = elim (Bool-cases (str_eq j k)) [
        | inl q ↦ let same : x ≡ y = ground (arith, e, q) in subst Closed same h.0
        | inr q ↦ find_key-Closed k c y h.1 (ground (arith, e, q))
      ]

      -- What has been returned satisfies `P` and leaves a closed cache; an error or a panic is passed on.
      abbrev pub Leaves : {A : Type 0} → (A → Type 0) → Lowered be ms A → Type 0
      Leaves P (done (ok (x, c))) = P x × CacheClosed c
      Leaves P (done (err e)) = Unit
      Leaves P out_of_fuel = Unit
      Leaves P panic = Unit

      pub bind-Leaves :
          {A B : Type 0} (P : A → Type 0) (Q : B → Type 0) (m : Lowered be ms A)
          (f : A → List (Str × Expr Ref) → Lowered be ms B)
          → Leaves P m
          → ((x : A) (c : List (Str × Expr Ref)) → P x → CacheClosed c → Leaves Q (f x c))
          → Leaves Q (bind be ms m f)
      bind-Leaves P Q (done (ok (x, c))) f h k = k x c h.0 h.1
      bind-Leaves P Q (done (err e)) f h k = tt
      bind-Leaves P Q out_of_fuel f h k = tt
      bind-Leaves P Q panic f h k = tt

      abbrev pub Lowers : (List (Str × Expr Ref) → Expr Ref → Lowered be ms (Expr Ref)) → Type 0
      Lowers rec =
          (c : List (Str × Expr Ref)) (e : Expr Ref) → CacheClosed c → Leaves Closed (rec c e)

      replace_inputs-Leaves :
          (rec : List (Str × Expr Ref) → Expr Ref → Lowered be ms (Expr Ref))
          → Lowers rec
          → (c : List (Str × Expr Ref)) (ins : Inputs Ref) → CacheClosed c
          → Leaves AllClosed (replace_inputs be ms rec c ins)
      unfolding replace_inputs
      replace_inputs-Leaves rec good c no_inputs h = (tt, h)
      replace_inputs-Leaves rec good c (input to from mode ins) h =
          bind-Leaves Closed AllClosed (rec c from) _ (good c from h) (λ e c1 he h1.
            bind-Leaves AllClosed AllClosed (replace_inputs be ms rec c1 ins) _
              (replace_inputs-Leaves rec good c1 ins h1) (λ es c2 hes h2. ((he, hes), h2)))

      selected-Leaves :
          (rec : List (Str × Expr Ref) → Expr Ref → Lowered be ms (Expr Ref))
          → Lowers rec
          → (c : List (Str × Expr Ref)) → CacheClosed c
          → (r : Outcome (Result CompileError (Expr Ref)))
          → Leaves Closed (r >>= λ x. then_ok x (λ e. rec c e))
      selected-Leaves rec good c h out_of_fuel = tt
      selected-Leaves rec good c h panic = tt
      selected-Leaves rec good c h (done (err e)) = tt
      selected-Leaves rec good c h (done (ok x)) = good c x h

      replace_body-Leaves :
          (f : ℕ) (rec : List (Str × Expr Ref) → Expr Ref → Lowered be ms (Expr Ref))
          → Lowers rec
          → Lowers (replace_body be ms f rec)
      unfolding replace_body
      replace_body-Leaves f rec good c (compute op ins) h =
          bind-Leaves AllClosed Closed (replace_inputs be ms rec c ins) _
            (replace_inputs-Leaves rec good c ins h) (λ es c1 hes h1. (hes, h1))
      replace_body-Leaves f rec good c (selection m d s) h =
          selected-Leaves rec good c h (select_expr be ms f m d s)
      replace_body-Leaves f rec good c (value r) h = (tt, h)

      cached-Leaves :
          (k : Str) (c : List (Str × Expr Ref)) (o : Option (Expr Ref))
          (made : Lowered be ms (Expr Ref))
          → CacheClosed c
          → ((y : Expr Ref) → o ≡ some y → Closed y)
          → Leaves Closed made
          → Leaves Closed (cached be ms k c o made)
      cached-Leaves k c (some y) made h hit m = (hit y refl, h)
      cached-Leaves k c none made h hit m =
          bind-Leaves Closed Closed made _ m (λ y c1 hy h1. (hy, (hy, h1)))

      keyed-Leaves :
          (o : Outcome Str) (f : Str → Lowered be ms (Expr Ref))
          → ((k : Str) → Leaves Closed (f k))
          → Leaves Closed (o >>= f)
      keyed-Leaves out_of_fuel f h = tt
      keyed-Leaves panic f h = tt
      keyed-Leaves (done k) f h = h k

      pub replace_selections-Lowers : (f n : ℕ) → Lowers (replace_selections be ms f n)
      unfolding replace_selections
      replace_selections-Lowers f zero c e h = tt
      replace_selections-Lowers f (suc n) c e h = keyed-Leaves (key ms.cid ms.hash e) _ (λ k.
          cached-Leaves k c (find_key k c) _ h (λ y q. find_key-Closed k c y h q)
            (replace_body-Leaves f (replace_selections be ms f n) (replace_selections-Lowers f n) c
              e h))

      -- `replaceSelections` leaves no selection at any depth of the expression that it returns or of the
      -- expressions in its cache, when it starts with a cache of expressions without selections.
      pub replace_selections-Closed :
          (f n : ℕ) (c d : List (Str × Expr Ref)) (e y : Expr Ref)
          → CacheClosed c
          → replace_selections be ms f n c e ≡ done (ok (y, d))
          → Closed y × CacheClosed d
      replace_selections-Closed f n c d e y h r =
          subst (Leaves Closed) r (replace_selections-Lowers f n c e h)

      bind-stored :
          (k : Str) (made : Lowered be ms (Expr Ref)) (y : Expr Ref) (d : List (Str × Expr Ref))
          → bind be ms made (λ z c1. done (ok (z, (k, z) ∷ c1))) ≡ done (ok (y, d))
          → find_key k d ≡ some y
      bind-stored k (done (ok (z, c1))) y d h =
          let pair : ◌≡◌ {A = Expr Ref × List (Str × Expr Ref)} (z, (k, z) ∷ c1) (y, d) =
            ok_inj (done_inj h) in
          let stored : find_key k ((k, z) ∷ c1) ≡ some z = rw (str_eq_refl k) refl in
          subst (λ l. find_key k l ≡ some y) (ap (λ q. q.1) pair)
            (stored ∙ ap (λ q. some (q.0)) pair)
      bind-stored k (done (err e)) y d h = cc
      bind-stored k out_of_fuel y d h = cc
      bind-stored k panic y d h = cc

      cached-find :
          (k : Str) (c : List (Str × Expr Ref)) (o : Option (Expr Ref))
          (made : Lowered be ms (Expr Ref)) (y : Expr Ref) (d : List (Str × Expr Ref))
          → find_key k c ≡ o
          → cached be ms k c o made ≡ done (ok (y, d))
          → find_key k d ≡ some y
      cached-find k c none made y d e h = bind-stored k made y d h
      cached-find k c (some z) made y d e h =
          let pair : ◌≡◌ {A = Expr Ref × List (Str × Expr Ref)} (z, c) (y, d) =
            ok_inj (done_inj h) in
          subst (λ l. find_key k l ≡ some y) (ap (λ q. q.1) pair) (e ∙ ap (λ q. some (q.0)) pair)

      -- The key of a selection is that of its set: once a selection has been replaced, every selection
      -- of the same set is replaced with the same expression, also one of another module, and one from
      -- the sources in place of the outputs.
      pub replace_selections_mixed :
          (f n : ℕ) (c d : List (Str × Expr Ref)) (id id2 : Str) (derived derived2 : Bool) (s : Set)
          (y : Expr Ref)
          → replace_selections be ms f (suc n) c (selection id derived s) ≡ done (ok (y, d))
          → (replace_selections be ms f (suc n) d (selection id2 derived2 s) ≡ done (ok (y, d)))
      unfolding replace_selections key
      replace_selections_mixed f n c d id id2 derived derived2 s y h =
          let (k, keyed, r) = bind_done _ (key ms.cid ms.hash (selection id derived s)) h in
          let found = cached-find k c (find_key k c) _ y d refl r in
          subst
            (λ o.
              (o >>= λ j.
              cached be ms j d (find_key j d)
                (replace_body be ms f (replace_selections be ms f n) d (selection id2 derived2 s)))
              ≡ done (ok (y, d)))
            (sym keyed)
            (subst
              (λ o.
                cached be ms k d o
                  (replace_body be ms f (replace_selections be ms f n) d (selection id2 derived2 s))
                ≡ done (ok (y, d)))
              (sym found) refl)
