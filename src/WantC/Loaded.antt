-- ===== src/WantC/Loaded.antt =====
-- What the loading and the checking of statement files (compiler.go) let through, and `lowerSelections`.
use want.Common.{
  ℕ, suc, ◌≡◌, refl, sym, ap, ◌∙◌, subst, ◌++◌, false, true, Bool, if◌then◌else◌, List, [], ◌∷◌,
}
use mathlib.Core.List.{Memᴰ}
use mathlib.Core.List.Memᴰ
use want.Common.Text.{Str, bytes, has_prefix}
use want.Common.Outcome.{Outcome, done, bind_done, done_inj}
use want.Common.Result.{Result, ok, err, both_ok, ok_inj}
use want.StringSets.Sets.{Set, prefix, contains}
use want.StringSets.Simplify.{decide_subset, decide_intersects}
use want.StringSets.Meaning.{decide_superset-covers, decide_intersects-disjoint}
use want.Common.Strings.{trim_left}
use want.WantCfg.Exprs.{Statement}
use want.WantC.Paths.{parent_path}
use want.WantC.Exprs.{Expr}
use want.WantC.Vfs.{VfsNode, vfs_add}
use want.WantC.Compile.{Backend, CompileError}
use want.WantC.Lower.{Submodule, Modules, replace_selections}
use want.WantC.Lowered.{Closed, CacheClosed, Leaves, bind-Leaves, replace_selections-Lowers}
use want.WantC.Stmts.{
  PutStmt, StmtSet, ExprRoot, LoadError, check_stmt, check_from, check_stmts, allowed, next_stmt,
  add_stmts, with_stmts, file_stmts, parse_stmt_set, load_stmt_file, lower_roots, lower_stmts,
  lower_sets, lower_selections,
}

passes :
    (a b : Bool) (e : LoadError) (r : Result LoadError Unit)
    → (if a then r else if b then err e else r) ≡ ok tt
    → (r ≡ ok tt) × (a ≡ false → b ≡ false)
passes true b e r h = (h, λ q. cc)
passes false true e r h = (cc, cc)
passes false false e r h = (h, λ q. refl)

module _ {Ref : Type 0} where
  check_stmt-apart :
      (path : Str) (i : ℕ) (dst : Set) (sms : List (Submodule Ref)) (sm : Submodule Ref)
      → check_stmt path i dst sms ≡ ok tt
      → Memᴰ sm sms
      → has_prefix path sm.p ≡ false
      → decide_intersects (prefix sm.p) dst ≡ false
  unfolding check_stmt
  check_stmt-apart path i dst [] sm h m out = absurd (Memᴰ.not-nil m)
  check_stmt-apart path i dst (s ∷ sms) sm h (Memᴰ.head e) out =
      let same = subst (λ q. has_prefix path (q.p) ≡ false) e out in
      subst (λ q. decide_intersects (prefix (q.p)) dst ≡ false) (sym e) ((passes _ _ _ _ h).1 same)
  check_stmt-apart path i dst (s ∷ sms) sm h (Memᴰ.tail m) out =
      check_stmt-apart path i dst sms sm ((passes _ _ _ _ h).0) m out

  check_from-apart :
      (sms : List (Submodule Ref)) (path : Str) (i : ℕ) (ss : List (PutStmt Ref)) (s : PutStmt Ref)
      (sm : Submodule Ref)
      → check_from sms path i ss ≡ ok tt
      → Memᴰ s ss
      → Memᴰ sm sms
      → has_prefix path sm.p ≡ false
      → decide_intersects (prefix sm.p) s.dst ≡ false
  unfolding check_from
  check_from-apart sms path i [] s sm h m m2 out = absurd (Memᴰ.not-nil m)
  check_from-apart sms path i (t ∷ ss) s sm h m m2 out =
      let (u, first, rest) = both_ok _ (check_stmt path i t.dst sms) h in
      elim m [
        | Memᴰ.head e ↦
            subst (λ q. decide_intersects (prefix sm.p) (q.dst) ≡ false) (sym e)
              (check_stmt-apart path i t.dst sms sm first m2 out)
        | Memᴰ.tail k ↦ check_from-apart sms path (suc i) ss s sm rest k m2 out
      ]

  -- `checkStmts` accepts only statements whose sets have no path that begins with the path of a
  -- submodule, for every statement and every submodule whose path is not, byte for byte, the start of the
  -- path of the statement's file. Of a file whose path does start with it, such as `mx.wants` beside
  -- the submodule `m`, nothing is claimed: the code takes it to be in the submodule.
  pub check_stmts-apart :
      (sms : List (Submodule Ref)) (sls : List (StmtSet Ref)) (sl : StmtSet Ref) (s : PutStmt Ref)
      (sm : Submodule Ref) (x : Str)
      → check_stmts sms sls ≡ ok tt
      → Memᴰ sl sls
      → Memᴰ s sl.stmts
      → Memᴰ sm sms
      → has_prefix sl.path sm.p ≡ false
      → has_prefix x sm.p ≡ true
      → contains s.dst x ≡ false
  unfolding check_stmts contains
  check_stmts-apart sms [] sl s sm x h m m2 m3 out q = absurd (Memᴰ.not-nil m)
  check_stmts-apart sms (t ∷ sls) sl s sm x h m m2 m3 out q =
      let (u, first, rest) = both_ok _ (check_from sms t.path 0 t.stmts) h in
      elim m [
        | Memᴰ.head e ↦
            let here : check_from sms sl.path 0 sl.stmts ≡ ok tt =
              subst (λ r. check_from sms (r.path) 0 (r.stmts) ≡ ok tt) (sym e) first in
            decide_intersects-disjoint (prefix sm.p) s.dst
              (check_from-apart sms sl.path 0 sl.stmts s sm here m2 m3 out) x q
        | Memᴰ.tail k ↦ check_stmts-apart sms sls sl s sm x rest k m2 m3 out q
      ]

  abbrev pub RootsClosed : List (ExprRoot Ref) → Type 0
  RootsClosed [] = Unit
  RootsClosed (r ∷ rs) = Closed r.expr × RootsClosed rs

  abbrev pub StmtsClosed : List (PutStmt Ref) → Type 0
  StmtsClosed [] = Unit
  StmtsClosed (s ∷ ss) = Closed s.src × StmtsClosed ss

  abbrev pub SetsClosed : List (StmtSet Ref) → Type 0
  SetsClosed [] = Unit
  SetsClosed (sl ∷ sls) = StmtsClosed sl.stmts × SetsClosed sls

  module _ (be : Backend Ref) where
    subset_taken :
        (a : Bool) (e : LoadError) (r : Outcome (Result LoadError (VfsNode (Expr Ref))))
        (w : VfsNode (Expr Ref))
        → (if a then r else done (err e)) ≡ done (ok w)
        → (a ≡ true) × (r ≡ done (ok w))
    subset_taken true e r w h = (refl, h)
    subset_taken false e r w h = cc

    next_stmt-goes_on :
        (p : Str) (i : ℕ) (r : Result (Set × Set) (VfsNode (Expr Ref)))
        (next : VfsNode (Expr Ref) → Outcome (Result LoadError (VfsNode (Expr Ref))))
        (w : VfsNode (Expr Ref))
        → next_stmt be p i r next ≡ done (ok w)
        → (v : VfsNode (Expr Ref)) × (next v ≡ done (ok w))
    next_stmt-goes_on p i (err (a, b)) next w h = cc
    next_stmt-goes_on p i (ok v) next w h = (v, h)

    add_stmts-allowed :
        (f : ℕ) (p : Str) (i : ℕ) (v w : VfsNode (Expr Ref)) (ss : List (PutStmt Ref))
        (s : PutStmt Ref)
        → add_stmts be f p i v ss ≡ done (ok w)
        → Memᴰ s ss
        → decide_subset s.dst (allowed be p) ≡ true
    unfolding add_stmts
    add_stmts-allowed f p i v w [] s h m = absurd (Memᴰ.not-nil m)
    add_stmts-allowed f p i v w (t ∷ ss) s h m =
        let (here, rest) = subset_taken _ _ _ w h in
        let (r, a, more) = bind_done _ (vfs_add f v _) rest in
        let (v2, others) = next_stmt-goes_on p i r _ w more in
        elim m [
          | Memᴰ.head e ↦ subst (λ q. decide_subset (q.dst) (allowed be p) ≡ true) (sym e) here
          | Memᴰ.tail k ↦ add_stmts-allowed f p (suc i) v2 w ss s others k
        ]

    with_stmts-same :
        (sl sl2 : StmtSet Ref) (r : Result LoadError (VfsNode (Expr Ref))) (w : VfsNode (Expr Ref))
        → with_stmts be sl r ≡ done (ok (w, sl2))
        → (r ≡ ok w) × (sl ≡ sl2)
    with_stmts-same sl sl2 (err e) w h = cc
    with_stmts-same sl sl2 (ok v) w h =
        let pair : ◌≡◌ {A = VfsNode (Expr Ref) × StmtSet Ref} (v, sl) (w, sl2) =
          ok_inj (done_inj h) in
        (ap (λ q. ok (q.0)) pair, ap (λ q. q.1) pair)

    file_stmts-allowed :
        (f : ℕ) (v w : VfsNode (Expr Ref)) (p : Str) (r : Result CompileError (StmtSet Ref))
        (sl : StmtSet Ref) (s : PutStmt Ref)
        → file_stmts be f v p r ≡ done (ok (w, sl))
        → Memᴰ s sl.stmts
        → decide_subset s.dst (allowed be p) ≡ true
    file_stmts-allowed f v w p (err e) sl s h m = cc
    file_stmts-allowed f v w p (ok sl2) sl s h m =
        let (r, a, b) = bind_done _ (add_stmts be f p 0 v sl2.stmts) h in
        let (c, d) = with_stmts-same sl2 sl r w b in
        add_stmts-allowed f p 0 v w sl2.stmts s (a ∙ ap done c)
          (subst (λ q. Memᴰ s (q.stmts)) (sym d) m)

    -- When a statement file has been loaded, every path that one of its statements may write lies in
    -- the parent tree of the file or below.
    pub load_stmt_file-below :
        (f : ℕ) (v w : VfsNode (Expr Ref)) (p : Str) (specs : List (Statement Ref))
        (sl : StmtSet Ref) (s : PutStmt Ref) (x : Str)
        → load_stmt_file be f v p specs ≡ done (ok (w, sl))
        → Memᴰ s sl.stmts
        → contains s.dst x ≡ true
        → has_prefix x (trim_left (parent_path be.clean p ++ bytes "/")) ≡ true
    unfolding load_stmt_file decide_subset allowed contains
    load_stmt_file-below f v w p specs sl s x h m q =
        decide_superset-covers (allowed be p) s.dst
          (file_stmts-allowed f v w p (parse_stmt_set be p specs) sl s h m) x q

    module _ (ms : Modules Ref) (f n : ℕ) where
      lower_roots-Leaves :
          (c : List (Str × Expr Ref)) (rs : List (ExprRoot Ref))
          → CacheClosed be ms c
          → Leaves be ms RootsClosed (lower_roots be ms f n c rs)
      unfolding lower_roots
      lower_roots-Leaves c [] h = (tt, h)
      lower_roots-Leaves c (r ∷ rs) h =
          bind-Leaves be ms Closed RootsClosed (replace_selections be ms f n c r.expr) _
            (replace_selections-Lowers be ms f n c r.expr h)
            (λ e c1 he h1.
              bind-Leaves be ms RootsClosed RootsClosed (lower_roots be ms f n c1 rs) _
                (lower_roots-Leaves c1 rs h1) (λ es c2 hes h2. ((he, hes), h2)))

      lower_stmts-Leaves :
          (c : List (Str × Expr Ref)) (ss : List (PutStmt Ref))
          → CacheClosed be ms c
          → Leaves be ms StmtsClosed (lower_stmts be ms f n c ss)
      unfolding lower_stmts
      lower_stmts-Leaves c [] h = (tt, h)
      lower_stmts-Leaves c (s ∷ ss) h =
          bind-Leaves be ms Closed StmtsClosed (replace_selections be ms f n c s.src) _
            (replace_selections-Lowers be ms f n c s.src h)
            (λ e c1 he h1.
              bind-Leaves be ms StmtsClosed StmtsClosed (lower_stmts be ms f n c1 ss) _
                (lower_stmts-Leaves c1 ss h1) (λ es c2 hes h2. ((he, hes), h2)))

      lower_sets-Leaves :
          (c : List (Str × Expr Ref)) (sls : List (StmtSet Ref))
          → CacheClosed be ms c
          → Leaves be ms SetsClosed (lower_sets be ms f n c sls)
      unfolding lower_sets
      lower_sets-Leaves c [] h = (tt, h)
      lower_sets-Leaves c (sl ∷ sls) h =
          bind-Leaves be ms StmtsClosed SetsClosed (lower_stmts be ms f n c sl.stmts) _
            (lower_stmts-Leaves c sl.stmts h)
            (λ es c1 hes h1.
              bind-Leaves be ms SetsClosed SetsClosed (lower_sets be ms f n c1 sls) _
                (lower_sets-Leaves c1 sls h1) (λ ys c2 hys h2. ((hes, hys), h2)))

      -- After `lowerSelections` no expression of an expression file and no source of a statement has
      -- a selection in it, at any depth.
      pub lower_selections-Closed :
          (roots rs : List (ExprRoot Ref)) (sets ss : List (StmtSet Ref))
          (c : List (Str × Expr Ref))
          → lower_selections be ms f n roots sets ≡ done (ok ((rs, ss), c))
          → RootsClosed rs × SetsClosed ss
      unfolding lower_selections
      lower_selections-Closed roots rs sets ss c h =
          let all =
            bind-Leaves be ms RootsClosed (λ q. RootsClosed (q.0) × SetsClosed (q.1))
              (lower_roots be ms f n [] roots) _ (lower_roots-Leaves [] roots tt)
              (λ xs c1 hxs h1.
                bind-Leaves be ms SetsClosed (λ q. RootsClosed (q.0) × SetsClosed (q.1))
                  (lower_sets be ms f n c1 sets) _ (lower_sets-Leaves c1 sets h1)
                  (λ ys c2 hys h2. ((hxs, hys), h2))) in
          (subst (Leaves be ms (λ q. RootsClosed (q.0) × SetsClosed (q.1))) h all).0
