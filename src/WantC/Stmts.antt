-- ===== src/WantC/Stmts.antt =====
-- Statement files and expression files (stmt.go, expr_file.go, and of compiler.go `loadExprFile`, `loadStmtFile`,
-- `checkStmts` and `lowerSelections`), from where Jsonnet and JSON have given the configuration.
use want.Common.{ℕ, suc, ◌++◌, if◌then◌else◌, false, Option, none, some, List, [], ◌∷◌}
use want.Common.Text.{Str, bytes, has_prefix}
use want.Common.Strings.{trim, trim_left}
use want.Common.Outcome.{Outcome, panic, done, ◌>>=◌}
use want.Common.Result.{Result, ok, err, if_ok}
use want.StringSets.Sets.{Set, unit, prefix}
use want.StringSets.Simplify.{decide_subset, decide_intersects}
use want.StringSets.Combine.{union}
use want.WantCfg.Exprs.{ConfigExpr, Statement, Put}
use want.WantC.Exprs.{Expr, needs}
use want.WantC.Paths.{path_from, parent_path}
use want.WantC.Queries.{set_from_query}
use want.WantC.Vfs.{VfsNode, vfs_add}
use want.WantC.Compile.{CompileError, empty_statement, Backend, compile_expr, place_at}
use want.WantC.Lower.{Submodule, Modules, Cache, Lowered, bind, replace_selections}

-- `putStmt`.
pub record PutStmt (Ref : Type 0) : Type 0 where
  pub dst : Set
  pub src : Expr Ref

-- `stmtSet`.
pub record StmtSet (Ref : Type 0) : Type 0 where
  pub path : Str
  pub specs : List (Statement Ref)
  pub stmts : List (PutStmt Ref)

-- `exprRoot`.
pub record ExprRoot (Ref : Type 0) : Type 0 where
  pub spec : ConfigExpr Ref
  pub path : Str
  pub expr : Expr Ref

pub data LoadError : Type 0 where
  compile_error : CompileError → LoadError
  -- A statement that affects paths outside of the parent tree of its file.
  outside : Str → Set → LoadError
  -- `ErrConflict` of statement number `i` of a file.
  conflict : Str → ℕ → Set → Set → LoadError
  -- `ErrSubmoduleConflict`: DefinedIn, DefinedNum and Submodule.
  submodule_conflict : Str → ℕ → Str → LoadError

module _ {Ref : Type 0} where
  -- `exprRoot.Affects`.
  unfoldable pub root_affects : ExprRoot Ref → Set
  unfolding union
  root_affects r = union (unit r.path ∷ prefix (r.path ++ bytes "/") ∷ [])

  -- `stmtSet.Affects`, and its loop.
  unfoldable pub all_affects : List (PutStmt Ref) → List Set
  all_affects [] = []
  all_affects (s ∷ ss) = s.dst ∷ all_affects ss

  unfoldable pub stmts_affect : StmtSet Ref → Set
  unfolding union all_affects
  stmts_affect sl = union (all_affects sl.stmts)

  -- `stmtSet.Needs`, and its loop.
  unfoldable pub all_needs : List (PutStmt Ref) → List Set
  unfolding needs
  all_needs [] = []
  all_needs (s ∷ ss) = needs s.src ∷ all_needs ss

  unfoldable pub stmts_need : StmtSet Ref → Set
  unfolding union all_needs
  stmts_need sl = union (all_needs sl.stmts)

  -- The loop of `checkStmts` over the submodules, for statement number `i` of the file at `path`.
  unfoldable pub check_stmt : Str → ℕ → Set → List (Submodule Ref) → Result LoadError Unit
  unfolding has_prefix decide_intersects
  check_stmt path i dst [] = ok tt
  check_stmt path i dst (sm ∷ sms) =
      let rest = check_stmt path i dst sms in
      if has_prefix path sm.p
      then rest
      else if decide_intersects (prefix sm.p) dst
      then err (submodule_conflict path i sm.p)
      else rest

  -- Its loop over the statements of a file, from number `i` on.
  unfoldable pub check_from :
      List (Submodule Ref) → Str → ℕ → List (PutStmt Ref) → Result LoadError Unit
  unfolding check_stmt
  check_from sms path i [] = ok tt
  check_from sms path i (s ∷ ss) =
      if_ok (check_stmt path i s.dst sms) λ u. check_from sms path (suc i) ss

  -- `checkStmts`.
  unfoldable pub check_stmts : List (Submodule Ref) → List (StmtSet Ref) → Result LoadError Unit
  unfolding check_from
  check_stmts sms [] = ok tt
  check_stmts sms (sl ∷ sls) = if_ok (check_from sms sl.path 0 sl.stmts) λ u. check_stmts sms sls

  module _ (be : Backend Ref) where
    abbrev pub put_stmt : Str → Option (Put Ref) → Result CompileError (PutStmt Ref)
    put_stmt at none = err empty_statement
    put_stmt at (some p) = if_ok (compile_expr be at p.src) λ e.
        if_ok (place_at be e (path_from at p.place))
          λ x. ok (record { dst = set_from_query at p.dst; src = x })

    -- `parseStmtSet`, its loop.
    unfoldable pub parse_stmts :
        Str → List (Statement Ref) → Result CompileError (List (PutStmt Ref))
    unfolding compile_expr place_at path_from set_from_query
    parse_stmts at [] = ok []
    parse_stmts at (s ∷ ss) =
        let rest = parse_stmts at ss in if_ok (put_stmt at s.put) λ x. if_ok rest λ xs. ok (x ∷ xs)

    -- `parseStmtSet`.
    unfoldable pub parse_stmt_set : Str → List (Statement Ref) → Result CompileError (StmtSet Ref)
    unfolding parse_stmts
    parse_stmt_set at specs =
        if_ok (parse_stmts at specs) λ xs. ok (record { path = at; specs = specs; stmts = xs })

    -- `parseExprRoot`, of a path between slashes.
    unfoldable pub parse_expr_root : Str → ConfigExpr Ref → Result CompileError (ExprRoot Ref)
    unfolding trim compile_expr
    parse_expr_root p spec =
        if_ok (compile_expr be (trim p) spec)
          λ e. ok (record { spec = spec; path = trim p; expr = e })

    abbrev pub filed :
        {A : Type 0}
        → A
        → Result (Set × Set) (VfsNode (Expr Ref))
        → Outcome (Result LoadError (VfsNode (Expr Ref) × A))
    filed x (err ks) = panic
    filed x (ok v) = done (ok (v, x))

    abbrev pub file_root :
        ℕ
        → VfsNode (Expr Ref)
        → Str
        → Result CompileError (ExprRoot Ref)
        → Outcome (Result LoadError (VfsNode (Expr Ref) × ExprRoot Ref))
    file_root f v p (err e) = done (err (compile_error e))
    file_root f v p (ok er) = do
      r ← vfs_add f v (record {
        k = root_affects er;
        v = er.expr;
        place_at = p;
        is_submodule = false;
        defined_in = p;
        defined_num = 0;
      })
      filed er r

    -- `loadExprFile`.
    unfoldable pub load_expr_file :
        ℕ
        → VfsNode (Expr Ref)
        → Str
        → ConfigExpr Ref
        → Outcome (Result LoadError (VfsNode (Expr Ref) × ExprRoot Ref))
    unfolding vfs_add parse_expr_root root_affects
    load_expr_file f v p spec = file_root f v p (parse_expr_root p spec)

    -- What the statements of the file at `p` may affect.
    unfoldable pub allowed : Str → Set
    unfolding trim_left parent_path
    allowed p = prefix (trim_left (parent_path be.clean p ++ bytes "/"))

    abbrev pub next_stmt :
        Str
        → ℕ
        → Result (Set × Set) (VfsNode (Expr Ref))
        → (VfsNode (Expr Ref) → Outcome (Result LoadError (VfsNode (Expr Ref))))
        → Outcome (Result LoadError (VfsNode (Expr Ref)))
    next_stmt p i (err (a, b)) next = done (err (conflict p i a b))
    next_stmt p i (ok v) next = next v

    -- The loop of `loadStmtFile`, from statement number `i` on.
    unfoldable pub add_stmts :
        ℕ
        → Str
        → ℕ
        → VfsNode (Expr Ref)
        → List (PutStmt Ref)
        → Outcome (Result LoadError (VfsNode (Expr Ref)))
    unfolding vfs_add decide_subset allowed
    add_stmts f p i v [] = done (ok v)
    add_stmts f p i v (s ∷ ss) =
        let rest = (do
          r ← vfs_add f v (record {
            k = s.dst;
            v = s.src;
            place_at = [];
            is_submodule = false;
            defined_in = p;
            defined_num = 0;
          })
          next_stmt p i r (λ w. add_stmts f p (suc i) w ss)) in
        if decide_subset s.dst (allowed p) then rest else done (err (outside p s.dst))

    abbrev pub with_stmts :
        StmtSet Ref
        → Result LoadError (VfsNode (Expr Ref))
        → Outcome (Result LoadError (VfsNode (Expr Ref) × StmtSet Ref))
    with_stmts sl (err e) = done (err e)
    with_stmts sl (ok v) = done (ok (v, sl))

    abbrev pub file_stmts :
        ℕ
        → VfsNode (Expr Ref)
        → Str
        → Result CompileError (StmtSet Ref)
        → Outcome (Result LoadError (VfsNode (Expr Ref) × StmtSet Ref))
    file_stmts f v p (err e) = done (err (compile_error e))
    file_stmts f v p (ok sl) = do r ← add_stmts f p 0 v sl.stmts; with_stmts sl r

    -- `loadStmtFile`.
    unfoldable pub load_stmt_file :
        ℕ
        → VfsNode (Expr Ref)
        → Str
        → List (Statement Ref)
        → Outcome (Result LoadError (VfsNode (Expr Ref) × StmtSet Ref))
    unfolding parse_stmt_set add_stmts
    load_stmt_file f v p specs = file_stmts f v p (parse_stmt_set p specs)

    module _ (ms : Modules Ref) (f n : ℕ) where
      -- `lowerSelections`: its loops over the files of expressions, the statements of a file, and the files
      -- of statements.
      unfoldable pub lower_roots :
          Cache be ms → List (ExprRoot Ref) → Lowered be ms (List (ExprRoot Ref))
      unfolding replace_selections
      lower_roots c [] = done (ok ([], c))
      lower_roots c (r ∷ rs) =
          bind be ms (replace_selections be ms f n c r.expr) λ e c1.
            bind be ms (lower_roots c1 rs) λ es c2. done (ok (record r { expr = e } ∷ es, c2))

      unfoldable pub lower_stmts :
          Cache be ms → List (PutStmt Ref) → Lowered be ms (List (PutStmt Ref))
      unfolding replace_selections
      lower_stmts c [] = done (ok ([], c))
      lower_stmts c (s ∷ ss) =
          bind be ms (replace_selections be ms f n c s.src) λ e c1.
            bind be ms (lower_stmts c1 ss) λ es c2. done (ok (record s { src = e } ∷ es, c2))

      unfoldable pub lower_sets :
          Cache be ms → List (StmtSet Ref) → Lowered be ms (List (StmtSet Ref))
      unfolding lower_stmts
      lower_sets c [] = done (ok ([], c))
      lower_sets c (sl ∷ sls) = bind be ms (lower_stmts c sl.stmts) λ xs c1.
          bind be ms (lower_sets c1 sls) λ ys c2. done (ok (record sl { stmts = xs } ∷ ys, c2))

      -- `lowerSelections`.
      unfoldable pub lower_selections :
          List (ExprRoot Ref)
          → List (StmtSet Ref)
          → Lowered be ms (List (ExprRoot Ref) × List (StmtSet Ref))
      unfolding lower_roots lower_sets
      lower_selections roots sets =
          bind be ms (lower_roots [] roots)
            λ rs c. bind be ms (lower_sets c sets) λ ss d. done (ok ((rs, ss), d))
