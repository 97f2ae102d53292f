-- ===== src/WantC/Targets.antt =====
-- `makeTargets` and `makeGraphFromExpr` (compiler.go) and `Target` (plan.go). `post_dag` stands for the posting of a
-- graph; `slices.SortFunc` is an insertion sort.
use want.Common.{
  ℕ, suc, if◌then◌else◌, ltb, Bool, true, false, Option, none, some, List, [], ◌∷◌, ◌++◌, drop,
}
use want.Common.Text.{Str, str_eq}
use want.Common.Order.{str_lt}
use want.Common.Outcome.{Outcome, out_of_fuel, panic, done}
use want.Common.Result.{Result, ok, err}
use want.StringSets.PathSets.{to_path_set}
use want.WantCfg.{PathSet}
use want.WantCfg.Exprs.{ConfigExpr, Statement, statement_expr}
use want.WantDag.Nodes.{Node}
use want.WantDag.Builder.{finish}
use want.WantC.Exprs.{Expr}
use want.WantC.Graph.{GraphError, Run, next, new_graph_builder, expr, place}
use want.WantC.Compile.{CompileError, Backend, filter_expr}
use want.WantC.Lower.{Modules}
use want.WantC.Stmts.{PutStmt, StmtSet, ExprRoot, root_affects}

-- `Target`.
pub record Target (Ref : Type 0) : Type 0 where
  pub to : PathSet
  pub dag : Ref
  pub spec : ConfigExpr Ref
  pub defined_in : Str
  pub is_statement : Bool
  pub defined_num : ℕ

pub data TargetError : Type 0 where
  graph_error : GraphError → TargetError
  filter_error : CompileError → TargetError
  dag_failed : TargetError

abbrev pub Try : Type 0 → Type 0
Try A = Outcome (Result TargetError A)

abbrev pub and_then : {A B : Type 0} → Try A → (A → Try B) → Try B
and_then out_of_fuel f = out_of_fuel
and_then panic f = panic
and_then (done (err e)) f = done (err e)
and_then (done (ok x)) f = f x

-- A call that cannot fail but panics.
abbrev pub sure : {A : Type 0} → Outcome A → Try A
sure out_of_fuel = out_of_fuel
sure panic = panic
sure (done x) = done (ok x)

module _ {Ref : Type 0} where
  -- The order of `makeTargets`: whether the comparison is negative.
  unfoldable pub target_lt : Target Ref → Target Ref → Bool
  unfolding str_eq str_lt
  target_lt a b =
      if str_eq a.defined_in b.defined_in
      then ltb a.defined_num b.defined_num
      else str_lt a.defined_in b.defined_in

  unfoldable pub insert : Target Ref → List (Target Ref) → List (Target Ref)
  unfolding target_lt
  insert t [] = t ∷ []
  insert t (u ∷ us) = let rest = insert t us in if target_lt u t then u ∷ rest else t ∷ u ∷ us

  unfoldable pub sort : List (Target Ref) → List (Target Ref)
  unfolding insert
  sort [] = []
  sort (t ∷ ts) = insert t (sort ts)

  module _ (be : Backend Ref) (ms : Modules Ref) (post_dag : List (Node Ref) → Option Ref) where
    abbrev pub posted_dag : Option Ref → Try Ref
    posted_dag none = done (err dag_failed)
    posted_dag (some r) = done (ok r)

    abbrev pub posted_graph : Run Ref ℕ → Try Ref
    posted_graph out_of_fuel = out_of_fuel
    posted_graph panic = panic
    posted_graph (done (err e, g)) = done (err (graph_error e))
    posted_graph (done (ok n, g)) = posted_dag (post_dag (finish g.b))

    -- `makeGraphFromExpr`.
    unfoldable pub make_graph_from_expr : Expr Ref → Str → Try Ref
    unfolding expr place finish new_graph_builder
    make_graph_from_expr x to = posted_graph (
        next (expr ms.cid ms.hash be.sync be.post_blob be.clean x new_graph_builder)
          λ n g. place be.sync be.post_blob be.clean to n g)

    abbrev pub root_with : ExprRoot Ref → Ref → PathSet → Target Ref
    root_with r dag to = record {
      to = to;
      dag = dag;
      spec = r.spec;
      defined_in = r.path;
      is_statement = false;
      defined_num = 0;
    }

    -- The target of an expression file.
    unfoldable pub root_target : ExprRoot Ref → Try (Target Ref)
    unfolding make_graph_from_expr to_path_set root_affects
    root_target r =
        and_then (make_graph_from_expr r.expr r.path)
          λ dag. and_then (sure (to_path_set (root_affects r))) λ to. done (ok (root_with r dag to))

    abbrev pub filtered_expr : Result CompileError (Expr Ref) → Try (Expr Ref)
    filtered_expr (err e) = done (err (filter_error e))
    filtered_expr (ok x) = done (ok x)

    abbrev pub first_spec : List (Statement Ref) → Outcome (ConfigExpr Ref)
    first_spec [] = panic
    first_spec (spec ∷ specs) = statement_expr spec

    -- The target of statement number `i` of the file at `path`, where `specs` begin with that statement.
    unfoldable pub stmt_target : Str → ℕ → PutStmt Ref → List (Statement Ref) → Try (Target Ref)
    unfolding filter_expr make_graph_from_expr to_path_set statement_expr
    stmt_target path i s specs = and_then (sure (to_path_set s.dst)) λ to.
        and_then (filtered_expr (filter_expr be s.src to)) λ x.
          and_then (make_graph_from_expr x []) λ dag. and_then (sure (first_spec specs)) λ e. done (
            ok (record {
              to = to;
              dag = dag;
              spec = e;
              defined_in = path;
              is_statement = true;
              defined_num = i;
            }))

    -- The loops of `makeTargets`: over the expression files, over the statements of a file, and over the
    -- statement files.
    unfoldable pub root_targets : List (ExprRoot Ref) → Try (List (Target Ref))
    unfolding root_target
    root_targets [] = done (ok [])
    root_targets (r ∷ rs) =
        and_then (root_target r) λ t. and_then (root_targets rs) λ ts. done (ok (t ∷ ts))

    unfoldable pub stmt_targets :
        Str → ℕ → List (PutStmt Ref) → List (Statement Ref) → Try (List (Target Ref))
    unfolding stmt_target
    stmt_targets path i [] specs = done (ok [])
    stmt_targets path i (s ∷ ss) specs =
        and_then (stmt_target path i s specs)
          λ t. and_then (stmt_targets path (suc i) ss (drop 1 specs)) λ ts. done (ok (t ∷ ts))

    unfoldable pub set_targets : List (StmtSet Ref) → Try (List (Target Ref))
    unfolding stmt_targets
    set_targets [] = done (ok [])
    set_targets (sl ∷ sls) =
        and_then (stmt_targets sl.path 0 sl.stmts sl.specs)
          λ ts. and_then (set_targets sls) λ us. done (ok (ts ++ us))

    -- `makeTargets`.
    unfoldable pub make_targets : List (ExprRoot Ref) → List (StmtSet Ref) → Try (List (Target Ref))
    unfolding root_targets set_targets sort
    make_targets roots sets =
        and_then (root_targets roots)
          λ ts. and_then (set_targets sets) λ us. done (ok (sort (ts ++ us)))
