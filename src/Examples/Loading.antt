-- ===== src/Examples/Loading.antt =====
-- Statement files, expression files and targets at concrete inputs.
use want.Common.{ℕ, ◌≡◌, refl, true, false, none, some, List, [], ◌∷◌}
use want.Common.Text.{bytes, has_prefix}
use want.Common.Outcome.{done}
use want.Common.Result.{ok}
use want.StringSets.Sets.{unit, prefix, contains}
use want.WantCfg.{of_prefix}
use want.WantCfg.Exprs.{Statement, config_expr, no_tree, no_compute}
use want.WantC.Exprs.{Expr, value}
use want.WantC.Paths.{path_from, parent_path}
use want.WantC.Queries.{set_from_query}
use want.WantC.Vfs.{new_vfs, VfsNode, vfs_node, no_children, child}
use want.WantC.Stmts.{PutStmt, StmtSet, ExprRoot, check_stmts, load_stmt_file, lower_selections}
use want.WantC.Loaded.{
  RootsClosed, SetsClosed, check_stmts-apart, load_stmt_file-below, lower_selections-Closed,
}
use mathlib.Core.List.{Memᴰ}
use want.Common.Strings.{trim_left, split_on, join}
use want.WantDag.Nodes.{Node}
use want.Common.{Option}
use want.WantCfg.{of_union, of_unit, pair}
use want.WantC.Targets.{Target, make_targets, make_graph_from_expr}
use want.WantC.Ordered.{make_targets-root}
use want.Common.{◌==◌, ◌++◌, arith}
use want.WantC.Plans.{
  Plan, PlanCodec, plan_entries, dag_entries, an_entry, get_plan, get_plan-plan_entries,
}
use want.Examples.Lowering.{toy_backend, toy_modules, a_snippet, a_selection, after_selection}

abbrev a_stmt : PutStmt ℕ
a_stmt = record { dst = unit (bytes "b"); src = value 1 }

abbrev a_stmt_set : StmtSet ℕ
a_stmt_set = record { path = bytes "a.wants"; specs = []; stmts = a_stmt ∷ [] }

check_stmts-apart_example : contains (unit (bytes "b")) (bytes "m/x") ≡ false
unfolding check_stmts has_prefix
check_stmts-apart_example =
    check_stmts-apart (record { p = bytes "m"; root = 7 } ∷ []) (a_stmt_set ∷ []) a_stmt_set a_stmt
      (record { p = bytes "m"; root = 7 }) (bytes "m/x") refl (Memᴰ.head refl) (Memᴰ.head refl)
      (Memᴰ.head refl) refl refl

abbrev below_d : PutStmt ℕ
below_d = record { dst = prefix (bytes "d/e"); src = value 1 }

abbrev a_statement : Statement ℕ
a_statement = record {
  put = some (record {
    dst = of_prefix (bytes "./e");
    src = config_expr (some (bytes "hi")) no_tree none no_compute none;
    place = [];
  });
}

abbrev filed_below : VfsNode (Expr ℕ)
filed_below =
    vfs_node none
      (child (bytes "d")
        (vfs_node none
          (child (bytes "e")
            (vfs_node none no_children (
              record {
                k = below_d.dst;
                v = below_d.src;
                place_at = [];
                is_submodule = false;
                defined_in = bytes "d/a.wants";
                defined_num = 0;
              }
              ∷ []))
            no_children)
          [])
        no_children)
      []

load_stmt_file-below_example : has_prefix (bytes "d/e/x") (bytes "d/") ≡ true
unfolding load_stmt_file set_from_query path_from contains trim_left parent_path split_on join
    has_prefix of_prefix
load_stmt_file-below_example =
    load_stmt_file-below toy_backend 3 new_vfs filed_below (bytes "d/a.wants") (a_statement ∷ [])
      (record { path = bytes "d/a.wants"; specs = a_statement ∷ []; stmts = below_d ∷ [] }) below_d
      (bytes "d/e/x") refl (Memᴰ.head refl) refl

abbrev a_root : Expr ℕ → ExprRoot ℕ
a_root e = record { spec = a_snippet; path = bytes "x"; expr = e }

lower_selections-Closed_example : RootsClosed (a_root (value 9) ∷ []) × SetsClosed (a_stmt_set ∷ [])
unfolding lower_selections
lower_selections-Closed_example =
    lower_selections-Closed toy_backend toy_modules 3 3 (a_root (a_selection false) ∷ [])
      (a_root (value 9) ∷ []) (a_stmt_set ∷ []) (a_stmt_set ∷ [])
      ((1 ∷ [], value 1) ∷ after_selection) refl

abbrev with_spec : StmtSet ℕ
with_spec = record { path = bytes "a.wants"; specs = a_statement ∷ []; stmts = a_stmt ∷ [] }

abbrev toy_dag : List (Node ℕ) → Option ℕ
toy_dag ns = some 5

abbrev first_target : Target ℕ
first_target = record {
  to = of_unit (bytes "b");
  dag = 5;
  spec = config_expr (some (bytes "hi")) no_tree none no_compute none;
  defined_in = bytes "a.wants";
  is_statement = true;
  defined_num = 0;
}

abbrev second_target : Target ℕ
second_target = record {
  to = of_union (pair (of_unit (bytes "x")) (of_prefix (bytes "x/")));
  dag = 5;
  spec = a_snippet;
  defined_in = bytes "x";
  is_statement = false;
  defined_num = 0;
}

targets_made :
    make_targets toy_backend toy_modules toy_dag (a_root (value 9) ∷ []) (with_spec ∷ [])
    ≡ done (ok (first_target ∷ second_target ∷ []))
unfolding make_targets
targets_made = refl

make_targets-root_example :
    (t : Target ℕ) × Memᴰ t (first_target ∷ second_target ∷ [])
    × (t.defined_in ≡ bytes "x")
    × (t.spec ≡ a_snippet)
    × (make_graph_from_expr toy_backend toy_modules toy_dag (value 9) (bytes "x") ≡ done (ok t.dag))
make_targets-root_example =
    make_targets-root toy_backend toy_modules toy_dag (a_root (value 9) ∷ []) (with_spec ∷ [])
      (a_root (value 9)) (first_target ∷ second_target ∷ []) targets_made (Memᴰ.head refl)

abbrev a_plan : Plan ℕ
a_plan = record { known = 3; targets = first_target ∷ second_target ∷ [] }

abbrev toy_codec : PlanCodec ℕ
toy_codec = record {
  marshal = λ p. bytes "json";
  unmarshal = λ x p. some a_plan;
  get_blob = λ r. some (bytes "json");
  no_ref = 0;
  ref_eq = λ r s. r == s;
}

get_plan-plan_entries_example :
    (get_plan toy_codec (plan_entries a_plan 8) ≡ ok a_plan)
    × (get_plan toy_codec (
          dag_entries 0 a_plan.targets
          ++ an_entry (bytes "known") 3 ∷ an_entry (bytes "plan.json") 8 ∷ [])
        ≡ ok a_plan)
get_plan-plan_entries_example =
    get_plan-plan_entries toy_codec a_plan 8 refl (λ q. refl) (λ r. ground arith) refl
