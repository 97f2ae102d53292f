-- ===== src/WantCfg/Exprs.antt =====
-- src/wantcfg/expr.go and statement.go: the expressions and statements of configuration files. A field
-- that is omitted is `none` or `no_tree`, `no_compute`; `Ref` stands for `glfs.Ref`, and a mode is a number.
use want.Common.{ℕ, Bool, true, false, Option, none, some}
use want.Common.Text.{Str}
use want.Common.Outcome.{Outcome, panic, done}
use want.WantCfg.{PathSet}

pub record Source : Type 0 where
  pub module_id : Str
  pub derived : Bool
  pub caller_path : Str

pub record Selection : Type 0 where
  pub source : Source
  pub query : PathSet
  pub pick : Str

mutual
  -- `Expr`: the fields Blob, Tree, Ref, Compute and Selection.
  pub data ConfigExpr (Ref : Type 0) : Type 0 where
    config_expr :
        Option Str
        → MaybeTree Ref
        → Option Ref
        → MaybeCompute Ref
        → Option Selection
        → ConfigExpr Ref

  pub data MaybeTree (Ref : Type 0) : Type 0 where
    no_tree : MaybeTree Ref
    a_tree : Tree Ref → MaybeTree Ref

  -- `Tree`, of entries with Name, Mode and Value.
  pub data Tree (Ref : Type 0) : Type 0 where
    no_entries : Tree Ref
    entry : Str → ℕ → ConfigExpr Ref → Tree Ref → Tree Ref

  pub data MaybeCompute (Ref : Type 0) : Type 0 where
    no_compute : MaybeCompute Ref
    a_compute : Str → ConfigInputs Ref → MaybeCompute Ref

  -- The inputs of a `Compute`, each with To, From and Mode.
  pub data ConfigInputs (Ref : Type 0) : Type 0 where
    no_config_inputs : ConfigInputs Ref
    config_input : Str → ConfigExpr Ref → ℕ → ConfigInputs Ref → ConfigInputs Ref

module _ {Ref : Type 0} where
  -- `Blob`.
  unfoldable pub of_blob : Str → ConfigExpr Ref
  of_blob x = config_expr (some x) no_tree none no_compute none

  -- `Literal`.
  unfoldable pub of_literal : Ref → ConfigExpr Ref
  of_literal r = config_expr none no_tree (some r) no_compute none

  -- `IsValue`.
  unfoldable pub is_value : ConfigExpr Ref → Bool
  is_value (config_expr (some x) t r c s) = true
  is_value (config_expr none (a_tree es) r c s) = true
  is_value (config_expr none no_tree r c s) = false

pub record Put (Ref : Type 0) : Type 0 where
  pub dst : PathSet
  pub src : ConfigExpr Ref
  pub place : Str

-- `Statement`, of the optional field Put.
pub record Statement (Ref : Type 0) : Type 0 where
  pub put : Option (Put Ref)

-- `Statement.Expr`.
unfoldable pub statement_expr : {Ref : Type 0} → Statement Ref → Outcome (ConfigExpr Ref)
statement_expr s = elim s.put [ none ↦ panic | some p ↦ done p.src ]
