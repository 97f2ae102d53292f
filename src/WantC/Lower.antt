-- ===== src/WantC/Lower.antt =====
-- `query` and `selectGround` (selections.go) and `replaceSelections` (compiler.go). `filter_paths` stands for
-- `glfs.FilterPaths`; a map is a list of pairs.
use want.Common.{ℕ, zero, suc, if◌then◌else◌, Bool, Option, none, some, List, [], ◌∷◌}
use want.Common.Text.{Str, str_eq}
use want.Common.Outcome.{Outcome, out_of_fuel, panic, done, ◌>>=◌}
use want.Common.Result.{Result, ok, err, if_ok}
use want.StringSets.Sets.{Set, contains}
use want.StringSets.PathSets.{to_path_set}
use want.WantCfg.{PathSet}
use want.WantC.Exprs.{Expr, Inputs, compute, selection, value, no_inputs, input, key}
use want.WantC.Compile.{
  CompileError, post_failed, missing_module, missing_ground, Backend, filter_expr, place_at, merge,
}
use want.WantC.Vfs.{Entry, VfsNode, vfs_get}

-- `submodule`.
pub record Submodule (Ref : Type 0) : Type 0 where
  pub p : Str
  pub root : Ref

abbrev pub find_key : {A : Type 0} → Str → List (Str × A) → Option A
find_key k [] = none
find_key k ((j, x) ∷ xs) = if str_eq j k then some x else find_key k xs

-- `if err != nil { return nil, err }` in code that may also panic.
abbrev pub then_ok :
    {A B : Type 0}
    → Result CompileError A
    → (A → Outcome (Result CompileError B))
    → Outcome (Result CompileError B)
then_ok (err e) f = done (err e)
then_ok (ok x) f = f x

-- What the compiler knows of the modules.
pub record Modules (Ref : Type 0) : Type 0 where
  pub ground : Ref
  pub sub_mods : List (Submodule Ref)
  pub cid : Ref → Str
  pub hash : Str → Str
  pub filter_paths : Ref → (Str → Bool) → Option Ref
  -- The VFS of each module.
  pub vfss : List (Str × VfsNode (Expr Ref))

module _ {Ref : Type 0} (be : Backend Ref) (ms : Modules Ref) where
  -- The loop of `query` over the entries.
  unfoldable pub query_layers :
      PathSet → List (Entry (Expr Ref)) → Result CompileError (List (Expr Ref))
  unfolding filter_expr place_at
  query_layers q [] = ok []
  query_layers q (e ∷ es) =
      let rest = query_layers q es in
      if_ok (place_at be e.v e.place_at)
        λ x. if_ok (filter_expr be x q) λ y. if_ok rest λ ls. ok (y ∷ ls)

  -- `query`, with `f` levels of calls in `BoundingPrefix`.
  unfoldable pub query : ℕ → VfsNode (Expr Ref) → Set → Outcome (Result CompileError (Expr Ref))
  unfolding vfs_get to_path_set query_layers merge
  query f v ks = do
    ents ← vfs_get f v ks
    q ← to_path_set ks
    done (if_ok (query_layers q ents) λ ls. ok (merge be ls))

  -- The loop of `selectGround` over the submodules.
  unfoldable pub find_submodule : Str → List (Submodule Ref) → Option Ref
  unfolding str_eq
  find_submodule id [] = none
  find_submodule id (sm ∷ sms) =
      if str_eq (ms.cid sm.root) id then some sm.root else find_submodule id sms

  abbrev pub filtered : Option Ref → Result CompileError (Expr Ref)
  filtered none = err post_failed
  filtered (some r) = ok (value r)

  -- What `selectGround` does with the module that it finds.
  abbrev pub select_from : Str → Set → Option Ref → Result CompileError (Expr Ref)
  select_from id s none = err (missing_ground id)
  select_from id s (some r) = filtered (ms.filter_paths ms.ground (contains s))

  -- `selectGround`.
  unfoldable pub select_ground : Str → Set → Result CompileError (Expr Ref)
  unfolding str_eq find_submodule contains
  select_ground id s =
      select_from id s
        (if str_eq id (ms.cid ms.ground) then some ms.ground else find_submodule id ms.sub_mods)

  abbrev pub Cache : Type 0
  Cache = List (Str × Expr Ref)

  -- What is returned with the cache.
  abbrev pub Lowered : Type 0 → Type 0
  Lowered A = Outcome (Result CompileError (A × Cache))

  abbrev pub bind : {A B : Type 0} → Lowered A → (A → Cache → Lowered B) → Lowered B
  bind out_of_fuel f = out_of_fuel
  bind panic f = panic
  bind (done (err e)) f = done (err e)
  bind (done (ok (x, c))) f = f x c

  -- The loop over the inputs of a computation.
  unfoldable pub replace_inputs :
      (Cache → Expr Ref → Lowered (Expr Ref)) → Cache → Inputs Ref → Lowered (Inputs Ref)
  replace_inputs rec c no_inputs = done (ok (no_inputs, c))
  replace_inputs rec c (input to from mode ins) =
      bind (rec c from)
        λ e c1. bind (replace_inputs rec c1 ins) λ es c2. done (ok (input to e mode es, c2))

  -- What a selection is replaced with first.
  unfoldable pub select_expr : ℕ → Str → Bool → Set → Outcome (Result CompileError (Expr Ref))
  unfolding query select_ground
  select_expr f id derived s = elim (find_key id ms.vfss) [
    | none ↦ done (err (missing_module id))
    | some v ↦ if derived then query f v s else done (select_ground id s)
  ]

  -- The switch of `replaceSelections`.
  unfoldable pub replace_body :
      ℕ → (Cache → Expr Ref → Lowered (Expr Ref)) → Cache → Expr Ref → Lowered (Expr Ref)
  unfolding replace_inputs select_expr
  replace_body f rec c (compute op ins) =
      bind (replace_inputs rec c ins) λ es c1. done (ok (compute op es, c1))
  replace_body f rec c (selection id derived s) = do
    r ← select_expr f id derived s
    then_ok r (λ e. rec c e)
  replace_body f rec c (value r) = done (ok (value r, c))

  abbrev pub cached : Str → Cache → Option (Expr Ref) → Lowered (Expr Ref) → Lowered (Expr Ref)
  cached k c (some y) made = done (ok (y, c))
  cached k c none made = bind made λ y c1. done (ok (y, (k, y) ∷ c1))

  -- `replaceSelections`, on fuel for the depth of its calls.
  unfoldable pub replace_selections : ℕ → ℕ → Cache → Expr Ref → Lowered (Expr Ref)
  unfolding key replace_body
  replace_selections f zero c e = out_of_fuel
  replace_selections f (suc n) c e = do
    k ← key ms.cid ms.hash e
    cached k c (find_key k c) (replace_body f (replace_selections f n) c e)
