-- ===== src/WantC/Compile.antt =====
-- `compileExpr` and what it calls (expr.go), and `pickExpr` and `filterExpr` (compiler.go), `placeAt` and `merge`
-- (selections.go). The agent of glfs and the store are a `Backend`.
use want.Common.{ℕ, suc, ◌++◌, if◌then◌else◌, Bool, true, false, Option, none, some, List, [], ◌∷◌}
use want.Common.Text.{Str, bytes}
use want.Common.Hex.{hex_padded}
use want.Common.Result.{Result, ok, err, ◌>>=◌}
use want.Stores.Getters.{Getter, GetError, exists_on_get}
use want.StringSets.Sets.{Set, empty, unit, prefix, subtract}
use want.StringSets.Simplify.{simplified, equals}
use want.StringSets.Combine.{union}
use want.WantCfg.{PathSet}
use want.WantCfg.Exprs.{
  ConfigExpr, Tree, ConfigInputs, Selection, config_expr, no_tree, a_tree, no_entries, entry,
  no_compute, a_compute, no_config_inputs, config_input,
}
use want.WantC.Exprs.{Expr, Inputs, compute, value, no_inputs, input, new_selection}
use want.WantC.Paths.{path_from, is_expr_file_path}
use want.WantC.Queries.{set_from_query}

pub data CompileError : Type 0 where
  post_failed walk_failed sync_failed bad_source bad_tree : CompileError
  no_selections empty_statement : CompileError
  empty_expr empty_caller_path : Str → CompileError
  empty_selection : Set → CompileError
  missing_blob : ℕ → CompileError
  read_failed : GetError → CompileError
  missing_module missing_ground : Str → CompileError

-- `glfs.TreeEntry`.
pub record GlfsEntry (Ref : Type 0) : Type 0 where
  pub name : Str
  pub mode : ℕ
  pub ref : Ref

pub record Backend (Ref : Type 0) : Type 0 where
  -- `glfs.PostBlob` and `glfs.PostTreeSlice` into the destination.
  pub post_blob : Str → Option Ref
  pub post_tree : List (GlfsEntry Ref) → Option Ref
  -- The blobs that `WalkRefs` finds from a reference in the source.
  pub walk_refs : Ref → Option (List ℕ)
  pub src : Getter
  -- `glfstasks.FastSync` from the source to the destination.
  pub sync : Ref → Bool
  -- `glfs.CleanPath`, `UnmarshalBase64` of an id, and `json.Marshal` of a path set.
  pub clean : Str → Str
  pub decode_id : Str → Option Str
  pub marshal : PathSet → Str

module _ {Ref : Type 0} (be : Backend Ref) where
  abbrev pub posted : Option Ref → Result CompileError Ref
  posted none = err post_failed
  posted (some r) = ok r

  -- `pickExpr`.
  unfoldable pub pick_expr : Expr Ref → Str → Result CompileError (Expr Ref)
  pick_expr x [] = ok x
  pick_expr x (c ∷ p) = posted (be.post_blob (c ∷ p)) >>= λ r. ok (
      compute (bytes "glfs.pick")
        (input (bytes "x") x 0 (input (bytes "path") (value r) 0 no_inputs)))

  -- `filterExpr`.
  unfoldable pub filter_expr : Expr Ref → PathSet → Result CompileError (Expr Ref)
  filter_expr x q = posted (be.post_blob (be.marshal q)) >>= λ r. ok (
      compute (bytes "glfs.filterPathSet")
        (input (bytes "x") x 0 (input (bytes "filter") (value r) 0 no_inputs)))

  -- `placeAt`.
  unfoldable pub place_at : Expr Ref → Str → Result CompileError (Expr Ref)
  place_at x [] = ok x
  place_at x (c ∷ p) = posted (be.post_blob (c ∷ p)) >>= λ r. ok (
      compute (bytes "glfs.place")
        (input (bytes "x") x 0 (input (bytes "path") (value r) 0 no_inputs)))

  -- The inputs of `merge` from number `i` on; the mode is 0o777.
  unfoldable pub merge_inputs : ℕ → List (Expr Ref) → Inputs Ref
  unfolding hex_padded
  merge_inputs i [] = no_inputs
  merge_inputs i (l ∷ ls) = input (hex_padded 8 i) l 511 (merge_inputs (suc i) ls)

  -- `merge`.
  unfoldable pub merge : List (Expr Ref) → Expr Ref
  unfolding merge_inputs
  merge layers = compute (bytes "glfs.merge") (merge_inputs 0 layers)

  -- `compileBlob`.
  unfoldable pub compile_blob : Str → Result CompileError Ref
  compile_blob x = posted (be.post_blob x)

  abbrev pub is_there : ℕ → Result GetError Bool → Result CompileError (Unit {0})
  is_there id (ok true) = ok tt
  is_there id (ok false) = err (missing_blob id)
  is_there id (err e) = err (read_failed e)

  -- The callback of `WalkRefs` in `compileRef`, for each blob.
  unfoldable pub check_blobs : List ℕ → Result CompileError (Unit {0})
  unfolding exists_on_get
  check_blobs [] = ok tt
  check_blobs (id ∷ ids) =
      let rest = check_blobs ids in is_there id (exists_on_get be.src id) >>= λ u. rest

  abbrev pub walked : Option (List ℕ) → Result CompileError (List ℕ)
  walked none = err walk_failed
  walked (some ids) = ok ids

  -- `compileRef`.
  unfoldable pub compile_ref : Ref → Result CompileError Ref
  unfolding check_blobs
  compile_ref r = walked (be.walk_refs r) >>= λ ids.
      check_blobs ids >>= λ u. (if be.sync r then ok r else err sync_failed)

  -- The set of a selection, where it is not empty.
  unfoldable pub not_empty : Set → Result CompileError Set
  unfolding equals
  not_empty ks = if equals ks empty then err (empty_selection ks) else ok ks

  -- The set that a selection selects, asked from `caller`.
  unfoldable pub selected : Bool → Str → PathSet → Set
  unfolding set_from_query is_expr_file_path simplified subtract union
  selected true caller q =
      let ks = set_from_query caller q in
      simplified (
        if is_expr_file_path caller
        then subtract ks (union (unit caller ∷ prefix (caller ++ bytes "/") ∷ []))
        else ks)
  selected false caller q = simplified (set_from_query caller q)

  abbrev pub source_id : Option Str → Result CompileError Str
  source_id none = err bad_source
  source_id (some id) = ok id

  abbrev pub caller_of : Str → Str → Result CompileError Str
  caller_of at [] = err (empty_caller_path at)
  caller_of at (c ∷ p) = ok (be.clean (c ∷ p))

  -- `compileSelection`.
  unfoldable pub compile_selection : Str → Selection → Result CompileError (Expr Ref)
  unfolding path_from pick_expr not_empty selected new_selection
  compile_selection at s = source_id (be.decode_id s.source.module_id) >>= λ id.
      caller_of at s.source.caller_path >>= λ caller.
      not_empty (selected s.source.derived caller s.query) >>= λ ks.
      pick_expr (new_selection id s.source.derived ks) (path_from caller s.pick)

  abbrev pub selection_at : Str → Selection → Result CompileError (Expr Ref)
  selection_at [] s = err no_selections
  selection_at (c ∷ p) s = compile_selection (c ∷ p) s

  abbrev pub as_value : Result CompileError Ref → Result CompileError (Expr Ref)
  as_value r = r >>= λ x. ok (value x)

  unfoldable mutual
    unfolding compile_blob compile_ref

    -- The loop of `compileTree`.
    pub compile_entries : Tree Ref → Result CompileError (List (GlfsEntry Ref))
    compile_entries no_entries = ok []
    compile_entries (entry name mode v es) = compile_literal v >>= λ r.
        compile_entries es >>= λ gs. ok (record { name = name; mode = mode; ref = r } ∷ gs)

    -- Its switch.
    pub compile_literal : ConfigExpr Ref → Result CompileError Ref
    compile_literal (config_expr (some x) t r c s) = compile_blob x
    compile_literal (config_expr none (a_tree es) r c s) =
        compile_entries es >>= λ gs. posted (be.post_tree gs)
    compile_literal (config_expr none no_tree (some r) c s) = compile_ref r
    compile_literal (config_expr none no_tree none c s) = err bad_tree

  -- `compileTree`.
  unfoldable pub compile_tree : Tree Ref → Result CompileError Ref
  unfolding compile_entries
  compile_tree es = compile_entries es >>= λ gs. posted (be.post_tree gs)

  unfoldable mutual
    unfolding compile_blob compile_ref compile_tree compile_selection

    -- `compileExpr`, and `compileCompute`.
    pub compile_expr : Str → ConfigExpr Ref → Result CompileError (Expr Ref)
    compile_expr at (config_expr (some x) t r c s) = as_value (compile_blob x)
    compile_expr at (config_expr none (a_tree es) r c s) = as_value (compile_tree es)
    compile_expr at (config_expr none no_tree (some r) c s) = as_value (compile_ref r)
    compile_expr at (config_expr none no_tree none (a_compute op ins) s) =
        compile_inputs at ins >>= λ xs. ok (compute op xs)
    compile_expr at (config_expr none no_tree none no_compute (some s)) = selection_at at s
    compile_expr at (config_expr none no_tree none no_compute none) = err (empty_expr at)

    -- `compileInputs`.
    pub compile_inputs : Str → ConfigInputs Ref → Result CompileError (Inputs Ref)
    compile_inputs at no_config_inputs = ok no_inputs
    compile_inputs at (config_input to from mode ins) =
        compile_expr at from >>= λ x. compile_inputs at ins >>= λ xs. ok (input to x mode xs)
