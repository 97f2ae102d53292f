-- ===== src/WantDag/Exec.antt =====
-- `PrepareInput` (wantdag.go), the work on one node, and `SerialExecAll` and `SerialExecLast`
-- (serialexec.go). What the nodes are run by is a `Backend`; a store that cannot sync a reference,
-- post a tree or run a task answers with an error.
use want.Common.{
  ℕ, zero, suc, ◌==◌, if◌then◌else◌, ltb, Bool, Option, none, some, List, [], ◌∷◌, length,
}
use want.Common.Text.{Str, str_eq}
use want.Common.Result.{Result, ok, err, ◌>>=◌}
use want.WantJob.Results.{JobResult, Task, zero_result, success, has_failed}
use want.WantDag.Nodes.{NodeInput, Node, is_derived}

pub data ExecError : Type 0 where
  upstream_errored : ℕ → ExecError
  cannot_convert : ExecError
  post_failed do_failed sync_failed : ExecError
  -- A slice index out of range, which panics.
  out_of_range : ExecError

-- `glfs.TreeEntry`; the mode of a tree has the directory bit.
pub record TreeEntry (Ref : Type 0) : Type 0 where
  pub name : Str
  pub is_dir : Bool
  pub ref : Ref

pub record Backend (Ref : Type 0) : Type 0 where
  -- `ref.Type == glfs.TypeTree`.
  pub is_tree : Ref → Bool
  -- `ParseGLFSRef` and `MarshalGLFSRef`.
  pub parse_ref : Str → Option Ref
  pub marshal_ref : Ref → Str
  -- `glfs.PostTreeSlice`.
  pub post_tree : List (TreeEntry Ref) → Option Ref
  -- `wantjob.Do`.
  pub do_task : Task → Option JobResult
  -- `glfstasks.FastSync` into the job's store.
  pub fast_sync : Ref → Bool

-- `results[nid]`, with `n` results; an index that is out of range panics.
unfoldable pub resolve : ℕ → (ℕ → JobResult) → ℕ → Result ExecError JobResult
resolve n results i = if ltb i n then ok (results i) else err out_of_range

unfoldable pub update : (ℕ → JobResult) → ℕ → JobResult → ℕ → JobResult
update results i r j = if i == j then r else results j

module _ {Ref : Type 0} (be : Backend Ref) where
  unfoldable pub entry_of : NodeInput → JobResult → Result ExecError (TreeEntry Ref)
  unfolding has_failed
  entry_of i res =
      if has_failed res then err (upstream_errored i.node) else elim (be.parse_ref res.root) [
        | none ↦ err cannot_convert
        | some r ↦ ok (record { name = i.name; is_dir = be.is_tree r; ref = r })
      ]

  -- The loop of `PrepareInput`.
  unfoldable pub entries :
      ℕ → (ℕ → JobResult) → List NodeInput → Result ExecError (List (TreeEntry Ref))
  unfolding resolve entry_of
  entries n results [] = ok []
  entries n results (i ∷ ins) =
      let rest = entries n results ins in
      resolve n results i.node >>= λ res. entry_of i res >>= λ e. rest >>= λ es. ok (e ∷ es)

  abbrev pub posted : Option Ref → Result ExecError Ref
  posted none = err post_failed
  posted (some r) = ok r

  unfoldable pub input_tree : List (TreeEntry Ref) → Result ExecError Ref
  unfolding str_eq
  input_tree (e ∷ []) = if str_eq e.name [] then ok e.ref else posted (be.post_tree (e ∷ []))
  input_tree es = posted (be.post_tree es)

  -- `PrepareInput`.
  unfoldable pub prepare_input : ℕ → (ℕ → JobResult) → List NodeInput → Result ExecError Ref
  unfolding entries input_tree
  prepare_input n results ins = entries n results ins >>= λ es. input_tree es

  abbrev pub did : Option JobResult → Result ExecError JobResult
  did none = err do_failed
  did (some r) = ok r

  -- The sync of the output, where there is one.
  unfoldable pub sync_out : Option Ref → JobResult → Result ExecError JobResult
  sync_out none res = ok res
  sync_out (some r) res = if be.fast_sync r then ok res else err sync_failed

  abbrev pub run_derived : Str → Result ExecError Ref → Result ExecError JobResult
  run_derived op input = input >>= λ r.
      did (be.do_task (record { op = op; input = be.marshal_ref r })) >>= λ res.
      sync_out (be.parse_ref res.root) res

  -- The body of the loop of `SerialExecAll` and of the worker of `ParallelExecLast`.
  unfoldable pub exec_node : ℕ → (ℕ → JobResult) → Node Ref → Result ExecError JobResult
  unfolding is_derived prepare_input sync_out success
  exec_node n results x = elim x.value [
    | some r ↦ sync_out (some r) (success [] (be.marshal_ref r))
    | none ↦
        if is_derived x then run_derived x.op (prepare_input n results x.inputs) else ok zero_result
  ]

  -- The loop from node `i`, over the results of the nodes before it.
  unfoldable pub serial_loop :
      ℕ → ℕ → (ℕ → JobResult) → List (Node Ref) → Result ExecError (ℕ → JobResult)
  unfolding exec_node update
  serial_loop n i results [] = ok results
  serial_loop n i results (x ∷ xs) =
      exec_node n results x >>= λ r. serial_loop n (suc i) (update results i r) xs

  -- `SerialExecAll`.
  unfoldable pub serial_exec_all : List (Node Ref) → Result ExecError (ℕ → JobResult)
  unfolding serial_loop
  serial_exec_all xs = serial_loop (length xs) 0 (λ _. zero_result) xs

  abbrev pub last_of : ℕ → (ℕ → JobResult) → Result ExecError JobResult
  last_of zero results = err out_of_range
  last_of (suc n) results = ok (results n)

  -- `SerialExecLast`.
  unfoldable pub serial_exec_last : List (Node Ref) → Result ExecError JobResult
  unfolding serial_exec_all
  serial_exec_last xs = serial_exec_all xs >>= last_of (length xs)
