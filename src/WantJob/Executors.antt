-- ===== src/WantJob/Executors.antt =====
-- `BasicExecutor` and `MultiExecutor` (tasks.go). The maps are association lists; `not_found` stands
-- for the text of `ErrOpNotFound`, and an operation for what it makes of its input.
use want.Common.{
  ◌==◌, if◌then◌else◌, Bool, true, false, Option, none, some, List, [], ◌∷◌, ◌++◌, ◌≡◌, refl, arith,
  Option-cases, inl, inr,
}
use want.Common.Text.{Str, str_eq}
use want.Common.Outcome.{Outcome, done, panic}
use want.WantJob.Results.{JobResult, Task, err_exec}

-- The entry of a map under a key; the keys of a Go map differ.
unfoldable pub lookup : {V : Type 0} → Str → List (Str × V) → Option V
unfolding str_eq
lookup k [] = none
lookup k ((j, v) ∷ m) = if str_eq j k then some v else lookup k m

-- An executor, which may panic.
abbrev pub Executor : Type 0
Executor = Task → Outcome JobResult

-- `strings.SplitN(s, ".", 2)`: the text before the first dot, and the text behind it, if any.
unfoldable pub split_dot : Str → Str × Option Str
split_dot [] = ([], none)
split_dot (c ∷ s) =
    let rest = split_dot s in if c == b'.' then ([], some s) else (c ∷ rest.0, rest.1)

-- A name without a dot.
abbrev pub is_plain : Str → Bool
is_plain [] = true
is_plain (c ∷ s) = if c == b'.' then false else is_plain s

split_dot-append : (p s : Str) → is_plain p ≡ true → split_dot (p ++ b'.' ∷ s) ≡ (p, some s)
unfolding split_dot
split_dot-append [] s h = refl
split_dot-append (c ∷ p) s h = ground (arith, split_dot-append p s)

split_dot-plain : (p : Str) → is_plain p ≡ true → split_dot p ≡ (p, none)
unfolding split_dot
split_dot-plain [] h = refl
split_dot-plain (c ∷ p) h = ground (arith, split_dot-plain p)

module _ (not_found : Str → Str) where
  unfoldable pub basic_executor : List (Str × (Str → JobResult)) → Executor
  unfolding lookup err_exec
  basic_executor exec task = elim (lookup task.op exec) [
    | none ↦ done (err_exec (not_found task.op))
    | some fn ↦ done (fn task.input)
  ]

  abbrev pub delegate : Executor → Option Str → Str → Outcome JobResult
  delegate e none input = panic
  delegate e (some op) input = e (record { op = op; input = input })

  -- The executor that was found, or the report that there is none.
  abbrev pub dispatch : Option Executor → Task → Option Str → Outcome JobResult
  dispatch none task rest = done (err_exec (not_found task.op))
  dispatch (some e) task rest = delegate e rest task.input

  unfoldable pub multi_executor : List (Str × Executor) → Executor
  unfolding lookup split_dot err_exec
  multi_executor me task =
      let parts = split_dot task.op in dispatch (lookup parts.0 me) task parts.1

  -- `MultiExecutor` looks a task named `p.s` up under `p`, and hands it to the executor found there as
  -- a task named `s` with the same input, whatever dots `s` has; under a name `p` that it does not
  -- know it reports that the whole operation is not found.
  pub multi_executor_lem :
      (me : List (Str × Executor)) (p s input : Str)
      → is_plain p ≡ true
      → multi_executor me (record { op = p ++ b'.' ∷ s; input = input }) ≡ elim (lookup p me) [
        | none ↦ done (err_exec (not_found (p ++ b'.' ∷ s)))
        | some e ↦ e (record { op = s; input = input })
      ]
  unfolding multi_executor
  multi_executor_lem me p s input h =
      rw (split_dot-append p s h, multi_executor)
        (elim (Option-cases (lookup p me)) [ inl e ↦ rw e | inr (x, e) ↦ rw e ])

  -- A task whose operation is the bare name of an executor, with no dot, panics.
  pub multi_executor-panic :
      (me : List (Str × Executor)) (p input : Str) (e : Executor)
      → is_plain p ≡ true
      → lookup p me ≡ some e
      → multi_executor me (record { op = p; input = input }) ≡ panic
  unfolding multi_executor
  multi_executor-panic me p input e h found = rw (split_dot-plain p h, multi_executor) (rw found)
