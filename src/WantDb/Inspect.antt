-- ===== src/WantDb/Inspect.antt =====
-- `InspectJob`, `getTask` and `ListJobInfos` (jobs.go). The parser of times is external: the parameter
-- `parse_time`. Rows come in the order of the tables, which the queries leave open.
use want.Common.{
  ℕ, zero, suc, ◌==◌, ◌≡◌, ◌⊎◌, inl, inr, if◌then◌else◌, Option, none, some, List, [], ◌∷◌,
  get_elem?, arith, Bool-cases, Option-cases,
}
use want.Common.Text.{Str}
use want.Common.Result.{Result, ok, err, Result-cases}
use want.WantJob.Results.{JobState, JobResult, Task}
use want.WantDb.Tables.{bad_data, no_rows, ◌>>=◌}
use want.WantDb.JobTables.{
  JobRow, Child, Root, TaskRow, Jobs, JobError, in_db, not_done, Jx, find_job, is_finished, code_of,
}
use want.WantDb.JobResults.{view_result-at}
use want.WantDb.Jobs.{lookup, lookup_job_row, job_at, result_of, view_result}

-- `Job`, with a task only from `ListJobInfos`.
pub record JobView (Time : Type 0) : Type 0 where
  pub task : Option Task
  pub state : JobState
  pub result : Option JobResult
  pub created_at : Time
  pub end_at : Option Time

-- `JobInfo`.
pub record JobInfo (Time : Type 0) : Type 0 where
  pub id : List ℕ
  pub job : JobView Time

-- The name of an operation; ids start at 1.
abbrev pub op_name : ℕ → List Str → Option Str
op_name zero ops = none
op_name (suc n) ops = get_elem? ops n

-- The operation and input of a task.
unfoldable pub task_of : Option TaskRow → List Str → Result JobError Task
task_of none ops = err (in_db no_rows)
task_of (some t) ops = elim (op_name t.op ops) [
  | none ↦ err (in_db no_rows)
  | some name ↦ ok (record { op = name; input = t.input })
]

unfoldable pub get_task : ℕ → Jobs → Result JobError Task
unfolding task_of
get_task id s = task_of (s.tasks id) s.ops

-- What a query of one row by a job id has found.
query-ok :
    {A : Type 0} (f : JobRow → Result JobError A) (id : List ℕ) (v : A) (s : Jobs)
    → ((lookup id >>= job_at f) s).0 ≡ ok v
    → (r : ℕ) × (j : JobRow) × (lookup_job_row id s ≡ ok r)
      × (find_job r s.jobs ≡ some j)
      × (f j ≡ ok v)
query-ok f id v s h = elim (Result-cases (lookup_job_row id s)) [
  | inr (x, e) ↦ absurd (ground arith)
  | inl (r, e) ↦ elim (Option-cases (find_job r s.jobs)) [
    | inl gone ↦ absurd (ground arith)
    | inr (j, at) ↦ (r, j, e, at, ground arith)
  ]
]

module _ {Time : Type 0} (parse_time : Str → Option Time) where
  unfoldable pub job_done : Time → JobRow → Option Time → Result JobError (JobView Time)
  job_done created j none = err (in_db bad_data)
  job_done created j (some ended) = ok (record {
    task = none;
    state = j.state;
    result = some (record { errcode = code_of j.errcode; root = j.res_data; schema = [] });
    created_at = created;
    end_at = some ended;
  })

  -- `mkJobFromRow`, of the parsed time of creation.
  unfoldable pub job_created : JobRow → Option Time → Result JobError (JobView Time)
  unfolding job_done
  job_created j none = err (in_db bad_data)
  job_created j (some created) =
      if is_finished j.state
      then job_done created j (parse_time j.end_at)
      else ok (record {
        task = none;
        state = j.state;
        result = none;
        created_at = created;
        end_at = none;
      })

  unfoldable pub mk_job_from_row : JobRow → Result JobError (JobView Time)
  unfolding job_created
  mk_job_from_row j = job_created j (parse_time j.created_at)

  unfoldable pub inspect_job : List ℕ → Jx (JobView Time)
  unfolding lookup_job_row mk_job_from_row
  inspect_job id = lookup id >>= job_at mk_job_from_row

  -- The info of a joined row, with the index alone as its id.
  unfoldable pub info_of : ℕ → JobRow → Jobs → Result JobError (JobInfo Time)
  unfolding mk_job_from_row get_task
  info_of idx j s = elim (mk_job_from_row j) [
    | err e ↦ err e
    | ok v ↦ elim (get_task j.task s) [
      | err e ↦ err e
      | ok t ↦ ok (record { id = idx ∷ []; job = record v { task = some t } })
    ]
  ]

  abbrev pub collect :
      Result JobError (JobInfo Time)
      → Result JobError (List (JobInfo Time))
      → Result JobError (List (JobInfo Time))
  collect (err e) rest = err e
  collect (ok v) (err e) = err e
  collect (ok v) (ok vs) = ok (v ∷ vs)

  -- The joins of `job_roots` and of `job_children` with `jobs`.
  unfoldable pub root_infos : List Root → Jobs → Result JobError (List (JobInfo Time))
  unfolding info_of
  root_infos [] s = ok []
  root_infos (r ∷ rs) s =
      let rest = root_infos rs s in
      elim (find_job r.job_row s.jobs) [ none ↦ rest | some j ↦ collect (info_of r.idx j s) rest ]

  unfoldable pub child_infos : ℕ → List Child → Jobs → Result JobError (List (JobInfo Time))
  unfolding info_of
  child_infos p [] s = ok []
  child_infos p (c ∷ cs) s =
      let rest = child_infos p cs s in
      if c.parent == p
      then elim (find_job c.child s.jobs) [
        | none ↦ rest
        | some j ↦ collect (info_of c.idx j s) rest
      ]
      else rest

  unfoldable pub list_job_infos : List ℕ → Jx (List (JobInfo Time))
  unfolding root_infos child_infos lookup_job_row
  list_job_infos [] s = (root_infos s.roots s, s)
  list_job_infos (i ∷ is) s = (lookup (i ∷ is) >>= λ p s. (child_infos p s.children s, s)) s

  -- The result of a job, and the answer of `ViewResult`.
  pub Agree : JobView Time → Result JobError (JobResult × ℕ) → Type 0
  Agree v answer =
      ((v.result ≡ none) × (answer ≡ err (not_done v.state)))
      ⊎ ((r : JobResult) × (sid : ℕ) × (v.result ≡ some r) × (answer ≡ ok (r, sid)))

  stored_result : JobRow → JobResult
  stored_result j = record { errcode = code_of j.errcode; root = j.res_data; schema = [] }

  job_done-result :
      (created : Time) (j : JobRow) (o : Option Time) (v : JobView Time)
      → job_done created j o ≡ ok v
      → v.result ≡ some (stored_result j)
  unfolding job_done stored_result
  job_done-result created j none v h = cc
  job_done-result created j (some ended) v h = ground arith

  job_created-Agree :
      (j : JobRow) (o : Option Time) (v : JobView Time)
      → job_created j o ≡ ok v
      → Agree v (result_of j)
  unfolding job_created result_of Agree stored_result
  job_created-Agree j none v h = cc
  job_created-Agree j (some created) v h = elim (Bool-cases (is_finished j.state)) [
    | inl e ↦
        let made : job_done created j (parse_time j.end_at) ≡ ok v = ground arith in
        let given = job_done-result created j (parse_time j.end_at) v made in
        inr (stored_result j, j.store_id, given, ground arith)
    | inr e ↦ inl (ground arith, ground arith)
  ]

  mk_job_from_row-Agree :
      (j : JobRow) (v : JobView Time) → mk_job_from_row j ≡ ok v → Agree v (result_of j)
  unfolding mk_job_from_row
  mk_job_from_row-Agree j v h = job_created-Agree j (parse_time j.created_at) v h

  -- When `InspectJob` returns a job, `ViewResult` agrees with it: it returns the job's result with its
  -- store where the job has one, and otherwise the error with the job's state.
  pub inspect_job-Agree :
      (id : List ℕ) (v : JobView Time) (s : Jobs)
      → (inspect_job id s).0 ≡ ok v
      → Agree v (view_result id s).0
  unfolding inspect_job
  inspect_job-Agree id v s h =
      let (r, j, e, at, made) = query-ok mk_job_from_row id v s h in
      let view = view_result-at id r j s e at in rw view (mk_job_from_row-Agree j v made)
