-- ===== src/WantDb/Jobs.antt =====
-- jobs.go: job rows, their tree, results and the task cache; pull.go. Where a query may return any of
-- several rows, the first is taken. The time is an argument.
use want.Common.{ℕ, ◌==◌, if◌then◌else◌, Bool, ◌&&◌, Option, none, some, List, [], ◌∷◌}
use want.Common.Text.{Str, str_eq}
use want.Common.Result.{Result, ok, err}
use want.WantJob.Results.{finished, JobResult}
use want.WantDb.Tables.{Db, DbError, no_rows, no_match, ◌>>=◌}
use want.WantDb.Copies.{copy_all}
use want.WantDb.JobTables.{
  JobRow, Child, Jobs, JobError, in_db, empty_job_id, job_not_found, not_done, Jx, find_job,
  change_job, find_child, find_root, is_finished, code_of, is_ok_code,
}

-- The loop of `lookupJobRowID`.
unfoldable pub lookup_from : ℕ → List ℕ → List Child → Result JobError ℕ
lookup_from row [] cs = ok row
lookup_from row (i ∷ is) cs = elim (find_child row i cs) [
  | none ↦ err (job_not_found (i ∷ is))
  | some c ↦ lookup_from c is cs
]

unfoldable pub lookup_job_row : List ℕ → Jobs → Result JobError ℕ
unfolding lookup_from
lookup_job_row [] s = err empty_job_id
lookup_job_row (i ∷ is) s = elim (find_root i s.roots) [
  | none ↦ err (job_not_found (i ∷ is))
  | some r ↦ lookup_from r is s.children
]

abbrev pub lookup : List ℕ → Jx ℕ
lookup id s = (lookup_job_row id s, s)

unfoldable pub finish_row : JobResult → Str → JobRow → JobRow
finish_row res now j = if is_finished j.state then j else record j {
  state = finished;
  errcode = some res.errcode;
  res_data = res.root;
  end_at = now;
}

unfoldable pub finish_job_at_row : ℕ → JobResult → Str → Jx Unit
unfolding finish_row
finish_job_at_row r res now s =
    (ok tt, record s { jobs = change_job r (finish_row res now) s.jobs })

unfoldable pub finish_job : List ℕ → JobResult → Str → Jx Unit
unfolding lookup_job_row finish_job_at_row
finish_job id res now = lookup id >>= λ r. finish_job_at_row r res now

-- A finished job of a task without error.
unfoldable pub is_cached : ℕ → JobRow → Bool
is_cached task j = (j.task == task) && is_finished j.state && is_ok_code j.errcode

unfoldable pub cache_read : ℕ → List JobRow → Option JobRow
unfolding is_cached
cache_read task [] = none
cache_read task (j ∷ js) =
    let rest = cache_read task js in if is_cached task j then some j else rest

-- The row of a job id, for a query that returns one row.
abbrev pub job_at : {A : Type 0} → (JobRow → Result JobError A) → ℕ → Jx A
job_at f r s = elim (find_job r s.jobs) [ none ↦ (err (in_db no_rows), s) | some j ↦ (f j, s) ]

unfoldable pub get_job_store_id : List ℕ → Jx ℕ
unfolding lookup_job_row
get_job_store_id id = lookup id >>= job_at (λ j. ok j.store_id)

-- `ViewResult`: the schema of a result is not in the table.
unfoldable pub result_of : JobRow → Result JobError (JobResult × ℕ)
result_of j =
    if is_finished j.state
    then ok (record { errcode = code_of j.errcode; root = j.res_data; schema = [] }, j.store_id)
    else err (not_done j.state)

unfoldable pub view_result : List ℕ → Jx (JobResult × ℕ)
unfolding lookup_job_row result_of
view_result id = lookup id >>= job_at result_of

-- The indices of a row's children.
unfoldable pub child_indices : ℕ → List Child → List ℕ
child_indices p [] = []
child_indices p (c ∷ cs) =
    let rest = child_indices p cs in if c.parent == p then c.idx ∷ rest else rest

unfoldable pub list_children : List ℕ → Jx (List ℕ)
unfolding lookup_job_row child_indices
list_children id = lookup id >>= λ r s. (ok (child_indices r s.children), s)

-- `Pull`: the store of a finished job with the result `root`, copied.
unfoldable pub is_source : Str → JobRow → Bool
is_source root j = (is_finished j.state && is_ok_code j.errcode) && str_eq j.res_data root

unfoldable pub source_store : Str → List JobRow → Option ℕ
unfolding is_source
source_store root [] = none
source_store root (j ∷ js) =
    let rest = source_store root js in if is_source root j then some j.store_id else rest

abbrev pub on_db : {A : Type 0} → Jobs → Result DbError A × Db → Result JobError A × Jobs
on_db s (err e, db) = (err (in_db e), record s { db = db })
on_db s (ok a, db) = (ok a, record s { db = db })

unfoldable pub pull : ℕ → Str → Jx Unit
unfolding source_store copy_all
pull dst root s = elim (source_store root s.jobs) [
  | none ↦ (err (in_db no_match), s)
  | some src ↦ on_db s (copy_all src dst s.db)
]
