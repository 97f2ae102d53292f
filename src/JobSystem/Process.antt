-- ===== src/JobSystem/Process.antt =====
-- `process` (src/want/job.go): the work on a job behind its call of `Do`.
use want.Common.{ℕ, ◌==◌, Bool, true, false, ◌&&◌, bnot, if◌then◌else◌, Option, none, some, List}
use want.Common.Text.{Str}
use want.Common.Outcome.{Outcome, done, ◌>>=◌}
use want.Common.Result.{Result, ok, err}
use want.WantJob.Results.{JobResult, err_internal}
use want.WantDb.JobTables.{Jobs, JobError}
use want.WantDb.Jobs.{finish_job, pull}
use want.JobSystem.Jobs.{Job, finish, in_tx}

-- `show` is the text of an error, `now` the time.
module _ (show : JobError → Str) (now : Str) where
  abbrev pub recorded : JobResult → Result JobError Unit × Jobs → JobResult × Jobs
  recorded res (err e, s) = (err_internal (show e), s)
  recorded res (ok u, s) = (res, s)

  -- The function that `process` gives to `Do`, of what the executor returns.
  unfoldable pub run_task : List ℕ → JobResult → Jobs → JobResult × Jobs
  unfolding finish_job
  run_task id res s = recorded res (in_tx (finish_job id res now) s)

  abbrev pub after_pull :
      List ℕ → JobResult → Result JobError Unit × Jobs → Result JobError Unit × Jobs
  after_pull id res (err e, s) = (err e, s)
  after_pull id res (ok u, s) = in_tx (finish_job id res now) s

  -- What `process` does to the tables behind `Do`.
  unfoldable pub settle : Bool → List ℕ → ℕ → JobResult → Jobs → Result JobError Unit × Jobs
  unfolding pull finish_job
  settle original id dst res s =
      if bnot original && (res.errcode == 0)
      then after_pull id res (in_tx (pull dst res.root) s)
      else (ok tt, s)

  abbrev pub settled :
      JobResult → Job → Result JobError Unit × Jobs → Outcome (Option JobError × Job × Jobs)
  settled res j (ok u, s) = do k ← finish res j; done (none, k, s)
  settled res j (err e, s) = do k ← finish (err_internal (show e)) j; done (some e, k, s)

  -- `process` behind `Do`: the error that it returns, the job, and the tables.
  unfoldable pub process_rest :
      Bool → JobResult → Job → Jobs → Outcome (Option JobError × Job × Jobs)
  unfolding settle finish
  process_rest original res j s = settled res j (settle original j.id j.dst res s)

  -- A job that has been done with a result.
  abbrev pub completed : JobResult → Job → Job
  completed res j = record j { result = some res; is_done = true }

  -- What `Do` comes to for a job: `fn` has run for its own call, where the executor returned the result,
  -- or it gets the result of another's call or of the cache.
  pub data Did : Type 0 where
    ran shared : JobResult → Did

  abbrev pub result_in : Did → JobResult
  result_in (ran res) = res
  result_in (shared res) = res

  -- `process`.
  unfoldable pub process : Did → Job → Jobs → Outcome (Option JobError × Job × Jobs)
  unfolding run_task process_rest
  process (ran res) j s = process_rest true ((run_task j.id res s).0) j ((run_task j.id res s).1)
  process (shared res) j s = process_rest false res j s
