-- ===== src/JobSystem/Jobs.antt =====
-- A job in memory, its children, and spawning (src/want/job.go). The channel `done` is closed or not; a job of the tree
-- is known by its address. Contexts are never cancelled.
use want.Common.{
  ℕ, ◌==◌, ◌++◌, if◌then◌else◌, Bool, true, false, Option, none, some, List, [], ◌∷◌, length,
  get_elem?,
}
use want.Common.Text.{Str}
use want.Common.Outcome.{Outcome, panic, done, ◌>>=◌}
use want.Common.Result.{Result, ok, err}
use want.WantJob.Results.{JobResult, Task, JobState, unknown, queued, running, finished}
use want.WantDb.Tables.{and_then}
use want.WantDb.JobTables.{Jobs, JobError, Jx}
use want.WantDb.Jobs.{get_job_store_id}
use want.WantDb.JobCreate.{create_root_job, create_child_job}
use want.WantDb.Inspect.{JobView, inspect_job}

-- `job`, with the fields that its methods change.
pub record Job : Type 0 where
  pub id : List ℕ
  pub task : Task
  pub dst : ℕ
  pub is_done : Bool
  pub result : Option JobResult
  pub children : List ℕ

pub data CallError : Type 0 where
  no_job : ℕ → CallError
  job_not_done already_finished delete_not_implemented : CallError

-- `newJob`, of the parent's id.
unfoldable pub new_job : List ℕ → ℕ → ℕ → Task → Job
new_job parent idx dst task = record {
  id = parent ++ idx ∷ [];
  task = task;
  dst = dst;
  is_done = false;
  result = none;
  children = [];
}

-- `getChild`.
unfoldable pub get_child : Job → ℕ → Result CallError ℕ
get_child j idx = elim (get_elem? j.children idx) [ none ↦ err (no_job idx) | some c ↦ ok c ]

-- `addChild`, which panics where the index is not the next one.
unfoldable pub add_child : Job → ℕ → ℕ → Outcome Job
add_child j idx c =
    if length j.children == idx then done (record j { children = j.children ++ c ∷ [] }) else panic

-- `await`: `none` while it waits.
unfoldable pub await : Job → Option (Unit {0})
await j = if j.is_done then some tt else none

-- `viewResult`.
unfoldable pub view_result : Job → Result CallError (Option JobResult × ℕ)
view_result j = if j.is_done then ok (j.result, j.dst) else err job_not_done

-- `inspect`: the result of a job that is done.
unfoldable pub inspect : Job → Task × Option JobResult
inspect j = (j.task, if j.is_done then j.result else none)

-- `cancel`.
unfoldable pub cancel : Job → Outcome Job
cancel j = panic

-- `jobSystem.Cancel`, of a job that is there.
unfoldable pub system_cancel : Job → Outcome (Result CallError Job)
unfolding cancel
system_cancel j = if j.is_done then done (err already_finished) else (cancel j >>= λ k. done (ok k))

-- `job.Delete`.
unfoldable pub delete : Job → Result CallError Job
delete j = err delete_not_implemented

-- `close(j.done)`, which panics when the channel is closed.
unfoldable pub close_done : Job → Outcome Job
close_done j = if j.is_done then panic else done (record j { is_done = true })

-- `finish`.
unfoldable pub finish : JobResult → Job → Outcome Job
unfolding close_done
finish res j = close_done (record j { result = some res })

-- `maybeEnqueue`: whether the job is put on the queue, and the job.
unfoldable pub maybe_enqueue : JobState → Option JobResult → Job → Outcome (Bool × Job)
unfolding close_done
maybe_enqueue queued res j = done (true, j)
maybe_enqueue finished res j = do k ← close_done (record j { result = res }); done (false, k)
maybe_enqueue running res j = done (false, j)
maybe_enqueue unknown res j = done (false, j)

-- A transaction on the tables: they are as before when it fails.
abbrev pub in_tx : {A : Type 0} → Jx A → Jx A
in_tx m s = elim ((m s).0) [ err e ↦ (err e, s) | ok a ↦ (ok a, (m s).1) ]

module _ {Time : Type 0} (parse_time : Str → Option Time) (task_id : Task → ℕ) where
  abbrev pub create : Option (List ℕ) → Task → Str → Jx ℕ
  create none t now = create_root_job task_id t now
  create (some parent) t now = create_child_job task_id parent t now

  abbrev pub parent_id : Option (List ℕ) → List ℕ
  parent_id none = []
  parent_id (some p) = p

  -- The transaction of `spawn`: the index, the job as `InspectJob` has it, and its store.
  unfoldable pub spawn_tx : Option (List ℕ) → Task → Str → Jx (ℕ × JobView Time × ℕ)
  unfolding create_root_job create_child_job inspect_job get_job_store_id
  spawn_tx parent t now s = and_then (create parent t now s) λ idx s1.
      and_then (inspect_job parse_time (parent_id parent ++ idx ∷ []) s1) λ v s2.
        and_then (get_job_store_id (parent_id parent ++ idx ∷ []) s2)
          λ sid s3. (ok (idx, v, sid), s3)

  abbrev pub spawned :
      List ℕ
      → Task
      → Result JobError (ℕ × JobView Time × ℕ) × Jobs
      → Outcome (Result JobError (ℕ × Bool × Job) × Jobs)
  spawned parent t (err e, s) = done (err e, s)
  spawned parent t (ok (idx, v, sid), s) = do
    r ← maybe_enqueue v.state v.result (new_job parent idx sid t)
    done (ok (idx, r.0, r.1), s)

  -- `spawn`: the index, whether the job is put on the queue, and the job.
  unfoldable pub spawn :
      Option (List ℕ) → Task → Str → Jobs → Outcome (Result JobError (ℕ × Bool × Job) × Jobs)
  unfolding spawn_tx maybe_enqueue new_job
  spawn parent t now s = spawned (parent_id parent) t (in_tx (spawn_tx parent t now) s)
