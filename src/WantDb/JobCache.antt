-- ===== src/WantDb/JobCache.antt =====
-- jobs.go: what `createJob` takes from the cache.
use want.Common.{◌≡◌, ◌⊎◌, ℕ, if◌then◌else◌, none, some, List, ◌∷◌, ◌++◌}
use want.Common.Text.{Str}
use want.Common.Result.{Result, ok}
use want.WantJob.Results.{queued, Task}
use want.WantDb.Blobs.{at_key}
use want.WantDb.JobTables.{JobRow, Jobs, Jx, find_job}
use want.WantDb.Jobs.{finish_row, result_of}
use want.WantDb.JobCreate.{present_task, queued_row, cache_hit, cached_result}

-- A new row that is finished at once.
done_row : ℕ → ℕ → ℕ → Str → Str → JobRow
unfolding finish_row
done_row r task sid root now = finish_row (cached_result root) now (queued_row r task sid now)

module _ (task_id : Task → ℕ) where
  record_task : Task → ℕ → Jx ℕ
  record_task t o s = if present_task (s.tasks (task_id t)) then (ok (task_id t), s) else (
    ok (task_id t),
    record s { tasks = at_key s.tasks (task_id t) (some (record { op = o; input = t.input })) },
  )

  -- The row of a new job of a task.
  pub Created : Task → ℕ → Jobs → Jobs → Type 0
  Created t r s s' =
      (j : JobRow) × (find_job r s'.jobs ≡ some j)
      × (j.task ≡ task_id t)
      × (((cache_hit (task_id t) s ≡ none) × (j.state ≡ queued) × (j.store_id ≡ s.db.next_store))
          ⊎ ((k : JobRow) × (xs ys : List JobRow) × (s.jobs ≡ xs ++ k ∷ ys)
              × (k.task ≡ task_id t)
              × (result_of k ≡ ok (cached_result k.res_data, k.store_id))
              × (result_of j ≡ result_of k)))
