-- ===== src/Examples/Database.antt =====
-- Blobs, stores and jobs of a small database: src/internal/wantdb.
use want.Common.{ℕ, suc, ◌≡◌, refl, none, some, [], ◌∷◌, take, arith}
use want.Common.Text.{Str, bytes}
use want.Common.Result.{ok}
use want.WantJob.Results.{JobResult, Task, finished}
use want.WantDb.Tables.{pos, Db}
use want.WantDb.Blobs.{create_store, post_blob, get_blob}
use want.WantDb.Links.{holders}
use want.WantDb.Counted.{Counted}
use want.WantDb.Histories.{new_db, create, post, delete, after, history, history-Counted}
use want.WantDb.Reads.{post_blob-get}
use want.WantDb.Copies.{copy_all, copy_all-count}
use want.WantDb.JobTables.{JobRow, Jobs}
use want.WantDb.Jobs.{lookup_job_row, finish_job, view_result}
use want.WantDb.JobCreate.{queued_row}
use want.WantDb.Inspect.{JobView}
use want.WantDb.JobResults.{finish_job-view, finish_job-once}

-- The hash of a text, for texts of at most one byte.
abbrev hash : Str → ℕ
hash [] = 1
hash (c ∷ s) = suc (suc c)

abbrev a_blob : Str
a_blob = bytes "a"

abbrev one_store : Db
one_store = history hash (create ∷ [])

abbrev two_stores : Db
two_stores = history hash (create ∷ post 1 a_blob ∷ create ∷ [])

history-Counted_example :
    Counted (history hash (delete 1 99 ∷ post 2 a_blob ∷ post 1 a_blob ∷ create ∷ create ∷ []))
history-Counted_example =
    history-Counted hash (delete 1 99 ∷ post 2 a_blob ∷ post 1 a_blob ∷ create ∷ create ∷ [])
      ((λ e. omega arith), tt)

post_blob-get_example :
    get_blob hash 1 99 5 (post_blob hash 1 a_blob one_store).1
    ≡ (ok (take 5 a_blob), (post_blob hash 1 a_blob one_store).1)
unfolding history after create_store post_blob
post_blob-get_example = post_blob-get hash 1 99 5 a_blob one_store (λ b h. cc) refl

copy_all-count_example : 2 ≡ holders 99 (copy_all 1 2 two_stores).1.links
unfolding history copy_all
copy_all-count_example =
    copy_all-count 1 2 99 1 (record { content = a_blob; rc = pos 1 }) two_stores
      (history-Counted hash (create ∷ post 1 a_blob ∷ create ∷ []) tt) refl refl refl refl refl

abbrev task : Task
task = record { op = bytes "glfs.merge"; input = [] }

abbrev no_jobs : Jobs
no_jobs = record {
  db = new_db;
  jobs = [];
  next_row = 1;
  roots = [];
  next_root = 1;
  children = [];
  ops = [];
  tasks = λ _. none;
}

abbrev pub first_row : JobRow
first_row = queued_row 1 7 1 []

abbrev pub one_job : Jobs
one_job = record no_jobs {
  db = one_store;
  jobs = first_row ∷ [];
  next_row = 2;
  roots = record { idx = 1; job_row = 1 } ∷ [];
  next_root = 2;
}

abbrev merged : JobResult
merged = record { errcode = 0; root = bytes "r"; schema = [] }

finish_job-view_example :
    (view_result (1 ∷ []) (finish_job (1 ∷ []) merged [] one_job).1).0 ≡ ok (merged, 1)
unfolding lookup_job_row
finish_job-view_example = finish_job-view (1 ∷ []) 1 first_row merged [] one_job refl refl refl

finish_job-once_example :
    (view_result
      (1 ∷ [])
      (finish_job
        (1 ∷ [])
        (record { errcode = 2; root = []; schema = [] })
        []
        (finish_job (1 ∷ []) merged [] one_job).1).1).0
    ≡ ok (merged, 1)
unfolding view_result finish_job
finish_job-once_example =
    finish_job-once (1 ∷ []) (1 ∷ []) (record { errcode = 2; root = []; schema = [] }) []
      (merged, 1) (finish_job (1 ∷ []) merged [] one_job).1 refl

abbrev finished_job : Jobs
finished_job = (finish_job (1 ∷ []) merged [] one_job).1

abbrev first_view : JobView Str
first_view = record {
  task = none;
  state = finished;
  result = some merged;
  created_at = [];
  end_at = some [];
}
