-- ===== src/WantDb/JobCreate.antt =====
-- jobs.go: how jobs are created, from the cache where a finished job has the result. A task's id, a
-- hash, is the parameter `task_id`; the time is an argument.
use want.Common.{
  ℕ, suc, if◌then◌else◌, Bool, true, false, ◌&&◌, Option, none, some, List, [], ◌∷◌, ◌++◌, length,
}
use want.Common.Text.{Str, str_eq}
use want.Common.Result.{ok, err}
use want.WantJob.Results.{queued, JobResult, Task}
use want.WantDb.Tables.{no_rows, foreign_key, ◌>>=◌, give}
use want.WantDb.Blobs.{create_store, at_key}
use want.WantDb.JobTables.{JobRow, TaskRow, Jobs, in_db, Jx, find_job, change_job}
use want.WantDb.Jobs.{lookup, lookup_job_row, finish_job_at_row, cache_read, on_db}

-- The position of an operation's name.
abbrev pub op_position : Str → List Str → Option ℕ
op_position name [] = none
op_position name (o ∷ os) =
    if str_eq o name
    then some 0
    else elim (op_position name os) [ none ↦ none | some n ↦ some (suc n) ]

unfoldable pub ensure_op : Str → Jx ℕ
ensure_op name s = elim (op_position name s.ops) [
  | some n ↦ (ok (suc n), s)
  | none ↦ (ok (suc (length s.ops)), record s { ops = s.ops ++ name ∷ [] })
]

abbrev pub present_task : Option TaskRow → Bool
present_task none = false
present_task (some t) = true

abbrev pub is_empty : Str → Bool
is_empty [] = true
is_empty (c ∷ s) = false

abbrev pub queued_row : ℕ → ℕ → ℕ → Str → JobRow
queued_row r task sid now = record {
  row = r;
  task = task;
  store_id = sid;
  created_at = now;
  next_idx = 0;
  state = queued;
  res_data = [];
  errcode = none;
  end_at = [];
}

-- INSERT INTO `jobs`, with its foreign keys.
unfoldable pub insert_job : ℕ → ℕ → Str → Jx ℕ
insert_job task sid now s =
    if s.db.stores sid && present_task (s.tasks task)
    then (
      ok s.next_row,
      record s {
        jobs = queued_row s.next_row task sid now ∷ s.jobs;
        next_row = suc s.next_row;
        db = record s.db { in_use = at_key s.db.in_use sid true };
      },
    )
    else (err (in_db foreign_key), s)

-- The store and result of a job with a result in the cache.
unfoldable pub cache_hit : ℕ → Jobs → Option (Str × ℕ)
unfolding cache_read
cache_hit task s = elim (cache_read task s.jobs) [
  | none ↦ none
  | some j ↦ if is_empty j.res_data then none else some (j.res_data, j.store_id)
]

unfoldable pub insert_root : ℕ → Jx ℕ
insert_root r s = (
  ok s.next_root,
  record s {
    roots = record { idx = s.next_root; job_row = r } ∷ s.roots;
    next_root = suc s.next_root;
  },
)

-- UPDATE of `next_idx`, which returns the index before it.
unfoldable pub next_child : ℕ → Jx ℕ
next_child r s = elim (find_job r s.jobs) [
  | none ↦ (err (in_db no_rows), s)
  | some j ↦ (
    ok j.next_idx,
    record s { jobs = change_job r (λ k. record k { next_idx = suc k.next_idx }) s.jobs },
  )
]

unfoldable pub insert_job_child : ℕ → ℕ → ℕ → Jx Unit
insert_job_child p i c s =
    (ok tt, record s { children = record { parent = p; idx = i; child = c } ∷ s.children })

abbrev pub new_store : Jx ℕ
new_store s = on_db s (create_store s.db)

-- `wantjob.Result{Root: data}`.
abbrev pub cached_result : Str → JobResult
cached_result root = record { errcode = 0; root = root; schema = [] }

-- What `createJob` does behind `cacheRead`.
unfoldable pub create_with : Option (Str × ℕ) → ℕ → Str → Jx ℕ
unfolding insert_job finish_job_at_row create_store
create_with none id now = new_store >>= λ sid. insert_job id sid now
create_with (some (root, sid)) id now =
    insert_job id sid now >>= λ r. finish_job_at_row r (cached_result root) now >>= λ _. give r

module _ (task_id : Task → ℕ) where
  unfoldable pub ensure_task : Task → Jx ℕ
  unfolding ensure_op
  ensure_task t = ensure_op t.op >>= λ o s.
      if present_task (s.tasks (task_id t)) then (ok (task_id t), s) else (
        ok (task_id t),
        record s { tasks = at_key s.tasks (task_id t) (some (record { op = o; input = t.input })) },
      )

  unfoldable pub create_job : Task → Str → Jx ℕ
  unfolding ensure_task cache_hit create_with
  create_job t now = ensure_task t >>= λ id s. create_with (cache_hit id s) id now s

  unfoldable pub create_root_job : Task → Str → Jx ℕ
  unfolding create_job insert_root
  create_root_job t now = create_job t now >>= insert_root

  unfoldable pub create_child_job : List ℕ → Task → Str → Jx ℕ
  unfolding lookup_job_row next_child create_job insert_job_child
  create_child_job parent t now = lookup parent >>= λ p.
      next_child p >>= λ i. create_job t now >>= λ c. insert_job_child p i c >>= λ _. give i
