-- ===== src/JobSystem/Roots.antt =====
-- The methods of `jobSystem` and `job` (src/want/job.go) on jobs that are reached by an index: the root jobs of
-- the system and the children of a job. A job is known by its address in the list of all jobs.
use want.Common.{
  ℕ, zero, suc, ◌==◌, ◌≡◌, refl, ap, sym, ◌∙◌, subst, ◌++◌, if◌then◌else◌, Bool, true, Option, none,
  some, List, [], ◌∷◌, length, get_elem?, arith,
}
use want.Common.Text.{Str}
use want.Common.Outcome.{Outcome, done, ◌>>=◌, bind_done, done_inj}
use want.Common.Result.{Result, ok, err, if_ok, ok_inj}
use want.WantJob.Results.{JobResult, Task, JobState, unknown, queued, running, finished}
use want.WantDb.JobTables.{Jobs, JobError}
use want.JobSystem.Jobs.{
  Job, CallError, no_job, get_child, add_child, await, view_result, inspect, cancel, system_cancel,
  close_done, new_job, maybe_enqueue, spawn_tx, spawned, in_tx, spawn,
}
use want.WantDb.Inspect.{JobView}

-- `jobSystem`: the jobs, `rootJobs`, and `queue`.
pub record System : Type 0 where
  pub jobs : List Job
  pub roots : List (ℕ × ℕ)
  pub queue : List ℕ

abbrev pub new_system : System
new_system = record { jobs = []; roots = []; queue = [] }

abbrev pub or_no_job : ℕ → Option Job → Result CallError Job
or_no_job a none = err (no_job a)
or_no_job a (some j) = ok j

abbrev pub job_at : System → ℕ → Result CallError Job
job_at y a = or_no_job a (get_elem? y.jobs a)

abbrev pub find_root : ℕ → List (ℕ × ℕ) → Result CallError ℕ
find_root i [] = err (no_job i)
find_root i ((k, a) ∷ rs) = if k == i then ok a else find_root i rs

-- `sys.rootJobs[idx]`.
unfoldable pub root_job : System → ℕ → Result CallError Job
root_job y i = if_ok (find_root i y.roots) (job_at y)

-- A child of the job at an address.
unfoldable pub child_job : System → ℕ → ℕ → Result CallError Job
unfolding get_child
child_job y a i = if_ok (job_at y a) λ j. if_ok (get_child j i) (job_at y)

-- `jobSystem.Inspect` and `job.Inspect`.
unfoldable pub root_inspect : System → ℕ → Result CallError (Task × Option JobResult)
unfolding root_job inspect
root_inspect y i = if_ok (root_job y i) λ j. ok (inspect j)

unfoldable pub child_inspect : System → ℕ → ℕ → Result CallError (Task × Option JobResult)
unfolding child_job inspect
child_inspect y a i = if_ok (child_job y a i) λ j. ok (inspect j)

-- `jobSystem.Await` and `job.Await`.
unfoldable pub root_await : System → ℕ → Result CallError (Option Unit)
unfolding root_job await
root_await y i = if_ok (root_job y i) λ j. ok (await j)

unfoldable pub child_await : System → ℕ → ℕ → Result CallError (Option Unit)
unfolding child_job await
child_await y a i = if_ok (child_job y a i) λ j. ok (await j)

-- `jobSystem.ViewResult` and `job.ViewResult`.
unfoldable pub root_view_result : System → ℕ → Result CallError (Option JobResult × ℕ)
unfolding root_job view_result
root_view_result y i = if_ok (root_job y i) view_result

unfoldable pub child_view_result : System → ℕ → ℕ → Result CallError (Option JobResult × ℕ)
unfolding child_job view_result
child_view_result y a i = if_ok (child_job y a i) view_result

abbrev pub cancelled :
    Result CallError Job → (Job → Outcome (Result CallError Job)) → Outcome (Result CallError Job)
cancelled (err e) f = done (err e)
cancelled (ok j) f = f j

-- `jobSystem.Cancel` and `job.Cancel`.
unfoldable pub root_cancel : System → ℕ → Outcome (Result CallError Job)
unfolding root_job system_cancel
root_cancel y i = cancelled (root_job y i) system_cancel

unfoldable pub child_cancel : System → ℕ → ℕ → Outcome (Result CallError Job)
unfolding child_job cancel
child_cancel y a i = cancelled (child_job y a i) λ j. do k ← cancel j; done (ok k)

-- The system with a job more, at the next address.
abbrev pub with_job : System → Job → Bool → System
with_job y j waits = record y {
  jobs = y.jobs ++ j ∷ [];
  queue = if waits then y.queue ++ length y.jobs ∷ [] else y.queue;
}

abbrev pub set_job : ℕ → Job → List Job → List Job
set_job a j [] = []
set_job zero j (k ∷ ks) = j ∷ ks
set_job (suc b) j (k ∷ ks) = k ∷ set_job b j ks

last_job : (js : List Job) (j : Job) → get_elem? (js ++ j ∷ []) (length js) ≡ some j
last_job [] j = refl
last_job (x ∷ js) j = last_job js j

module _ {Time : Type 0} (parse_time : Str → Option Time) (task_id : Task → ℕ) where
  abbrev pub placed :
      System → Result JobError (ℕ × Bool × Job) × Jobs → Result JobError (ℕ × System) × Jobs
  placed y (err e, s) = (err e, s)
  placed y (ok (i, waits, j), s) =
      (ok (i, record (with_job y j waits) { roots = (i, length y.jobs) ∷ y.roots }), s)

  -- `jobSystem.Spawn`.
  unfoldable pub root_spawn :
      Task → Str → System → Jobs → Outcome (Result JobError (ℕ × System) × Jobs)
  unfolding spawn
  root_spawn t now y s = do r ← spawn parse_time task_id none t now s; done (placed y r)

  abbrev pub placed_child :
      System
      → ℕ
      → Job
      → Result JobError (ℕ × Bool × Job) × Jobs
      → Outcome (Result JobError (ℕ × System) × Jobs)
  placed_child y a parent (err e, s) = done (err e, s)
  placed_child y a parent (ok (i, waits, j), s) = do
    p ← add_child parent i (length y.jobs)
    let z = with_job y j waits in done (ok (i, record z { jobs = set_job a p z.jobs }), s)

  -- `job.Spawn`, on the job at address `a`.
  unfoldable pub child_spawn :
      ℕ → Job → Task → Str → System → Jobs → Outcome (Result JobError (ℕ × System) × Jobs)
  unfolding spawn add_child
  child_spawn a parent t now y s = do
    r ← spawn parse_time task_id (some parent.id) t now s
    placed_child y a parent r

  maybe_enqueue-task :
      (st : JobState) (res : Option JobResult) (parent : List ℕ) (i d : ℕ) (t : Task) (q : Bool)
      (j : Job)
      → maybe_enqueue st res (new_job parent i d t) ≡ done (q, j)
      → j.task ≡ t
  unfolding maybe_enqueue close_done new_job
  maybe_enqueue-task queued res parent i d t q j h = sym (ap (λ p. p.1.task) (done_inj h))
  maybe_enqueue-task finished res parent i d t q j h = sym (ap (λ p. p.1.task) (done_inj h))
  maybe_enqueue-task running res parent i d t q j h = sym (ap (λ p. p.1.task) (done_inj h))
  maybe_enqueue-task unknown res parent i d t q j h = sym (ap (λ p. p.1.task) (done_inj h))

  spawned-task :
      (parent : List ℕ) (t : Task) (r : Result JobError (ℕ × JobView Time × ℕ) × Jobs) (i : ℕ)
      (q : Bool) (j : Job) (s : Jobs)
      → spawned parse_time task_id parent t r ≡ done (ok (i, q, j), s)
      → j.task ≡ t
  spawned-task parent t (err e, s0) i q j s h = cc
  spawned-task parent t (ok (idx, v, sid), s0) i q j s h =
      let (x, a, b) = bind_done _ (maybe_enqueue v.state v.result (new_job parent idx sid t)) h in
      let same : ◌≡◌ {A = Result JobError (ℕ × Bool × Job) × Jobs} (ok (idx, x.0, x.1), s0)
          (ok (i, q, j), s) =
        done_inj b in
      let parts : ◌≡◌ {A = ℕ × Bool × Job} (idx, x.0, x.1) (i, q, j) =
        ok_inj (ap (λ p. p.0) same) in
      ap (λ p. p.2.task) (sym parts)
      ∙ maybe_enqueue-task v.state v.result parent idx sid t (x.0) (x.1) a

  placed-task :
      (t : Task) (y : System) (r : Result JobError (ℕ × Bool × Job) × Jobs) (i : ℕ) (z : System)
      (s : Jobs)
      → ((k : ℕ) (q : Bool) (j : Job) (u : Jobs) → r ≡ (ok (k, q, j), u) → j.task ≡ t)
      → placed y r ≡ (ok (i, z), s)
      → (o : Option JobResult) × (root_inspect z i ≡ ok (t, o))
  unfolding root_inspect root_job inspect
  placed-task t y (err e, s0) i z s f h = cc
  placed-task t y (ok (k, q, j), s0) i z s f h =
      let made : System = record (with_job y j q) { roots = (k, length y.jobs) ∷ y.roots } in
      let parts : ◌≡◌ {A = ℕ × System} (k, made) (i, z) = ok_inj (ap (λ p. p.0) h) in
      let o = if j.is_done then j.result else none in
      let here : root_inspect made k ≡ ok (j.task, o) =
        let found : (k == k) ≡ true = ground arith in
        let there : job_at made (length y.jobs) ≡ ok j =
          ap (or_no_job (length y.jobs)) (last_job y.jobs j) in
        rw found (ap (λ m. if_ok m (λ x. ok (inspect x))) there) in
      (
        o,
        subst (λ p. root_inspect (p.1) (p.0) ≡ ok (t, o)) parts
            (here ∙ ap (λ x. ok (x, o)) (f k q j s0 refl)),
      )

  -- The job that `Spawn` of the system returns is there under its index, with the task that it was given.
  pub root_spawn-inspect :
      (t : Task) (now : Str) (y : System) (s : Jobs) (i : ℕ) (z : System) (u : Jobs)
      → root_spawn t now y s ≡ done (ok (i, z), u)
      → (o : Option JobResult) × (root_inspect z i ≡ ok (t, o))
  unfolding root_spawn spawn
  root_spawn-inspect t now y s i z u h =
      let (r, a, b) = bind_done _ (spawn parse_time task_id none t now s) h in
      placed-task t y r i z u
        (λ k q j v e.
          spawned-task [] t (in_tx (spawn_tx parse_time task_id none t now) s) k q j v
            (a ∙ ap done e))
        (done_inj b)
