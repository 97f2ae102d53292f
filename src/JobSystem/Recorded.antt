-- ===== src/JobSystem/Recorded.antt =====
-- What `process` (src/want/job.go) leaves in memory and in the tables.
use want.Common.{
  ℕ, ◌==◌, ◌≡◌, ◌≢◌, ◌⊎◌, refl, ap, ◌∙◌, true, false, Option, none, some, List, [], ◌∷◌, arith, inl,
  inr, Bool-cases, Option-cases,
}
use want.Common.Text.{Str}
use want.Common.Outcome.{done}
use want.Common.Result.{Result, ok, err, Result-cases}
use want.WantJob.Results.{JobResult, err_internal}
use want.WantDb.Tables.{Db, DbError}
use want.WantDb.JobTables.{Jobs, JobError, Jx, JobRow, find_job, is_finished}
use want.WantDb.Jobs.{lookup_job_row, finish_job, pull, view_result, source_store, on_db}
use want.WantDb.Copies.{copy_all}
use want.WantDb.JobResults.{finish_job-at, finish_job-view}
use want.JobSystem.Jobs.{Job, finish, close_done, in_tx}
use want.JobSystem.Process.{
  Did, ran, shared, run_task, settle, settled, process_rest, process, completed,
}

in_tx_ok : {A : Type 0} (m : Jx A) (s : Jobs) (a : A) → (m s).0 ≡ ok a → in_tx m s ≡ (ok a, (m s).1)
in_tx_ok m s a h = rw (h, in_tx) refl

in_tx_err :
    {A : Type 0} (m : Jx A) (s : Jobs) (e : JobError) → (m s).0 ≡ err e → in_tx m s ≡ (err e, s)
in_tx_err m s e h = rw (h, in_tx) refl

on_db-same :
    {A : Type 0} (s : Jobs) (r : Result DbError A × Db) → (on_db s r).1 ≡ record s { db = r.1 }
on_db-same s (err e, db) = refl
on_db-same s (ok a, db) = refl

-- `Pull` leaves the jobs as they are.
pull-same :
    (dst : ℕ) (root : Str) (s : Jobs) → (db : Db) × ((pull dst root s).1 ≡ record s { db = db })
unfolding pull
pull-same dst root s = elim (Option-cases (source_store root s.jobs)) [
  | inl e ↦ (s.db, rw (e, pull) refl)
  | inr (src, e) ↦ ((copy_all src dst s.db).1, rw (e, pull) (on_db-same s (copy_all src dst s.db)))
]

lookup_job_row-db :
    (id : List ℕ) (db : Db) (s : Jobs)
    → lookup_job_row id (record s { db = db }) ≡ lookup_job_row id s
unfolding lookup_job_row
lookup_job_row-db [] db s = refl
lookup_job_row-db (i ∷ is) db s = refl

module _ (show : JobError → Str) (now : Str) where
  -- The job is done in memory with the result, and the tables have its error code and root.
  abbrev pub Agrees : JobResult → Job → JobRow → Option JobError × Job × Jobs → Type 0
  Agrees res j d p =
      (p.0 ≡ none)
      × (p.1 ≡ completed show now res j)
      × ((view_result j.id p.2).0
          ≡ ok (record { errcode = res.errcode; root = res.root; schema = [] }, d.store_id))

  -- The tables answer as before, where the job is done in memory.
  abbrev pub Lags : JobResult → Job → Jobs → Option JobError × Job × Jobs → Type 0
  Lags res j s p =
      ((view_result j.id p.2).0 ≡ (view_result j.id s).0)
      × (((res.errcode ≢ 0) × (p.0 ≡ none) × (p.1 ≡ completed show now res j))
          ⊎ ((x : JobError) × ((pull j.dst res.root s).0 ≡ err x)
              × (p.0 ≡ some x)
              × (p.1 ≡ completed show now (err_internal (show x)) j)))

  abbrev pub Ends : Did show now → Job → JobRow → Jobs → Option JobError × Job × Jobs → Type 0
  Ends (ran res) j d s p = Agrees res j d p
  Ends (shared res) j d s p = Agrees res j d p ⊎ Lags res j s p

  finish_job-fine :
      (id : List ℕ) (r : ℕ) (res : JobResult) (s : Jobs)
      → lookup_job_row id s ≡ ok r
      → in_tx (finish_job id res now) s ≡ (ok tt, (finish_job id res now s).1)
  finish_job-fine id r res s e =
      in_tx_ok (finish_job id res now) s tt (ap (λ q. q.0) (finish_job-at id r res now s e))

  settled-ok :
      (res : JobResult) (j : Job) (s : Jobs)
      → j.is_done ≡ false
      → settled show now res j (ok tt, s) ≡ done (none, completed show now res j, s)
  unfolding finish close_done
  settled-ok res j s live = rw live refl

  settled-err :
      (res : JobResult) (j : Job) (e : JobError) (s : Jobs)
      → j.is_done ≡ false
      → settled show now res j (err e, s)
        ≡ done (some e, completed show now (err_internal (show e)) j, s)
  unfolding finish close_done
  settled-err res j e s live = rw live refl

  ran-Agrees :
      (res : JobResult) (j : Job) (d : JobRow) (r : ℕ) (s : Jobs)
      → j.is_done ≡ false
      → lookup_job_row j.id s ≡ ok r
      → find_job r s.jobs ≡ some d
      → is_finished d.state ≡ false
      → (p : Option JobError × Job × Jobs) × (process show now (ran res) j s ≡ done p)
        × Agrees res j d p
  unfolding process process_rest run_task settle
  ran-Agrees res j d r s live at row pending =
      let s1 = (finish_job j.id res now s).1 in
      let fine = finish_job-fine j.id r res s at in
      (
        (none, completed show now res j, s1),
        rw fine (settled-ok res j s1 live),
        (refl, refl, finish_job-view j.id r d res now s at row pending),
      )

  shared-failed :
      (res : JobResult) (j : Job) (d : JobRow) (s : Jobs)
      → j.is_done ≡ false
      → (res.errcode == 0) ≡ false
      → (p : Option JobError × Job × Jobs) × (process show now (shared res) j s ≡ done p)
        × Lags res j s p
  unfolding process process_rest settle
  shared-failed res j d s live e =
      let bad : res.errcode ≢ 0 = λ z. ground (arith, e, z) in
      (
        (none, completed show now res j, s),
        rw e (settled-ok res j s live),
        (refl, inl (bad, refl, refl)),
      )

  shared-unpulled :
      (res : JobResult) (j : Job) (x : JobError) (s : Jobs)
      → j.is_done ≡ false
      → (res.errcode == 0) ≡ true
      → (pull j.dst res.root s).0 ≡ err x
      → (p : Option JobError × Job × Jobs) × (process show now (shared res) j s ≡ done p)
        × Lags res j s p
  unfolding process process_rest settle
  shared-unpulled res j x s live e h =
      let kept = in_tx_err (pull j.dst res.root) s x h in
      (
        (some x, completed show now (err_internal (show x)) j, s),
        rw (e, kept) (settled-err res j x s live),
        (refl, inr (x, h, refl, refl)),
      )

  shared-pulled :
      (res : JobResult) (j : Job) (d : JobRow) (r : ℕ) (s : Jobs)
      → j.is_done ≡ false
      → lookup_job_row j.id s ≡ ok r
      → find_job r s.jobs ≡ some d
      → is_finished d.state ≡ false
      → (res.errcode == 0) ≡ true
      → (pull j.dst res.root s).0 ≡ ok tt
      → (p : Option JobError × Job × Jobs) × (process show now (shared res) j s ≡ done p)
        × Agrees res j d p
  unfolding process process_rest settle
  shared-pulled res j d r s live at row pending e h =
      let (db, same) = pull-same j.dst res.root s in
      let s1 = (pull j.dst res.root s).1 in
      let s2 = (finish_job j.id res now s1).1 in
      let pulled = in_tx_ok (pull j.dst res.root) s tt h in
      let at1 : lookup_job_row j.id s1 ≡ ok r =
        ap (lookup_job_row j.id) same ∙ lookup_job_row-db j.id db s ∙ at in
      let row1 : find_job r s1.jobs ≡ some d = ap (λ q. find_job r (q.jobs)) same ∙ row in
      let fine = finish_job-fine j.id r res s1 at1 in
      (
        (none, completed show now res j, s2),
        rw (e, pulled, fine) (settled-ok res j s2 live),
        (refl, refl, finish_job-view j.id r d res now s1 at1 row1 pending),
      )

  -- `process` of a job that is not done and stands unfinished in the tables ends with the job done in
  -- memory. Where the job ran its task itself, it has the executor's result there, no error is
  -- returned, and `ViewResult` of the tables then has that result's error code and root. Where it gets
  -- another's result, the same holds, or the tables answer as before `process`: either because the result
  -- is a failure, which is kept in memory and not written, or because `Pull` fails, whose error is
  -- returned and becomes an internal error in memory.
  pub process_lem :
      (how : Did show now) (j : Job) (d : JobRow) (r : ℕ) (s : Jobs)
      → j.is_done ≡ false
      → lookup_job_row j.id s ≡ ok r
      → find_job r s.jobs ≡ some d
      → is_finished d.state ≡ false
      → (p : Option JobError × Job × Jobs) × (process show now how j s ≡ done p) × Ends how j d s p
  process_lem (ran res) j d r s live at row pending = ran-Agrees res j d r s live at row pending
  process_lem (shared res) j d r s live at row pending = elim (Bool-cases (res.errcode == 0)) [
    | inr e ↦ let (p, q, w) = shared-failed res j d s live e in (p, q, inr w)
    | inl e ↦ elim (Result-cases ((pull j.dst res.root s).0)) [
      | inr (x, h) ↦ let (p, q, w) = shared-unpulled res j x s live e h in (p, q, inr w)
      | inl (u, h) ↦
          let (p, q, w) = shared-pulled res j d r s live at row pending e h in (p, q, inl w)
    ]
  ]
