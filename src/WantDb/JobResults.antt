-- ===== src/WantDb/JobResults.antt =====
-- jobs.go: `FinishJob` and then `ViewResult`.
use want.Common.{
  ℕ, ◌==◌, ◌≡◌, ◌≢◌, refl, sym, ap, ◌∙◌, subst, true, false, none, some, List, [], ◌∷◌, arith,
  Bool-cases, Option-cases, inl, inr,
}
use want.Common.Text.{Str}
use want.Common.Result.{ok, err, Result-cases}
use want.WantJob.Results.{JobResult}
use want.WantDb.JobTables.{JobRow, Jobs, JobError, find_job, change_job, is_finished}
use want.WantDb.Jobs.{
  lookup_job_row, finish_row, finish_job_at_row, finish_job, result_of, view_result,
}

-- Each row of `finish_row` keeps its id.
finish_row-row : (res : JobResult) (now : Str) (j : JobRow) → (finish_row res now j).row ≡ j.row
unfolding finish_row
finish_row-row res now j = ground arith

find_job-changed :
    (r : ℕ) (res : JobResult) (now : Str) (j : JobRow) (js : List JobRow)
    → find_job r js ≡ some j
    → find_job r (change_job r (finish_row res now) js) ≡ some (finish_row res now j)
find_job-changed r res now j [] h = cc
find_job-changed r res now j (k ∷ js) h =
    ground (arith, finish_row-row res now k, find_job-changed r res now j js)

find_job-other :
    (r q : ℕ) (res : JobResult) (now : Str) (js : List JobRow)
    → (r == q) ≡ false
    → find_job q (change_job r (finish_row res now) js) ≡ find_job q js
find_job-other r q res now [] h = refl
find_job-other r q res now (k ∷ js) h =
    ground (arith, finish_row-row res now k, find_job-other r q res now js)

-- A finished row stays as it is, whichever row is finished next.
find_job-done :
    (r q : ℕ) (res : JobResult) (now : Str) (j : JobRow) (js : List JobRow)
    → find_job q js ≡ some j
    → is_finished j.state ≡ true
    → find_job q (change_job r (finish_row res now) js) ≡ some j
unfolding finish_row
find_job-done r q res now j js h d = elim (Bool-cases (r == q)) [
  | inr e ↦ find_job-other r q res now js e ∙ h
  | inl e ↦
      let same : r ≡ q = ground arith in
      let kept : finish_row res now j ≡ j = rw d refl in
      let at = find_job-changed q res now j js h in
      subst (λ m. find_job q (change_job m (finish_row res now) js) ≡ some j) (sym same)
        (at ∙ ap some kept)
]

lookup_job_row-jobs :
    (id : List ℕ) (js : List JobRow) (s : Jobs)
    → lookup_job_row id (record s { jobs = js }) ≡ lookup_job_row id s
unfolding lookup_job_row
lookup_job_row-jobs [] js s = refl
lookup_job_row-jobs (i ∷ is) js s = refl

pub view_result-at :
    (id : List ℕ) (r : ℕ) (j : JobRow) (s : Jobs)
    → lookup_job_row id s ≡ ok r
    → find_job r s.jobs ≡ some j
    → view_result id s ≡ (result_of j, s)
unfolding view_result
view_result-at id r j s e h = ground arith

view_result-lost :
    (id : List ℕ) (x : JobError) (v : JobResult × ℕ) (s : Jobs)
    → lookup_job_row id s ≡ err x
    → (view_result id s).0 ≢ ok v
unfolding view_result
view_result-lost id x v s e h = ground arith

view_result-gone :
    (id : List ℕ) (r : ℕ) (v : JobResult × ℕ) (s : Jobs)
    → lookup_job_row id s ≡ ok r
    → find_job r s.jobs ≡ none
    → (view_result id s).0 ≢ ok v
unfolding view_result
view_result-gone id r v s e at h = ground arith

pub finish_job-at :
    (id : List ℕ) (r : ℕ) (res : JobResult) (now : Str) (s : Jobs)
    → lookup_job_row id s ≡ ok r
    → finish_job id res now s
      ≡ (ok tt, record s { jobs = change_job r (finish_row res now) s.jobs })
unfolding finish_job finish_job_at_row
finish_job-at id r res now s e = ground arith

finish_job-bad :
    (id : List ℕ) (x : JobError) (res : JobResult) (now : Str) (s : Jobs)
    → lookup_job_row id s ≡ err x
    → finish_job id res now s ≡ (err x, s)
unfolding finish_job
finish_job-bad id x res now s e = ground arith

-- What a successful `ViewResult` has read.
view_result-ok :
    (id : List ℕ) (v : JobResult × ℕ) (s : Jobs)
    → (view_result id s).0 ≡ ok v
    → (r : ℕ) × (j : JobRow) × (lookup_job_row id s ≡ ok r)
      × (find_job r s.jobs ≡ some j)
      × (result_of j ≡ ok v)
view_result-ok id v s h = elim (Result-cases (lookup_job_row id s)) [
  | inr (x, e) ↦ absurd (view_result-lost id x v s e h)
  | inl (r, e) ↦ elim (Option-cases (find_job r s.jobs)) [
    | inl none_there ↦ absurd (view_result-gone id r v s e none_there h)
    | inr (j, at) ↦ (r, j, e, at, sym (ap (λ q. q.0) (view_result-at id r j s e at)) ∙ h)
  ]
]

result_of-ok : (j : JobRow) (v : JobResult × ℕ) → result_of j ≡ ok v → is_finished j.state ≡ true
unfolding result_of
result_of-ok j v h = ground arith

result_of-finish_row :
    (res : JobResult) (now : Str) (j : JobRow)
    → is_finished j.state ≡ false
    → result_of (finish_row res now j)
      ≡ ok (record { errcode = res.errcode; root = res.root; schema = [] }, j.store_id)
unfolding result_of finish_row
result_of-finish_row res now j h = rw h refl

-- After `FinishJob` of a job that is not finished, `ViewResult` returns the error code and the root that
-- it was given, with the job's store; the schema is lost.
pub finish_job-view :
    (id : List ℕ) (r : ℕ) (j : JobRow) (res : JobResult) (now : Str) (s : Jobs)
    → lookup_job_row id s ≡ ok r
    → find_job r s.jobs ≡ some j
    → is_finished j.state ≡ false
    → (view_result id (finish_job id res now s).1).0
      ≡ ok (record { errcode = res.errcode; root = res.root; schema = [] }, j.store_id)
finish_job-view id r j res now s e at live =
    let js = change_job r (finish_row res now) s.jobs in
    let state : (finish_job id res now s).1 ≡ record s { jobs = js } =
      ap (λ q. q.1) (finish_job-at id r res now s e) in
    let view =
      view_result-at id r (finish_row res now j) (record s { jobs = js })
        (lookup_job_row-jobs id js s ∙ e) (find_job-changed r res now j s.jobs at) in
    rw state (ap (λ q. q.0) view ∙ result_of-finish_row res now j live)

-- What `ViewResult` returns stays: no later `FinishJob`, of this job or of another one, changes it.
pub finish_job-once :
    (id jd : List ℕ) (res : JobResult) (now : Str) (v : JobResult × ℕ) (s : Jobs)
    → (view_result id s).0 ≡ ok v
    → (view_result id (finish_job jd res now s).1).0 ≡ ok v
finish_job-once id jd res now v s h = elim (Result-cases (lookup_job_row jd s)) [
  | inr (x, e) ↦
      let state : (finish_job jd res now s).1 ≡ s =
        ap (λ q. q.1) (finish_job-bad jd x res now s e) in
      rw state h
  | inl (q, e) ↦
      let (r, j, at, row, result) = view_result-ok id v s h in
      let js = change_job q (finish_row res now) s.jobs in
      let state : (finish_job jd res now s).1 ≡ record s { jobs = js } =
        ap (λ p. p.1) (finish_job-at jd q res now s e) in
      let kept = find_job-done q r res now j s.jobs row (result_of-ok j v result) in
      let view =
        view_result-at id r j (record s { jobs = js }) (lookup_job_row-jobs id js s ∙ at) kept in
      rw state (ap (λ p. p.0) view ∙ result)
]
