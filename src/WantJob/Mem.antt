-- ===== src/WantJob/Mem.antt =====
-- The job system in memory (src/wantjob/mem.go). A job's children are a list; what its executor returns comes
-- as a step of its own, at any time.
use want.Common.{
  ℕ, zero, suc, ◌≡◌, refl, ◌++◌, if◌then◌else◌, Bool, true, false, Option, none, some, List, [],
  ◌∷◌, length, get_elem?,
}
use want.Common.Outcome.{Outcome, panic, done, ◌>>=◌}
use want.Common.Result.{Result, ok, err}
use want.WantJob.Results.{JobResult, Task}

-- `memJob`, with the fields that change; `cancelled` is the state of its context.
pub record MemJob : Type 0 where
  pub task : Task
  pub cancelled : Bool
  pub is_done : Bool
  pub res : Option JobResult
  pub is_tombstone : Bool

pub data MemError : Type 0 where
  job_not_found unfinished : MemError

-- `newMemJob`.
unfoldable pub new_mem_job : Task → MemJob
new_mem_job t = record {
  task = t;
  cancelled = false;
  is_done = false;
  res = none;
  is_tombstone = false;
}

-- `Spawn`: the index, and the children.
unfoldable pub mem_spawn : Task → List MemJob → ℕ × List MemJob
unfolding new_mem_job
mem_spawn t js = (length js, js ++ new_mem_job t ∷ [])

abbrev pub change_at : {A : Type 0} → (A → A) → ℕ → List A → List A
change_at f i [] = []
change_at f zero (x ∷ xs) = f x ∷ xs
change_at f (suc i) (x ∷ xs) = x ∷ change_at f i xs

-- The goroutine of `Spawn` when the executor has returned.
unfoldable pub mem_executed : ℕ → JobResult → List MemJob → List MemJob
mem_executed i r js = change_at (λ j. record j { res = some r; is_done = true }) i js

-- `j.children[idx]`, which panics out of range.
abbrev pub in_range : Option MemJob → Outcome MemJob
in_range none = panic
in_range (some j) = done j

abbrev pub child_at : List MemJob → ℕ → Outcome MemJob
child_at js i = in_range (get_elem? js i)

-- `get`: `none` for a job that was deleted.
unfoldable pub mem_get : List MemJob → ℕ → Outcome (Option MemJob)
mem_get js i = do j ← child_at js i; done (if j.is_tombstone then none else some j)

abbrev pub cancel_found : ℕ → List MemJob → Option MemJob → Result MemError (List MemJob)
cancel_found i js none = err job_not_found
cancel_found i js (some j) =
    ok (change_at (λ k. record k { cancelled = true; is_done = true }) i js)

-- `Cancel`.
unfoldable pub mem_cancel : List MemJob → ℕ → Outcome (Result MemError (List MemJob))
unfolding mem_get
mem_cancel js i = do j ← mem_get js i; done (cancel_found i js j)

abbrev pub bury : ℕ → Result MemError (List MemJob) → Result MemError (List MemJob)
bury i (err e) = err e
bury i (ok js) = ok (change_at (λ k. record k { is_tombstone = true }) i js)

-- `Delete`.
unfoldable pub mem_delete : List MemJob → ℕ → Outcome (Result MemError (List MemJob))
unfolding mem_cancel
mem_delete js i = do r ← mem_cancel js i; done (bury i r)

-- `Await`: `none` while it waits.
unfoldable pub mem_await : List MemJob → ℕ → Outcome (Option (Unit {0}))
mem_await js i = do j ← child_at js i; done (if j.is_done then some tt else none)

-- `ViewResult`.
unfoldable pub mem_view_result : List MemJob → ℕ → Outcome (Result MemError (Option JobResult))
mem_view_result js i = do j ← child_at js i; done (if j.is_done then ok j.res else err unfinished)

get_elem?-change :
    (f : MemJob → MemJob) (js : List MemJob) (i : ℕ) (j : MemJob)
    → get_elem? js i ≡ some j
    → get_elem? (change_at f i js) i ≡ some (f j)
get_elem?-change f [] i j h = cc
get_elem?-change f (x ∷ js) zero j h = cc
get_elem?-change f (x ∷ js) (suc i) j h = get_elem?-change f js i j h

-- A job that is cancelled before its executor returns is done without a result: `ViewResult` then
-- returns no error and no result.
pub mem_cancel_view :
    (js : List MemJob) (i : ℕ) (j : MemJob)
    → get_elem? js i ≡ some j
    → j.is_tombstone ≡ false
    → j.res ≡ none
    → mem_cancel js i
        ≡ done (ok (change_at (λ k. record k { cancelled = true; is_done = true }) i js))
      × (mem_view_result (change_at (λ k. record k { cancelled = true; is_done = true }) i js) i
          ≡ done (ok none))
unfolding mem_cancel mem_get mem_view_result
mem_cancel_view js i j at live unset =
    let later = get_elem?-change (λ k. record k { cancelled = true; is_done = true }) js i j at in
    (rw (at, live) refl, rw (later, unset) refl)
