-- ===== src/JobSystem/Once.antt =====
-- `onceGroup.Do` (src/want/job.go), called by the workers for their jobs. The external package singleflight
-- runs one call for a key at a time and gives its result to those that come while it runs. A job is a number, and so is
-- the id of its task.
use want.Common.{ℕ, ◌+◌, ◌≡◌, Bool, true, false, if◌then◌else◌, ◌==◌, Option, none, some}
use want.WantJob.Results.{JobResult}

-- How far a job's call of `Do` is.
pub data Phase : Type 0 where
  -- Not begun; past the first look at the cache; running `fn`; waiting for another's `fn`.
  waiting missed flying joined : Phase
  -- Returned: whether `fn` ran for this call, and the result.
  returned : Bool → JobResult → Phase

pub record Group : Type 0 where
  pub phase : ℕ → Phase
  -- `og.cache`.
  pub cache : ℕ → Option JobResult
  -- The job whose call runs `fn` for a task.
  pub flight : ℕ → Option ℕ
  -- How often `fn` has been called for a task.
  pub runs : ℕ → ℕ

abbrev pub set : {A : Type 0} → (ℕ → A) → ℕ → A → ℕ → A
set f k x j = if k == j then x else f j

abbrev pub start : Group
start = record { phase = λ j. waiting; cache = λ k. none; flight = λ k. none; runs = λ k. 0 }

-- The jobs that wait for the call for task `k` return its result; so does its own job.
abbrev pub landed_phase : Phase → Bool → Bool → JobResult → Phase
landed_phase flying same own r = if own then returned true r else flying
landed_phase joined same own r = if same then returned false r else joined
landed_phase waiting same own r = waiting
landed_phase missed same own r = missed
landed_phase (returned b x) same own r = returned b x

abbrev pub land : (ℕ → ℕ) → (ℕ → Phase) → ℕ → JobResult → ℕ → Phase
land task phase i r j = landed_phase (phase j) (task j == task i) (i == j) r

-- `task` is the task of each job.
pub data Step (task : ℕ → ℕ) (g : Group) : Group → Type 0 where
  -- The first look at the cache.
  hit :
      (j : ℕ) (r : JobResult)
      → g.phase j ≡ waiting
      → g.cache (task j) ≡ some r
      → Step task g (record g { phase = set g.phase j (returned false r) })
  miss :
      (j : ℕ)
      → g.phase j ≡ waiting
      → g.cache (task j) ≡ none
      → Step task g (record g { phase = set g.phase j missed })
  -- The call of singleflight: another call is running.
  join :
      (j i : ℕ)
      → g.phase j ≡ missed
      → g.flight (task j) ≡ some i
      → Step task g (record g { phase = set g.phase j joined })
  -- No call is running: the second look at the cache.
  late_hit :
      (j : ℕ) (r : JobResult)
      → g.phase j ≡ missed
      → g.flight (task j) ≡ none
      → g.cache (task j) ≡ some r
      → Step task g (record g { phase = set g.phase j (returned false r) })
  fly :
      (j : ℕ)
      → g.phase j ≡ missed
      → g.flight (task j) ≡ none
      → g.cache (task j) ≡ none
      → Step task g (record g {
        phase = set g.phase j flying;
        flight = set g.flight (task j) (some j);
        runs = set g.runs (task j) (g.runs (task j) + 1);
      })
  -- `fn` has returned `r`, which it does without an error.
  arrive :
      (j : ℕ) (r : JobResult)
      → g.phase j ≡ flying
      → Step task g (record g {
        phase = land task g.phase j r;
        cache = set g.cache (task j) (some r);
        flight = set g.flight (task j) none;
      })

pub data Reached (task : ℕ → ℕ) : Group → Type 0 where
  begin : Reached task start
  after : {g h : Group} → Reached task g → Step task g h → Reached task h
