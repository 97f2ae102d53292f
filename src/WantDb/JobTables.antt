-- ===== src/WantDb/JobTables.antt =====
-- The tables of dbmig/000-init.sql that jobs.go uses. A text or number that is NULL is empty or none.
use want.Common.{ℕ, ◌==◌, if◌then◌else◌, Bool, true, false, ◌&&◌, Option, none, some, List, [], ◌∷◌}
use want.Common.Text.{Str}
use want.Common.Result.{Result}
use want.WantJob.Results.{JobState, unknown, queued, running, finished}
use want.WantDb.Tables.{Db, DbError}

pub record JobRow : Type 0 where
  pub row : ℕ
  pub task : ℕ
  pub store_id : ℕ
  pub created_at : Str
  pub next_idx : ℕ
  pub state : JobState
  pub res_data : Str
  pub errcode : Option ℕ
  pub end_at : Str

-- A row of `job_children`.
pub record Child : Type 0 where
  pub parent : ℕ
  pub idx : ℕ
  pub child : ℕ

-- A row of `job_roots`.
pub record Root : Type 0 where
  pub idx : ℕ
  pub job_row : ℕ

-- A row of `tasks`.
pub record TaskRow : Type 0 where
  pub op : ℕ
  pub input : Str

pub record Jobs : Type 0 where
  pub db : Db
  pub jobs : List JobRow
  pub next_row : ℕ
  pub roots : List Root
  pub next_root : ℕ
  pub children : List Child
  -- `ops`; an id is one more than a position.
  pub ops : List Str
  pub tasks : ℕ → Option TaskRow

pub data JobError : Type 0 where
  in_db : DbError → JobError
  empty_job_id no_column : JobError
  job_not_found : List ℕ → JobError
  not_done : JobState → JobError

abbrev pub Jx : Type 0 → Type 0
Jx A = Jobs → Result JobError A × Jobs

-- A row by its id.
abbrev pub find_job : ℕ → List JobRow → Option JobRow
find_job r [] = none
find_job r (j ∷ js) = if j.row == r then some j else find_job r js

-- UPDATE of the row with an id.
abbrev pub change_job : ℕ → (JobRow → JobRow) → List JobRow → List JobRow
change_job r f [] = []
change_job r f (j ∷ js) = (if j.row == r then f j else j) ∷ change_job r f js

abbrev pub find_child : ℕ → ℕ → List Child → Option ℕ
find_child p i [] = none
find_child p i (c ∷ cs) =
    if (c.parent == p) && (c.idx == i) then some c.child else find_child p i cs

abbrev pub is_finished : JobState → Bool
is_finished unknown = false
is_finished queued = false
is_finished running = false
is_finished finished = true

abbrev pub find_root : ℕ → List Root → Option ℕ
find_root i [] = none
find_root i (r ∷ rs) = if r.idx == i then some r.job_row else find_root i rs

-- `sql.Null.V`.
abbrev pub code_of : Option ℕ → ℕ
code_of none = 0
code_of (some c) = c

abbrev pub is_ok_code : Option ℕ → Bool
is_ok_code none = false
is_ok_code (some c) = c == 0
