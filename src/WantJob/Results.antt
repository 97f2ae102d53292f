-- ===== src/WantJob/Results.antt =====
-- jobs.go and tasks.go: the states of a job, error codes, results and tasks.
use want.Common.{ℕ, ◌==◌, Bool, bnot, []}
use want.Common.Text.{Str}

-- `JobState`, in the order of its numbers.
pub data JobState : Type 0 where
  unknown queued running finished : JobState

-- The numbers of `ErrCode`.
abbrev pub code_ok : ℕ
code_ok = 0

abbrev pub code_timeout : ℕ
code_timeout = 1

abbrev pub code_cancelled : ℕ
code_cancelled = 2

abbrev pub code_exec_error : ℕ
code_exec_error = 4

abbrev pub code_internal_error : ℕ
code_internal_error = 5

-- `Result`.
pub record JobResult : Type 0 where
  pub errcode : ℕ
  pub root : Str
  pub schema : Str

-- The zero value of `Result`.
abbrev pub zero_result : JobResult
zero_result = record { errcode = 0; root = []; schema = [] }

-- `Success`.
unfoldable pub success : Str → Str → JobResult
success schema x = record { errcode = code_ok; root = x; schema = schema }

-- `Result_ErrExec`, of the text of the error.
unfoldable pub err_exec : Str → JobResult
err_exec e = record { errcode = code_exec_error; root = e; schema = [] }

-- `Result_ErrInternal`.
unfoldable pub err_internal : Str → JobResult
err_internal e = record { errcode = code_internal_error; root = e; schema = [] }

-- `Err` returns an error.
unfoldable pub has_failed : JobResult → Bool
has_failed r = bnot (r.errcode == 0)

pub record Task : Type 0 where
  pub op : Str
  pub input : Str
