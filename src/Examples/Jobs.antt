-- ===== src/Examples/Jobs.antt =====
-- Routing by name: src/wantjob.
use want.Common.{List, [], ◌∷◌}
use want.Common.Text.{Str, bytes}
use want.Common.Outcome.{done}
use want.WantJob.Results.{success}
use want.WantJob.Executors.{Executor}

abbrev echo : Executor
echo task = done (success task.op task.input)

abbrev routes : List (Str × Executor)
routes = (bytes "glfs", echo) ∷ []
