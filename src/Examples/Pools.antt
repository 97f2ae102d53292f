-- ===== src/Examples/Pools.antt =====
-- A pool of workers on a fact and an operation on it: src/internal/wantdag/parallelexec.go.
use want.Common.{ℕ, zero, suc, ◌≤◌, ◌≡◌, refl, none, some, Bool, false, List, [], ◌∷◌, arith}
use want.Common.Text.{bytes}
use want.Common.Result.{ok}
use want.WantJob.Results.{JobResult, zero_result, success}
use want.WantDag.Nodes.{NodeInput, Node}
use want.WantDag.Builder.{AcyclicFrom}
use want.WantDag.Exec.{Backend, update, exec_node, serial_exec_all}
use want.WantDag.Parallel.{
  Pool, Runs, Step, start, scan, scan_all, finish_work, tell, unblocks, targets, works, tells, here,
  next,
}
use want.WantDag.Counts.{occurs}
use want.WantDag.Initial.{SmallInputs, size}
use want.WantDag.AnyOrder.{schedule-fine, schedule-serial, schedule-goes_on}
use want.WantDag.Race.{started_twice}

abbrev input : NodeInput
input = record { name = bytes "a"; node = 0 }

abbrev first : Node ℕ
first = record { value = some 7; op = []; inputs = [] }

abbrev second : Node ℕ
second = record { value = none; op = bytes "glfs.merge"; inputs = input ∷ [] }

abbrev graph : List (Node ℕ)
graph = first ∷ second ∷ []

-- A job system that answers every task with the reference 7.
abbrev backend : Backend ℕ
backend = record {
  is_tree = λ _. false;
  parse_ref = λ s. elim s [ [] ↦ none | c ∷ _ ↦ some c ];
  marshal_ref = λ r. r ∷ [];
  post_tree = λ _. some 9;
  do_task = λ _. some (record { errcode = 0; root = 7 ∷ []; schema = [] });
  fast_sync = λ _. Bool.true;
}

abbrev merged : JobResult
merged = record { errcode = 0; root = 7 ∷ []; schema = [] }

abbrev outcome : ℕ → JobResult
outcome = update (update (λ _. zero_result) 0 (success [] (7 ∷ []))) 1 merged

graph-AcyclicFrom : AcyclicFrom 0 graph
graph-AcyclicFrom = (tt, ((omega arith, tt), tt))

graph-SmallInputs : SmallInputs graph
graph-SmallInputs zero = omega arith
graph-SmallInputs (suc zero) = omega arith
graph-SmallInputs (suc (suc t)) = omega arith

graph-serial : serial_exec_all backend graph ≡ ok outcome
unfolding serial_exec_all
graph-serial = refl

abbrev waiting : Pool
waiting = scan_all 2 (start graph)

abbrev told : Pool
told = tell (finish_work waiting [] 0 (success [] (7 ∷ [])) (unblocks 0 0 graph)) 1 ([] ∷ [])

-- The first worker runs and tells the second, which then runs.
two_steps : Runs backend graph waiting 2 told
unfolding start scan scan_all finish_work tell unblocks targets exec_node
two_steps =
    next (next here (works [] [] 0 first (success [] (7 ∷ [])) refl refl refl refl))
      (tells [] [] 1 [] refl refl)

three_steps : Runs backend graph waiting 3 (finish_work told [] 1 merged (unblocks 1 0 graph))
unfolding start scan scan_all finish_work tell unblocks targets exec_node
three_steps = next two_steps (works [] [] 1 second merged refl refl refl refl)

schedule-fine_example :
    ((finish_work told [] 1 merged (unblocks 1 0 graph)).failed ≡ false) × (3 ≤ size graph)
schedule-fine_example =
    schedule-fine backend graph outcome graph-AcyclicFrom graph-serial graph-SmallInputs 3 _
      three_steps

schedule-serial_example : (finish_work told [] 1 merged (unblocks 1 0 graph)).results 1 ≡ outcome 1
schedule-serial_example =
    schedule-serial backend graph outcome graph-AcyclicFrom graph-serial graph-SmallInputs _ 1
      three_steps (omega arith)

schedule-goes_on_example : (r : Pool) × Step backend graph told r
schedule-goes_on_example =
    schedule-goes_on backend graph outcome graph-AcyclicFrom graph-serial graph-SmallInputs 2 told
      two_steps (omega arith)

started_twice_example : (q : Pool) × Runs backend graph (start graph) 4 q × (2 ≤ occurs 1 q.ready)
unfolding exec_node
started_twice_example =
    started_twice backend first second [] input (success [] (7 ∷ [])) refl refl refl refl
