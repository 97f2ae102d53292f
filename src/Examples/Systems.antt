-- ===== src/Examples/Systems.antt =====
-- The job systems, the stores and the multiplexer at concrete inputs.
use want.Common.{
  ℕ, ◌≤◌, ◌≡◌, ◌≢◌, ◌⊎◌, inl, inr, refl, false, Bool, Option, none, some, [], ◌∷◌, ◌++◌, map,
  length, if◌then◌else◌, ◌==◌, arith, Bool-cases, subst,
}
use want.Common.Text.{Str, bytes}
use want.Common.Outcome.{done}
use want.Common.Result.{ok}
use want.WantJob.Results.{JobResult}
use want.WantDb.JobTables.{Jobs, JobError}
use want.Stores.Cache.{Lru, IsLru, HasRoom, cached_get}
use want.Stores.Contents.{read_of, holding}
use want.Stores.Cached.{cached_reads, cached_get-holding, cached_get_short}
use want.JobSystem.Once.{Group, returned, miss, join, fly, arrive, Reached, begin, after}
use want.JobSystem.Shared.{shared_once}
use want.JobSystem.Jobs.{Job}
use want.JobSystem.Process.{ran, process}
use want.JobSystem.Recorded.{Ends, process_lem}
use want.WantDb.Jobs.{lookup_job_row}
use want.Examples.Database.{one_job, first_row}
use want.StreamMux.Frames.{write}
use want.StreamMux.Mux.{
  Mux, returned as came_back, deadlock, at_tag, process_header, read_stream, read_stream-write,
  process_header-write,
}
use want.WantC.Graph.{named_layers}
use want.WantC.Names.{check_node_inputs-named}
use want.WantDag.Nodes.{check_node_inputs}
use want.WantDb.Tables.{Db}

abbrev a_result : JobResult
a_result = record { errcode = 0; root = bytes "r"; schema = [] }

-- Two jobs of one task: the second joins the run of the first.
abbrev one_task : ℕ → ℕ
one_task j = 5

two_jobs : (g : Group) × Reached one_task g
two_jobs = (
  _,
  after
      (after
        (after (after (after begin (miss 0 refl refl)) (miss 1 refl refl)) (fly 0 refl refl refl))
        (join 1 0 refl refl))
      (arrive 0 a_result refl),
)

shared_once_example :
    ((k : ℕ) → two_jobs.0.runs k ≤ 1)
    × ((i j : ℕ) (b c : Bool) (x y : JobResult)
        → one_task i ≡ one_task j
        → two_jobs.0.phase i ≡ returned b x
        → two_jobs.0.phase j ≡ returned c y
        → x ≡ y)
shared_once_example = shared_once one_task (two_jobs.0) (two_jobs.1)

abbrev no_db : Db
no_db = record {
  blobs = λ i. none;
  links = [];
  stores = λ i. false;
  next_store = 1;
  in_use = λ i. false;
}

abbrev no_rows_yet : Jobs
no_rows_yet = record {
  db = no_db;
  jobs = [];
  next_row = 1;
  roots = [];
  next_root = 0;
  children = [];
  ops = [];
  tasks = λ i. none;
}

abbrev a_job : Job
a_job = record {
  id = 0 ∷ [];
  task = record { op = bytes "o"; input = [] };
  dst = 1;
  is_done = false;
  result = none;
  children = [];
}

abbrev show_error : JobError → Str
show_error e = bytes "e"

abbrev rooted_job : Job
rooted_job = record a_job { id = 1 ∷ [] }

process_lem_example :
    (p : Option JobError × Job × Jobs) × (process show_error [] (ran a_result) rooted_job one_job
      ≡ done p)
    × Ends show_error [] (ran a_result) rooted_job first_row one_job p
unfolding lookup_job_row
process_lem_example =
    process_lem show_error [] (ran a_result) rooted_job first_row 1 one_job refl refl refl refl

-- A cache of one entry.
abbrev Slot : Type 0
Slot = Option (ℕ × Str)

abbrev held_in : Slot → ℕ → Option Str
held_in none i = none
held_in (some (k, x)) i = if k == i then some x else none

abbrev slot : Lru Slot
slot = record { lookup = λ c i. (held_in c i, c); add = λ c i x. some (i, x) }

slot-adds :
    (c : Slot) (id j : ℕ) (x y : Str)
    → held_in (some (id, x)) j ≡ some y
    → ((j ≡ id) × (y ≡ x)) ⊎ (held_in c j ≡ some y)
slot-adds c id j x y h = elim (Bool-cases (id == j)) [
  | inl e ↦ inl (ground (arith, e), ground (arith, h, e))
  | inr e ↦ absurd (ground (arith, h, e))
]

slot-IsLru : IsLru slot held_in
slot-IsLru = record { looks_up = λ c i. refl; keeps = λ c i j. refl; adds = slot-adds }

abbrev two_blobs : ℕ → Option Str
two_blobs i = if i == 1 then some (bytes "one") else none

two_blobs-fit : (j : ℕ) (y : Str) → two_blobs j ≡ some y → length y ≤ 8
two_blobs-fit j y h = elim (Bool-cases (j == 1)) [
  | inl e ↦
      let same : bytes "one" ≡ y = ground (arith, h, e) in
      subst (λ z. length z ≤ 8) same (omega arith)
  | inr e ↦ absurd (ground (arith, h, e))
]

cached_get-holding_example :
    cached_reads slot held_in slot-IsLru two_blobs none 8 (1 ∷ 2 ∷ 1 ∷ [])
    ≡ map (λ id. read_of id 8 (two_blobs id)) (1 ∷ 2 ∷ 1 ∷ [])
cached_get-holding_example =
    cached_get-holding slot held_in slot-IsLru two_blobs none 8 (1 ∷ 2 ∷ 1 ∷ []) (λ j y h. cc)
      two_blobs-fit

slot-HasRoom : HasRoom slot
slot-HasRoom c id x = ground arith

cached_get_short_example :
    let second =
      (cached_get slot
        (holding two_blobs)
        ((cached_get slot (holding two_blobs) none 1 1).1)
        1
        8).0 in
    (second ≡ ok (bytes "o")) × (second ≢ read_of 1 8 (two_blobs 1))
cached_get_short_example =
    cached_get_short slot held_in slot-IsLru slot-HasRoom two_blobs none 1 1 8 (bytes "one") refl
      refl (omega arith) (omega arith)

abbrev a_mux : Str → Mux
a_mux s = record { buffered = s; streams = 3 ∷ []; incoming = none; lengths = λ t. none }

read_stream-write_example :
    read_stream 3 10 2 (a_mux (write 3 (bytes "hi") ++ bytes "rest"))
    ≡ came_back (
      bytes "hi",
      record {
        buffered = bytes "rest";
        streams = 3 ∷ [];
        incoming = none;
        lengths = at_tag (at_tag (λ t. none) 3 (some 2)) 3 none;
      },
    )
read_stream-write_example =
    read_stream-write 3 10 (bytes "hi") (bytes "rest")
      (a_mux (write 3 (bytes "hi") ++ bytes "rest")) (omega arith) (omega arith) (omega arith)
      (omega arith) refl refl refl

abbrev no_bytes : Str
no_bytes = []

process_header-write_example :
    ((no_bytes ≡ []) × (process_header (a_mux (write 3 [] ++ [])) ≡ deadlock))
    ⊎ ((no_bytes ≢ []) × (process_header (a_mux (write 3 [] ++ [])) ≢ deadlock))
process_header-write_example =
    process_header-write 3 no_bytes [] (a_mux (write 3 [] ++ [])) (omega arith) (omega arith) refl
      refl

check_node_inputs-named_example : check_node_inputs (named_layers 0 (4 ∷ 7 ∷ 5 ∷ [])) ≡ ok tt
check_node_inputs-named_example = check_node_inputs-named (4 ∷ 7 ∷ 5 ∷ []) (omega arith)
