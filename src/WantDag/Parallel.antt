-- ===== src/WantDag/Parallel.antt =====
-- `ParallelExecLast` (parallelexec.go) as a pool of goroutines. A worker runs its node, then tells the
-- nodes that wait for it, one atomic decrement after the other; the main loop starts the nodes that
-- need nothing, while the workers run. Counts are `int32` bit patterns. That the pool and
-- `SerialExecAll` keep their input trees in different stores is not modelled: the `Backend` is one.
use want.Common.{
  ℕ, zero, suc, ◌+◌, ◌-◌, ◌%◌, ◌^◌, ◌<◌, ◌==◌, ◌≡◌, if◌then◌else◌, Bool, true, false, some, List,
  [], ◌∷◌, ◌++◌, length, get_elem?,
}
use want.Common.Result.{ok, err}
use want.WantJob.Results.{JobResult, zero_result}
use want.WantDag.Nodes.{NodeInput, Node}
use want.WantDag.Exec.{Backend, ExecError, update, exec_node}

pub record Pool : Type 0 where
  pub results : ℕ → JobResult
  -- `needCount`.
  pub need : ℕ → ℕ
  -- Workers that are started and have not run their node.
  pub ready : List ℕ
  -- For each worker that has run its node, the nodes that it has still to tell.
  pub notes : List (List ℕ)
  -- How far the main loop has come.
  pub scanned : ℕ
  -- Some worker returned an error.
  pub failed : Bool

-- `x - 1` in 32 bits.
abbrev pub dec32 : ℕ → ℕ
dec32 x = (x + 2 ^ 32 - 1) % 2 ^ 32

abbrev pub put : (ℕ → ℕ) → ℕ → ℕ → ℕ → ℕ
put f i v j = if i == j then v else f j

-- Node `t`, once for each of its inputs that is `id`.
unfoldable pub targets : ℕ → ℕ → List NodeInput → List ℕ
targets id t [] = []
targets id t (i ∷ ins) = let rest = targets id t ins in if i.node == id then t ∷ rest else rest

module _ {Ref : Type 0} where
  abbrev pub inputs_at : List (Node Ref) → ℕ → List NodeInput
  inputs_at [] t = []
  inputs_at (x ∷ xs) zero = x.inputs
  inputs_at (x ∷ xs) (suc t) = inputs_at xs t

  -- `unblocks[id]`, of the nodes from `t` on.
  unfoldable pub unblocks : ℕ → ℕ → List (Node Ref) → List ℕ
  unfolding targets
  unblocks id t [] = []
  unblocks id t (x ∷ xs) = targets id t x.inputs ++ unblocks id (suc t) xs

  -- The state when the first loop has counted the inputs.
  unfoldable pub start : List (Node Ref) → Pool
  start dag = record {
    results = λ _. zero_result;
    need = λ t. length (inputs_at dag t) % 2 ^ 32;
    ready = [];
    notes = [];
    scanned = 0;
    failed = false;
  }

-- One round of the main loop.
unfoldable pub scan : Pool → Pool
scan p = record p {
  scanned = suc p.scanned;
  ready = if p.need p.scanned == 0 then p.ready ++ p.scanned ∷ [] else p.ready;
}

-- The main loop of `k` rounds, with no worker in between.
unfoldable pub scan_all : ℕ → Pool → Pool
unfolding scan
scan_all zero p = p
scan_all (suc k) p = scan (scan_all k p)

-- A worker writes its result, and has to tell `waiting`.
unfoldable pub finish_work : Pool → List ℕ → ℕ → JobResult → List ℕ → Pool
unfolding update
finish_work p others id r waiting = record p {
  ready = others;
  results = update p.results id r;
  notes = waiting ∷ p.notes;
}

-- A worker tells node `t`, and starts it if it needs nothing more.
unfoldable pub tell : Pool → ℕ → List (List ℕ) → Pool
tell p t left = record p {
  notes = left;
  need = put p.need t (dec32 (p.need t));
  ready = if dec32 (p.need t) == 0 then p.ready ++ t ∷ [] else p.ready;
}

module _ {Ref : Type 0} (be : Backend Ref) (dag : List (Node Ref)) where
  pub data Step (p q : Pool) : Type 0 where
    scans : p.scanned < length dag → q ≡ scan p → Step p q
    works :
        (xs ys : List ℕ) (id : ℕ) (x : Node Ref) (r : JobResult)
        → p.ready ≡ xs ++ (id ∷ ys)
        → get_elem? dag id ≡ some x
        → exec_node be (length dag) p.results x ≡ ok r
        → q ≡ finish_work p (xs ++ ys) id r (unblocks id 0 dag)
        → Step p q
    -- A worker that returns an error tells nobody, so that nobody reads its result.
    fails :
        (xs ys : List ℕ) (id : ℕ) (x : Node Ref) (e : ExecError)
        → p.ready ≡ xs ++ (id ∷ ys)
        → get_elem? dag id ≡ some x
        → exec_node be (length dag) p.results x ≡ err e
        → q ≡ record p { ready = xs ++ ys; failed = true }
        → Step p q
    tells :
        (os ns : List (List ℕ)) (t : ℕ) (ts : List ℕ)
        → p.notes ≡ os ++ ((t ∷ ts) ∷ ns)
        → q ≡ tell p t (os ++ (ts ∷ ns))
        → Step p q

  -- Runs of `k` steps, in whatever order the goroutines are scheduled.
  pub data Runs (p : Pool) : ℕ → Pool → Type 0 where
    here : Runs p zero p
    next : {k : ℕ} {q r : Pool} → Runs p k q → Step q r → Runs p (suc k) r
