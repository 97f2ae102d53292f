-- ===== src/WantDag/AnyOrder.antt =====
-- `ParallelExecLast` (parallelexec.go) against `SerialExecAll` (serialexec.go), in any order of steps.
use want.Common.{
  ℕ, zero, suc, ◌+◌, ◌≤◌, ◌<◌, ◌≡◌, refl, sym, ◌∙◌, subst, if◌then◌else◌, Bool, true, false, some,
  List, [], ◌∷◌, ◌++◌, length, get_elem?, arith, inl, inr,
}
use want.Common.Result.{ok}
use want.WantJob.Results.{JobResult}
use want.WantDag.Nodes.{Node}
use want.WantDag.Builder.{InputsBefore, AcyclicFrom}
use want.WantDag.Exec.{Backend, exec_node, serial_exec_all}
use want.WantDag.Serial.{exec_node-same, serial_exec_all_lem}
use want.WantDag.Parallel.{
  Pool, dec32, put, inputs_at, unblocks, start, scan_all, finish_work, tell, Step, scans, works,
  fails, tells, Runs, here, next,
}
use want.WantDag.Counts.{
  occurs, told, pending, mark, total, total_less, total_zero, pending_zero, find_note, List-cases,
  total_nothing, total_same,
}
use want.WantDag.Initial.{
  SmallInputs, size, scan_all_need, inputs_at-get, inputs_at-InputsBefore, get_elem-inside,
  initial_Inv,
}
use want.WantDag.Schedules.{Inv, inputs_final, occurs_middle, told_middle, works-Inv, tells-Inv}

-- What is left to do for node `t`: to run it, and to tell it of its inputs.
abbrev left_for : (ℕ → Bool) → (ℕ → ℕ) → ℕ → ℕ
left_for fin need t = (if fin t then 0 else 1) + need t

module _ {Ref : Type 0} (be : Backend Ref) (dag : List (Node Ref)) (final : ℕ → JobResult)
    (acyclic : AcyclicFrom 0 dag) (serial : serial_exec_all be dag ≡ ok final) where
  abbrev left : Pool → (ℕ → Bool) → ℕ
  left p fin = total (left_for fin p.need) (length dag)

  -- A worker computes what serial execution computes.
  ran :
      {p : Pool} {fin : ℕ → Bool} (v : Inv be dag final p fin) (id : ℕ) (x : Node Ref)
      → get_elem? dag id ≡ some x
      → p.need id ≡ 0
      → exec_node be (length dag) p.results x ≡ ok (final id)
  ran {p} {fin} v id x at z =
      let none_left : pending fin x.inputs ≡ 0 =
        rw (sym (inputs_at-get dag id x at)) (omega (arith, v.counts id)) in
      exec_node-same be (length dag) p.results final x
        (inputs_final be dag final v x.inputs none_left)
      ∙ serial_exec_all_lem be dag final acyclic serial id x at

  abbrev Moved : Pool → Pool → (ℕ → Bool) → Type 0
  Moved p q fin = (fin' : ℕ → Bool) × Inv be dag final q fin' × (suc (left q fin') ≡ left p fin)

  works-Moved :
      {p : Pool} {fin : ℕ → Bool} (v : Inv be dag final p fin) (xs ys : List ℕ) (id : ℕ)
      (x : Node Ref) (r : JobResult)
      → p.ready ≡ xs ++ (id ∷ ys)
      → get_elem? dag id ≡ some x
      → exec_node be (length dag) p.results x ≡ ok r
      → Moved p (finish_work p (xs ++ ys) id r (unblocks id 0 dag)) fin
  unfolding finish_work
  works-Moved {p} {fin} v xs ys id x r e at run =
      let (inside, free, unfinished) = v.live id (rw e (occurs_middle xs ys id)) in
      let all_there = ran v id x at free in
      let right : r ≡ final id = cc in
      (
        mark fin id,
        works-Inv be dag final v xs ys id r e right,
        total_less (left_for fin p.need) (left_for (mark fin id) p.need) (length dag) id inside
            (ground arith) (λ t h. ground arith),
      )

  tells-Moved :
      {p : Pool} {fin : ℕ → Bool} (v : Inv be dag final p fin) (os ns : List (List ℕ)) (t : ℕ)
      (ts : List ℕ)
      → p.notes ≡ os ++ ((t ∷ ts) ∷ ns)
      → Moved p (tell p t (os ++ (ts ∷ ns))) fin
  unfolding tell
  tells-Moved {p} {fin} v os ns t ts e =
      let told_now : 0 < told t p.notes = rw e (told_middle os ns t ts) in
      (
        fin,
        tells-Inv be dag final v os ns t ts e,
        total_less (left_for fin p.need) (left_for fin (put p.need t (dec32 (p.need t))))
            (length dag) t (v.told_in t told_now) (ground (arith, v.small t, v.counts t))
            (λ s h. ground arith),
      )

  Step-Moved :
      {p q : Pool} {fin : ℕ → Bool} (v : Inv be dag final p fin) → Step be dag p q → Moved p q fin
  Step-Moved {p} {q} {fin} v (scans lt same) = absurd (omega (arith, v.scanned_all))
  Step-Moved {p} {q} {fin} v (works xs ys id x r e at run same) =
      subst (λ z. Moved p z fin) (sym same) (works-Moved v xs ys id x r e at run)
  Step-Moved {p} {q} {fin} v (fails xs ys id x e started at run same) =
      let (inside, free, unfinished) = v.live id (rw started (occurs_middle xs ys id)) in
      let all_there = ran v id x at free in absurd cc
  Step-Moved {p} {q} {fin} v (tells os ns t ts e same) =
      subst (λ z. Moved p z fin) (sym same) (tells-Moved v os ns t ts e)

  Runs-Moved :
      {p q : Pool} {fin : ℕ → Bool} {k : ℕ} (v : Inv be dag final p fin)
      → Runs be dag p k q
      → (fin' : ℕ → Bool) × Inv be dag final q fin' × (left q fin' + k ≡ left p fin)
  Runs-Moved {fin} v here = (fin, v, omega arith)
  Runs-Moved {p} {q} {fin} {k} v (next runs step) =
      let (fin1, v1, e1) = Runs-Moved v runs in
      let (fin2, v2, e2) = Step-Moved v1 step in (fin2, v2, omega arith)

  -- When no goroutine can move, every node has run.
  quiet :
      {p : Pool} {fin : ℕ → Bool} (v : Inv be dag final p fin)
      → ((t : ℕ) → told t p.notes ≡ 0)
      → p.ready ≡ []
      → (k t : ℕ) → t < k
      → t < length dag
      → fin t ≡ true
  quiet v untold idle zero t lt inside = elim lt [ ]
  quiet {p} {fin} v untold idle (suc k) t lt inside =
      let before : InputsBefore t (inputs_at dag t) =
        subst (λ m. InputsBefore m (inputs_at dag t)) (omega arith)
          (inputs_at-InputsBefore dag 0 t acyclic inside) in
      let none_left : pending fin (inputs_at dag t) ≡ 0 =
        pending_zero fin t (inputs_at dag t) before
          (λ j le. quiet v untold idle k j (omega arith) (omega arith)) in
      let free : p.need t ≡ 0 = omega (arith, v.counts t, untold t) in
      let nobody : occurs t p.ready ≡ 0 = rw idle refl in ground (arith, v.waits t inside free)

  can_move :
      {p : Pool} {fin : ℕ → Bool} (v : Inv be dag final p fin)
      → 0 < left p fin
      → (q : Pool) × Step be dag p q
  can_move {p} {fin} v more = elim (find_note p.notes) [
    | inr (os, ns, t, ts, e) ↦ (tell p t (os ++ (ts ∷ ns)), tells os ns t ts e refl)
    | inl untold ↦ elim (List-cases p.ready) [
      | inr (id, ys, e) ↦
          let (inside, free, unfinished) = v.live id (rw e (occurs_middle [] ys id)) in
          let (x, at) = get_elem-inside dag id inside in
          (
            finish_work p ys id (final id) (unblocks id 0 dag),
            works [] ys id x (final id) e at (ran v id x at free) refl,
          )
      | inl idle ↦
          let done =
            λ (t : ℕ) (lt : t < length dag). quiet v untold idle (suc t) t (omega arith) lt in
          let nothing : left p fin ≡ 0 =
            total_nothing (left_for fin p.need) (length dag)
              (λ t lt. ground (arith, done t lt, v.over t)) in
          absurd (omega arith)
    ]
  ]

module _ {Ref : Type 0} (be : Backend Ref) (dag : List (Node Ref)) (final : ℕ → JobResult)
    (acyclic : AcyclicFrom 0 dag) (serial : serial_exec_all be dag ≡ ok final)
    (small : SmallInputs dag) where
  from_start :
      {k : ℕ} {q : Pool}
      → Runs be dag (scan_all (length dag) (start dag)) k q
      → (fin : ℕ → Bool) × Inv be dag final q fin
        × (left be dag final acyclic serial q fin + k ≡ size dag)
  unfolding start
  from_start runs =
      let p = scan_all (length dag) (start dag) in
      let (fin, v, e) =
        Runs-Moved be dag final acyclic serial (initial_Inv be dag final small) runs in
      let same : left be dag final acyclic serial p (λ _. false) ≡ size dag =
        total_same (left_for (λ _. false) p.need) _ (length dag)
          (λ t lt. ground (arith, scan_all_need dag (length dag) t, small t)) in
      (fin, v, omega arith)

  -- For a graph without forward references whose nodes have fewer than 2^32 inputs each and on
  -- which `SerialExecAll` succeeds, and the pool of `ParallelExecLast` after a main loop that
  -- ran before every worker: after any sequence of steps of the workers none has failed, and no
  -- such sequence is longer than the number of nodes and inputs together.
  pub schedule-fine :
      (k : ℕ) (q : Pool)
      → Runs be dag (scan_all (length dag) (start dag)) k q
      → (q.failed ≡ false) × (k ≤ size dag)
  schedule-fine k q runs = let (fin, v, e) = from_start runs in (v.fine, omega arith)

  -- For a graph without forward references whose nodes have fewer than 2^32 inputs each and on
  -- which `SerialExecAll` succeeds, and the pool of `ParallelExecLast` after a main loop that
  -- ran before every worker: every sequence of steps of the workers as long as there are nodes
  -- and inputs together ends with the result of `SerialExecAll` for every node.
  pub schedule-serial :
      (q : Pool) (t : ℕ)
      → Runs be dag (scan_all (length dag) (start dag)) (size dag) q
      → t < length dag
      → q.results t ≡ final t
  schedule-serial q t runs lt =
      let (fin, v, e) = from_start runs in
      let nothing = total_zero (left_for fin q.need) (length dag) t (omega arith) lt in
      let done : fin t ≡ true = ground arith in (v.over t done).2

  -- For a graph without forward references whose nodes have fewer than 2^32 inputs each and on
  -- which `SerialExecAll` succeeds, and the pool of `ParallelExecLast` after a main loop that
  -- ran before every worker: a sequence of fewer steps than there are nodes and inputs together
  -- can go on, so that the pool is never stuck before it is done.
  pub schedule-goes_on :
      (k : ℕ) (q : Pool)
      → Runs be dag (scan_all (length dag) (start dag)) k q
      → k < size dag
      → (r : Pool) × Step be dag q r
  schedule-goes_on k q runs lt =
      let (fin, v, e) = from_start runs in can_move be dag final acyclic serial v (omega arith)
