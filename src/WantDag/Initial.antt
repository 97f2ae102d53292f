-- ===== src/WantDag/Initial.antt =====
-- What `ParallelExecLast` (parallelexec.go) starts with, when its main loop is over.
use want.Common.{
  ℕ, zero, suc, ◌+◌, ◌^◌, ◌<◌, ◌==◌, ◌≡◌, refl, ap, subst, if◌then◌else◌, false, some, List, [],
  ◌∷◌, length, get_elem?, arith, ltb,
}
use want.WantJob.Results.{JobResult}
use want.WantDag.Nodes.{Node}
use want.WantDag.Builder.{InputsBefore, AcyclicFrom}
use want.WantDag.Exec.{Backend}
use want.WantDag.Parallel.{inputs_at, start, scan, scan_all}
use want.WantDag.Counts.{occurs, told, occurs-append, total, pending_none}
use want.WantDag.Schedules.{Inv}

module _ {Ref : Type 0} where
  -- The inputs of every node are fewer than 2^32.
  abbrev pub SmallInputs : List (Node Ref) → Type 0
  SmallInputs dag = (t : ℕ) → length (inputs_at dag t) < 2 ^ 32

  -- The number of nodes and inputs.
  abbrev pub size : List (Node Ref) → ℕ
  size dag = total (λ t. suc (length (inputs_at dag t))) (length dag)

  pub scan_all_scanned : (dag : List (Node Ref)) (k : ℕ) → (scan_all k (start dag)).scanned ≡ k
  unfolding scan_all scan start
  scan_all_scanned dag zero = refl
  scan_all_scanned dag (suc k) = ap suc (scan_all_scanned dag k)

  pub scan_all_need :
      (dag : List (Node Ref)) (k t : ℕ) → (scan_all k (start dag)).need t ≡ (start dag).need t
  unfolding scan_all scan start
  scan_all_need dag zero t = refl
  scan_all_need dag (suc k) t = scan_all_need dag k t

  scan_all_notes : (dag : List (Node Ref)) (k : ℕ) → (scan_all k (start dag)).notes ≡ []
  unfolding scan_all scan start
  scan_all_notes dag zero = refl
  scan_all_notes dag (suc k) = scan_all_notes dag k

  scan_all_failed : (dag : List (Node Ref)) (k : ℕ) → (scan_all k (start dag)).failed ≡ false
  unfolding scan_all scan start
  scan_all_failed dag zero = refl
  scan_all_failed dag (suc k) = scan_all_failed dag k

  -- The nodes before `k` that need nothing are started once, and no others.
  scan_all_ready :
      (dag : List (Node Ref)) (k t : ℕ)
      → occurs t (scan_all k (start dag)).ready
        ≡ (if ltb t k then (if (start dag).need t == 0 then 1 else 0) else 0)
  unfolding scan_all scan start
  scan_all_ready dag zero t = ground arith
  scan_all_ready dag (suc k) t =
      let q = scan_all k (start dag) in
      ground (
        arith,
        scan_all_ready dag k t,
        scan_all_scanned dag k,
        scan_all_need dag k q.scanned,
        occurs-append t q.ready (q.scanned ∷ []),
      )

  pub inputs_at-get :
      (dag : List (Node Ref)) (t : ℕ) (x : Node Ref)
      → get_elem? dag t ≡ some x
      → inputs_at dag t ≡ x.inputs
  inputs_at-get [] t x h = cc
  inputs_at-get (y ∷ ys) zero x h = let same : y ≡ x = cc in ap (λ z. z.inputs) same
  inputs_at-get (y ∷ ys) (suc t) x h = inputs_at-get ys t x h

  pub inputs_at-InputsBefore :
      (dag : List (Node Ref)) (i t : ℕ)
      → AcyclicFrom i dag
      → t < length dag
      → InputsBefore (i + t) (inputs_at dag t)
  inputs_at-InputsBefore [] i t h lt = elim lt [ ]
  inputs_at-InputsBefore (x ∷ xs) i zero h lt =
      subst (λ m. InputsBefore m x.inputs) (omega arith) h.0
  inputs_at-InputsBefore (x ∷ xs) i (suc t) h lt =
      subst (λ m. InputsBefore m (inputs_at xs t)) (omega arith)
        (inputs_at-InputsBefore xs (suc i) t h.1 (omega arith))

  pub get_elem-inside :
      (dag : List (Node Ref)) (t : ℕ) → t < length dag → (x : Node Ref) × (get_elem? dag t ≡ some x)
  get_elem-inside [] t lt = elim lt [ ]
  get_elem-inside (x ∷ xs) zero lt = (x, refl)
  get_elem-inside (x ∷ xs) (suc t) lt = get_elem-inside xs t (omega arith)

  -- When the main loop is over, nothing has run and each node is either started or waits.
  pub initial_Inv :
      (be : Backend Ref) (dag : List (Node Ref)) (final : ℕ → JobResult)
      → SmallInputs dag
      → Inv be dag final (scan_all (length dag) (start dag)) (λ _. false)
  unfolding start
  initial_Inv be dag final small =
      let p = scan_all (length dag) (start dag) in
      let need = scan_all_need dag (length dag) in
      let nobody = λ (t : ℕ). ap (told t) (scan_all_notes dag (length dag)) in
      let ready = scan_all_ready dag (length dag) in
      record {
        counts = λ t. ground (arith, need t, nobody t, small t, pending_none (inputs_at dag t));
        small = λ t. ground (arith, need t, small t);
        once = λ t. ground (arith, ready t);
        live = λ t h. ground (arith, ready t, need t);
        over = λ t h. ground arith;
        waits = λ t lt z f. ground (arith, ready t, need t);
        told_in = λ t h. ground (arith, nobody t);
        fine = scan_all_failed dag (length dag);
        scanned_all = scan_all_scanned dag (length dag);
      }
