-- ===== src/WantDag/Schedules.antt =====
-- The workers of `ParallelExecLast` (parallelexec.go) behind its main loop: an invariant of their steps.
use want.Common.{
  ℕ, ◌+◌, ◌^◌, ◌≤◌, ◌<◌, ◌≡◌, ap, Bool, true, false, List, [], ◌∷◌, ◌++◌, length, arith, Bool-cases,
}
use want.WantJob.Results.{JobResult}
use want.WantDag.Nodes.{NodeInput, Node}
use want.WantDag.Exec.{Backend, update}
use want.WantDag.Serial.{SameOn}
use want.WantDag.Parallel.{Pool, inputs_at, unblocks, finish_work, tell}
use want.WantDag.Counts.{
  occurs, told, pending, mark, occurs-append, told-append, pending-mark, unblocks_lem,
  inputs_at_inside,
}

pub occurs_middle : (xs ys : List ℕ) (id : ℕ) → 0 < occurs id (xs ++ (id ∷ ys))
occurs_middle xs ys id = ground (arith, occurs-append id xs (id ∷ ys))

pub told_middle : (os ns : List (List ℕ)) (t : ℕ) (ts : List ℕ) → 0 < told t (os ++ ((t ∷ ts) ∷ ns))
told_middle os ns t ts = ground (arith, told-append t os ((t ∷ ts) ∷ ns))

module _ {Ref : Type 0} (be : Backend Ref) (dag : List (Node Ref)) (final : ℕ → JobResult) where
  -- `fin` tells which nodes have run.
  pub record Inv (p : Pool) (fin : ℕ → Bool) : Type 0 where
    pub counts : (t : ℕ) → p.need t ≡ pending fin (inputs_at dag t) + told t p.notes
    pub small : (t : ℕ) → p.need t < 2 ^ 32
    pub once : (t : ℕ) → occurs t p.ready ≤ 1
    pub live : (t : ℕ) → 0 < occurs t p.ready → (t < length dag) × (p.need t ≡ 0) × (fin t ≡ false)
    pub over : (t : ℕ) → fin t ≡ true → (t < length dag) × (p.need t ≡ 0) × (p.results t ≡ final t)
    pub waits : (t : ℕ) → t < length dag → p.need t ≡ 0 → fin t ≡ false → 0 < occurs t p.ready
    pub told_in : (t : ℕ) → 0 < told t p.notes → t < length dag
    pub fine : p.failed ≡ false
    pub scanned_all : p.scanned ≡ length dag

  pub inputs_final :
      {p : Pool} {fin : ℕ → Bool} (v : Inv p fin) (ins : List NodeInput)
      → pending fin ins ≡ 0
      → SameOn p.results final ins
  inputs_final v [] h = tt
  inputs_final {fin} v (i ∷ ins) h =
      ((v.over i.node (ground arith)).2, inputs_final v ins (ground arith))

  unblocks_in :
      (id t others : ℕ)
      → (0 < others → t < length dag)
      → 0 < occurs t (unblocks id 0 dag) + others
      → t < length dag
  unblocks_in id t others old h = ground (arith, unblocks_lem id t dag, inputs_at_inside id dag t)

  -- A worker that has run its node.
  pub works-Inv :
      {p : Pool} {fin : ℕ → Bool} (v : Inv p fin) (xs ys : List ℕ) (id : ℕ) (r : JobResult)
      → p.ready ≡ xs ++ (id ∷ ys)
      → r ≡ final id
      → Inv (finish_work p (xs ++ ys) id r (unblocks id 0 dag)) (mark fin id)
  unfolding finish_work update
  works-Inv {p} {fin} v xs ys id r e right =
      let (inside, free, unfinished) = v.live id (rw e (occurs_middle xs ys id)) in
      let split = λ (t : ℕ). occurs-append t xs (id ∷ ys) in
      let rest = λ (t : ℕ). occurs-append t xs ys in
      let before = λ (t : ℕ). ap (occurs t) e in
      record {
        counts = λ t. omega (
          arith,
          v.counts t,
          pending-mark fin id (inputs_at dag t) unfinished,
          unblocks_lem id t dag,
        );
        small = v.small;
        once = λ t. ground (arith, v.once t, split t, rest t, before t);
        live = λ t h. ground (arith, v.once t, v.live t, split t, rest t, before t);
        over = λ t h. ground (arith, v.over t);
        waits = λ t lt z f. ground (arith, v.waits t lt z, split t, rest t, before t);
        told_in = λ t h. unblocks_in id t (told t p.notes) (v.told_in t) h;
        fine = v.fine;
        scanned_all = v.scanned_all;
      }

  pub tells-Inv :
      {p : Pool} {fin : ℕ → Bool} (v : Inv p fin) (os ns : List (List ℕ)) (t : ℕ) (ts : List ℕ)
      → p.notes ≡ os ++ ((t ∷ ts) ∷ ns)
      → Inv (tell p t (os ++ (ts ∷ ns))) fin
  unfolding tell
  tells-Inv {p} {fin} v os ns t ts e =
      let split = λ (s : ℕ). told-append s os ((t ∷ ts) ∷ ns) in
      let rest = λ (s : ℕ). told-append s os (ts ∷ ns) in
      let before = λ (s : ℕ). ap (told s) e in
      let told_now : 0 < told t p.notes = rw e (told_middle os ns t ts) in
      let waiting : 0 < p.need t = omega (arith, v.counts t) in
      let inside = v.told_in t told_now in
      let added = λ (s : ℕ). occurs-append s p.ready (t ∷ []) in
      record {
        counts = λ s. ground (arith, v.counts s, split s, rest s, before s, v.small t);
        small = λ s. ground (arith, v.small s);
        once = λ s. ground (arith, v.once s, v.live s, added s);
        live = λ s h.
            ground
              (arith, v.live s, added s, v.over t, inside, waiting, v.small t, Bool-cases (fin t));
        over = λ s h. ground (arith, v.over s h);
        waits = λ s lt z f. ground (arith, v.waits s lt, added s, v.small t);
        told_in = λ s h. v.told_in s (omega (arith, split s, rest s, before s, h));
        fine = v.fine;
        scanned_all = v.scanned_all;
      }
