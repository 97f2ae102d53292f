-- ===== src/WantDag/Race.antt =====
-- The main loop of `ParallelExecLast` (parallelexec.go) reads the counts that its workers change.
use want.Common.{◌≤◌, ◌≡◌, refl, ap, ◌++◌, List, [], ◌∷◌, length, arith}
use want.Common.Result.{ok}
use want.WantJob.Results.{JobResult, zero_result}
use want.WantDag.Nodes.{NodeInput, Node}
use want.WantDag.Exec.{Backend, exec_node}
use want.WantDag.Parallel.{
  Pool, unblocks, targets, start, scan, finish_work, tell, scans, works, tells, Runs, here, next,
}
use want.WantDag.Counts.{occurs}

module _ {Ref : Type 0} (be : Backend Ref) where
  -- In every graph whose first node has no inputs and runs, and whose second node has the first as its
  -- only input, there is a schedule of four steps after which the second node is started twice: the
  -- main loop starts the first, which runs and tells the second, which starts it; then the main loop
  -- comes to the second node and finds its count zero.
  pub started_twice :
      (x y : Node Ref) (zs : List (Node Ref)) (i : NodeInput) (r : JobResult)
      → x.inputs ≡ []
      → y.inputs ≡ i ∷ []
      → i.node ≡ 0
      → exec_node be (length (x ∷ y ∷ zs)) (λ _. zero_result) x ≡ ok r
      → (q : Pool) × Runs be (x ∷ y ∷ zs) (start (x ∷ y ∷ zs)) 4 q × (2 ≤ occurs 1 q.ready)
  unfolding start scan finish_work tell unblocks targets
  started_twice x y zs i r ex ey ei run =
      let dag = x ∷ y ∷ zs in
      let p0 = start dag in
      let p1 = scan p0 in
      let started : p1.ready ≡ [] ++ (0 ∷ []) = rw ex refl in
      let p2 = finish_work p1 [] 0 r (unblocks 0 0 dag) in
      let waiting : unblocks 0 0 dag ≡ 1 ∷ unblocks 0 2 zs = rw (ex, ey, ei) refl in
      let noted : p2.notes ≡ [] ++ ((1 ∷ unblocks 0 2 zs) ∷ []) = rw waiting refl in
      let p3 = tell p2 1 (unblocks 0 2 zs ∷ []) in
      let both : (scan p3).ready ≡ 1 ∷ 1 ∷ [] = rw ey refl in
      let twice : occurs 1 (scan p3).ready ≡ 2 = ap (occurs 1) both in
      (
        scan p3,
        next
            (next
              (next (next here (scans (omega arith) refl))
                (works [] [] 0 x r started refl run refl))
              (tells [] [] 1 (unblocks 0 2 zs) noted refl))
            (scans (omega arith) refl),
        omega (arith, twice),
      )
