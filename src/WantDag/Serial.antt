-- ===== src/WantDag/Serial.antt =====
-- `SerialExecAll` (serialexec.go): its results, and the nodes run on them.
use want.Common.{
  ℕ, zero, suc, ◌+◌, ◌<◌, ◌≡◌, refl, sym, ap, ◌∙◌, subst, ◌≢◌, some, List, [], ◌∷◌, length,
  get_elem?, arith,
}
use want.Common.Result.{ok, bind_ok}
use want.WantJob.Results.{JobResult, zero_result}
use want.WantDag.Nodes.{NodeInput, Node}
use want.WantDag.Builder.{InputsBefore, AcyclicFrom}
use want.WantDag.Exec.{
  Backend, resolve, update, entries, prepare_input, exec_node, serial_loop, serial_exec_all,
}

-- Two tables of results agree on the inputs of a node.
abbrev pub SameOn : (ℕ → JobResult) → (ℕ → JobResult) → List NodeInput → Type 0
SameOn f g [] = Unit
SameOn f g (i ∷ ins) = (f i.node ≡ g i.node) × SameOn f g ins

module _ {Ref : Type 0} (be : Backend Ref) where
  entries-same :
      (n : ℕ) (f g : ℕ → JobResult) (ins : List NodeInput)
      → SameOn f g ins
      → entries be n f ins ≡ entries be n g ins
  unfolding entries resolve
  entries-same n f g [] h = refl
  entries-same n f g (i ∷ ins) h = rw (h.0, entries-same n f g ins h.1)

  pub exec_node-same :
      (n : ℕ) (f g : ℕ → JobResult) (x : Node Ref)
      → SameOn f g x.inputs
      → exec_node be n f x ≡ exec_node be n g x
  unfolding exec_node prepare_input
  exec_node-same n f g x h = ground (arith, entries-same n f g x.inputs h)

  update_other : (f : ℕ → JobResult) (i j : ℕ) (r : JobResult) → i ≢ j → update f i r j ≡ f j
  unfolding update
  update_other f i j r h = ground arith

  update_self : (f : ℕ → JobResult) (i : ℕ) (r : JobResult) → update f i r i ≡ r
  unfolding update
  update_self f i r = ground arith

  -- The loop from `i` leaves the results before `i` alone.
  serial_before :
      (n i : ℕ) (f g : ℕ → JobResult) (xs : List (Node Ref)) (j : ℕ)
      → serial_loop be n i f xs ≡ ok g
      → j < i
      → g j ≡ f j
  unfolding serial_loop
  serial_before n i f g [] j h lt = let same : f ≡ g = cc in ap (λ k. k j) (sym same)
  serial_before n i f g (x ∷ xs) j h lt =
      let (r, e, k) = bind_ok _ (exec_node be n f x) h in
      serial_before n (suc i) (update f i r) g xs j k (omega arith)
      ∙ update_other f i j r (λ q. omega arith)

  SameOn-before :
      (i : ℕ) (f g : ℕ → JobResult) (ins : List NodeInput)
      → ((j : ℕ) → j < i → f j ≡ g j)
      → InputsBefore i ins
      → SameOn f g ins
  SameOn-before i f g [] same h = tt
  SameOn-before i f g (k ∷ ins) same h = (same k.node h.0, SameOn-before i f g ins same h.1)

  -- Each node from `i` on, run on the results that the loop ends with, gives its own result.
  pub serial_loop_lem :
      (n i : ℕ) (f g : ℕ → JobResult) (xs : List (Node Ref))
      → AcyclicFrom i xs
      → serial_loop be n i f xs ≡ ok g
      → (t : ℕ) (y : Node Ref) → get_elem? xs t ≡ some y
      → exec_node be n g y ≡ ok (g (i + t))
  unfolding serial_loop
  serial_loop_lem n i f g [] ac h t y at = cc
  serial_loop_lem n i f g (x ∷ xs) ac h zero y at =
      let (r, e, k) = bind_ok _ (exec_node be n f x) h in
      let same : x ≡ y = cc in
      let before = λ (j : ℕ) (lt : j < i).
        serial_before n (suc i) (update f i r) g xs j k (omega arith)
        ∙ update_other f i j r (λ q. omega arith) in
      let own = serial_before n (suc i) (update f i r) g xs i k (omega arith) ∙ update_self f i r in
      let run = exec_node-same n g f x (SameOn-before i g f x.inputs before ac.0) ∙ e in
      let here : exec_node be n g x ≡ ok (g i) = run ∙ ap ok (sym own) in
      subst (λ m. exec_node be n g y ≡ ok (g m)) (omega arith)
        (subst (λ z. exec_node be n g z ≡ ok (g i)) same here)
  serial_loop_lem n i f g (x ∷ xs) ac h (suc t) y at =
      let (r, e, k) = bind_ok _ (exec_node be n f x) h in
      let rest = serial_loop_lem n (suc i) (update f i r) g xs ac.1 k t y at in
      subst (λ m. exec_node be n g y ≡ ok (g m)) (omega arith) rest

  -- When `SerialExecAll` succeeds on a graph without forward references, running any of its nodes on
  -- the final results gives the result of that node.
  pub serial_exec_all_lem :
      (xs : List (Node Ref)) (g : ℕ → JobResult)
      → AcyclicFrom 0 xs
      → serial_exec_all be xs ≡ ok g
      → (t : ℕ) (y : Node Ref) → get_elem? xs t ≡ some y
      → exec_node be (length xs) g y ≡ ok (g t)
  unfolding serial_exec_all
  serial_exec_all_lem xs g ac h t y at =
      subst (λ m. exec_node be (length xs) g y ≡ ok (g m)) (omega arith)
        (serial_loop_lem (length xs) 0 (λ _. zero_result) g xs ac h t y at)
