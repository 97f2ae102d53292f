-- ===== src/WantDag/Builder.antt =====
-- `Builder` (dag.go). `sync` stands for `glfstasks.FastSync` into the builder's store: true when it
-- succeeds. Node ids are `uint32`.
use want.Common.{
  ℕ, suc, ◌+◌, ◌%◌, ◌^◌, ◌≤◌, ◌<◌, ◌≡◌, refl, if◌then◌else◌, leb, Bool, Option, none, some, List,
  [], ◌∷◌, ◌++◌, length, get_elem?, arith, if_both, Option-cases, inl, inr, subst, sym, ap, ◌∙◌,
  ◌⊎◌,
}
use want.Common.Text.{Str}
use want.Common.Result.{Result, ok, err}
use want.WantDag.Nodes.{NodeInput, Node}

pub data BuildError : Type 0 where
  sync_failed : BuildError
  cannot_reference : ℕ → ℕ → BuildError

-- `NodeID(x)`.
abbrev pub node_id : ℕ → ℕ
node_id x = x % 2 ^ 32

-- The first input that does not come before node `nid`.
unfoldable pub first_forward : ℕ → List NodeInput → Option ℕ
first_forward nid [] = none
first_forward nid (i ∷ ins) =
    let rest = first_forward nid ins in if leb nid i.node then some i.node else rest

pub record Builder (Ref : Type 0) : Type 0 where
  pub nodes : List (Node Ref)

module _ {Ref : Type 0} where
  unfoldable pub new_builder : Builder Ref
  new_builder = record { nodes = [] }

  -- `Fact`: the new id, or the error, and the builder.
  unfoldable pub fact : (Ref → Bool) → Builder Ref → Ref → Result BuildError ℕ × Builder Ref
  fact sync b x =
      if sync x
      then (
        ok (node_id (length b.nodes)),
        record b { nodes = b.nodes ++ record { value = some x; op = []; inputs = [] } ∷ [] },
      )
      else (err sync_failed, b)

  unfoldable pub derived : Builder Ref → Str → List NodeInput → Result BuildError ℕ × Builder Ref
  unfolding first_forward
  derived b op inputs =
      let nid = node_id (length b.nodes) in
      elim (first_forward nid inputs) [
        | some i ↦ (err (cannot_reference nid i), b)
        | none ↦ (
          ok nid,
          record b { nodes = b.nodes ++ record { value = none; op = op; inputs = inputs } ∷ [] },
        )
      ]

  unfoldable pub count : Builder Ref → ℕ
  count b = length b.nodes

  unfoldable pub finish : Builder Ref → List (Node Ref)
  finish b = b.nodes

-- All inputs come before `n`.
abbrev pub InputsBefore : ℕ → List NodeInput → Type 0
InputsBefore n [] = Unit
InputsBefore n (i ∷ ins) = (i.node < n) × InputsBefore n ins

-- The node at each index, counted from `n`, has inputs before it.
abbrev pub AcyclicFrom : {Ref : Type 0} → ℕ → List (Node Ref) → Type 0
AcyclicFrom n [] = Unit
AcyclicFrom n (x ∷ xs) = InputsBefore n x.inputs × AcyclicFrom (suc n) xs

first_forward-InputsBefore :
    (nid n : ℕ) (ins : List NodeInput) → nid ≤ n → first_forward nid ins ≡ none → InputsBefore n ins
unfolding first_forward
first_forward-InputsBefore nid n [] h e = tt
first_forward-InputsBefore nid n (i ∷ ins) h e =
    (ground arith, first_forward-InputsBefore nid n ins h (ground arith))

pub InputsBefore-first_forward :
    (n : ℕ) (ins : List NodeInput) → InputsBefore n ins → first_forward n ins ≡ none
unfolding first_forward
InputsBefore-first_forward n [] h = refl
InputsBefore-first_forward n (i ∷ ins) h = ground (arith, InputsBefore-first_forward n ins h.1)

InputsBefore-forward :
    (n : ℕ) (ins : List NodeInput) (i : ℕ) → first_forward n ins ≡ some i → ¬ InputsBefore n ins
unfolding first_forward
InputsBefore-forward n ins i e h = cc (InputsBefore-first_forward n ins h)

-- The calls of the builder, in an order that the caller chooses.
pub data Call (Ref : Type 0) : Type 0 where
  add_fact : Ref → Call Ref
  add_derived : Str → List NodeInput → Call Ref

module _ {Ref : Type 0} where
  AcyclicFrom-append :
      (n : ℕ) (xs : List (Node Ref)) (x : Node Ref)
      → AcyclicFrom n xs
      → InputsBefore (n + length xs) x.inputs
      → AcyclicFrom n (xs ++ x ∷ [])
  AcyclicFrom-append n [] x h k = (subst (λ m. InputsBefore m x.inputs) (omega arith) k, tt)
  AcyclicFrom-append n (y ∷ xs) x h k =
      let same : n + suc (length xs) ≡ suc n + length xs = omega arith in
      (h.0, AcyclicFrom-append (suc n) xs x h.1 (subst (λ m. InputsBefore m x.inputs) same k))

  pub get_elem?-last :
      (xs : List (Node Ref)) (x : Node Ref) → get_elem? (xs ++ x ∷ []) (length xs) ≡ some x
  get_elem?-last [] x = refl
  get_elem?-last (y ∷ xs) x = get_elem?-last xs x

  unfoldable pub call : (Ref → Bool) → Builder Ref → Call Ref → Builder Ref
  unfolding fact derived
  call sync b (add_fact x) = (fact sync b x).1
  call sync b (add_derived op ins) = (derived b op ins).1

  unfoldable pub build : (Ref → Bool) → Builder Ref → List (Call Ref) → Builder Ref
  unfolding call
  build sync b [] = b
  build sync b (c ∷ cs) = build sync (call sync b c) cs

  pub derived_ok :
      (b : Builder Ref) (op : Str) (ins : List NodeInput) (n : ℕ)
      → node_id (length b.nodes) ≡ n
      → first_forward n ins ≡ none
      → derived b op ins
        ≡ (ok n, record { nodes = b.nodes ++ record { value = none; op = op; inputs = ins } ∷ [] })
  unfolding derived
  derived_ok b op ins n same e = ground arith

  derived_err :
      (b : Builder Ref) (op : Str) (ins : List NodeInput) (n i : ℕ)
      → node_id (length b.nodes) ≡ n
      → first_forward n ins ≡ some i
      → derived b op ins ≡ (err (cannot_reference n i), b)
  unfolding derived
  derived_err b op ins n i same e = ground arith

  fact_eq :
      (sync : Ref → Bool) (b : Builder Ref) (x : Ref)
      → (fact sync b x).1.nodes ≡ (
          if sync x
          then b.nodes ++ record { value = some x; op = []; inputs = [] } ∷ []
          else b.nodes)
  unfolding fact
  fact_eq sync b x = ground arith

  fact-Acyclic :
      (sync : Ref → Bool) (b : Builder Ref) (x : Ref)
      → AcyclicFrom 0 b.nodes
      → AcyclicFrom 0 (fact sync b x).1.nodes
  fact-Acyclic sync b x h =
      let added : Node Ref = record { value = some x; op = []; inputs = [] } in
      subst (AcyclicFrom 0) (sym (fact_eq sync b x))
        (if_both (AcyclicFrom 0) (sync x) (AcyclicFrom-append 0 b.nodes added h tt) h)

  call-Acyclic :
      (sync : Ref → Bool) (b : Builder Ref) (c : Call Ref)
      → AcyclicFrom 0 b.nodes
      → AcyclicFrom 0 (call sync b c).nodes
  unfolding call
  call-Acyclic sync b (add_fact x) h = fact-Acyclic sync b x h
  call-Acyclic sync b (add_derived op ins) h =
      let nid = node_id (length b.nodes) in
      elim (Option-cases (first_forward nid ins)) [
        | inl e ↦
            subst (λ r. AcyclicFrom 0 r.1.nodes) (sym (derived_ok b op ins nid refl e))
              (AcyclicFrom-append 0 b.nodes _ h
                (first_forward-InputsBefore nid (0 + length b.nodes) ins (omega arith) e))
        | inr (i, e) ↦
            subst (λ r. AcyclicFrom 0 r.1.nodes) (sym (derived_err b op ins nid i refl e)) h
      ]

  build-Acyclic :
      (sync : Ref → Bool) (b : Builder Ref) (cs : List (Call Ref))
      → AcyclicFrom 0 b.nodes
      → AcyclicFrom 0 (build sync b cs).nodes
  unfolding build
  build-Acyclic sync b [] h = h
  build-Acyclic sync b (c ∷ cs) h = build-Acyclic sync (call sync b c) cs (call-Acyclic sync b c h)

  -- Whatever calls are made of a new builder, refused ones among them, every node of the graph that
  -- it finishes only has inputs at smaller indices; node ids that wrap do not change this.
  pub finish-Acyclic :
      (sync : Ref → Bool) (cs : List (Call Ref))
      → AcyclicFrom 0 (finish (build sync new_builder cs))
  unfolding finish new_builder
  finish-Acyclic sync cs = build-Acyclic sync new_builder cs tt

  -- `Derived` on a builder of fewer than 2^32 nodes: either all inputs come before the new node, and
  -- the new node stands under the id that is returned behind the nodes that were there; or some input
  -- does not, and the call fails and leaves the builder as it was.
  pub derived_lem :
      (b : Builder Ref) (op : Str) (ins : List NodeInput)
      → length b.nodes < 2 ^ 32
      → let n = length b.nodes in
        (InputsBefore n ins
          × ((derived b op ins).0 ≡ ok n)
          × (get_elem? (derived b op ins).1.nodes n
              ≡ some (record { value = none; op = op; inputs = ins })))
        ⊎ ((¬ InputsBefore n ins)
            × ((i : ℕ) × ((derived b op ins).0 ≡ err (cannot_reference n i)))
            × ((derived b op ins).1 ≡ b))
  unfolding derived
  derived_lem b op ins small =
      let n = length b.nodes in
      let same : node_id n ≡ n = omega arith in
      elim (Option-cases (first_forward n ins)) [
        | inl e ↦
            let made = derived_ok b op ins n same e in
            inl (
              first_forward-InputsBefore n n ins (omega arith) e,
              ap (λ r. r.0) made,
              ap (λ r. get_elem? r.1.nodes n) made ∙ get_elem?-last b.nodes _,
            )
        | inr (i, e) ↦
            let made = derived_err b op ins n i same e in
            inr (InputsBefore-forward n ins i e, (i, ap (λ r. r.0) made), ap (λ r. r.1) made)
      ]
