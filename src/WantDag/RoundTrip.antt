-- ===== src/WantDag/RoundTrip.antt =====
-- Writing a graph and reading it back; what the reader lets through.
use want.Common.{
  ℕ, suc, ◌+◌, ◌-◌, ◌^◌, ◌≤◌, ◌<◌, ◌≡◌, refl, ap, ◌∙◌, Bool, true, false, List, [], ◌∷◌, map,
  length, arith, inl, inr,
}
use want.Common.Text.{Str}
use want.Common.Order.{str_lt-asymm}
use want.Common.Result.{ok, bind_ok, Result-cases}
use want.WantDag.Nodes.{NodeInput, Node}
use want.WantDag.Inputs.{AllAbove, NamesRise}
use want.WantDag.Builder.{node_id, InputsBefore, AcyclicFrom}
use want.WantDag.Wire.{
  WireInput, WireNode, offsets, insert_input, sort_inputs, read_inputs, zero_value_test, write_node,
  write_all, read_node, read_all,
}

abbrev to_wire : ℕ → NodeInput → WireInput
to_wire nid i = record { to = i.name; from = nid - i.node }

offsets_ok :
    (nid : ℕ) (ins : List NodeInput)
    → InputsBefore nid ins
    → offsets nid ins ≡ ok (map (to_wire nid) ins)
unfolding offsets
offsets_ok nid [] h = refl
offsets_ok nid (i ∷ ins) h = ground (arith, offsets_ok nid ins h.1)

offsets-InputsBefore :
    (nid : ℕ) (ins : List NodeInput) (ws : List WireInput)
    → offsets nid ins ≡ ok ws
    → InputsBefore nid ins
unfolding offsets
offsets-InputsBefore nid [] ws h = tt
offsets-InputsBefore nid (i ∷ ins) ws h = elim (Result-cases (offsets nid ins)) [
  | inl (vs, e) ↦ (ground arith, offsets-InputsBefore nid ins vs e)
  | inr (x, e) ↦ absurd (ground arith)
]

insert_first :
    (nid : ℕ) (i : NodeInput) (ins : List NodeInput)
    → AllAbove i.name ins
    → insert_input (to_wire nid i) (map (to_wire nid) ins) ≡ to_wire nid i ∷ map (to_wire nid) ins
unfolding insert_input
insert_first nid i [] h = refl
insert_first nid i (j ∷ ins) h = ground (arith, str_lt-asymm i.name j.name h.0)

sort_same :
    (nid : ℕ) (ins : List NodeInput)
    → NamesRise ins
    → sort_inputs (map (to_wire nid) ins) ≡ map (to_wire nid) ins
unfolding sort_inputs
sort_same nid [] h = refl
sort_same nid (i ∷ ins) h =
    ap (insert_input (to_wire nid i)) (sort_same nid ins h.1) ∙ insert_first nid i ins h.0

read_back :
    (nid : ℕ) (ins : List NodeInput)
    → nid < 2 ^ 32
    → InputsBefore nid ins
    → read_inputs nid (map (to_wire nid) ins) ≡ ok ins
unfolding read_inputs
read_back nid [] small h = refl
read_back nid (i ∷ ins) small h = ground (arith, read_back nid ins small h.1)

-- The nodes have rising input names.
abbrev pub AllRise : {Ref : Type 0} → List (Node Ref) → Type 0
AllRise [] = Unit
AllRise (x ∷ xs) = NamesRise x.inputs × AllRise xs

-- No fact has the zero reference.
abbrev pub NoneZero : {Ref : Type 0} → (Ref → Bool) → List (Node Ref) → Type 0
NoneZero is_zero [] = Unit
NoneZero is_zero (x ∷ xs) = (zero_value_test is_zero x.value ≡ false) × NoneZero is_zero xs

module _ {Ref : Type 0} (is_zero : Ref → Bool) (encodes : WireNode Ref → Bool) where
  -- The wire form of node `nid`.
  abbrev wire : ℕ → Node Ref → WireNode Ref
  wire nid x = record { value = x.value; op = x.op; inputs = map (to_wire nid) x.inputs }

  write_node_ok :
      (n : ℕ) (x : Node Ref)
      → n < 2 ^ 32
      → InputsBefore n x.inputs
      → NamesRise x.inputs
      → zero_value_test is_zero x.value ≡ false
      → ((w : WireNode Ref) → encodes w ≡ true)
      → write_node is_zero encodes n x ≡ ok (n, wire n x)
  unfolding write_node
  write_node_ok n x small before rise nonzero total =
      let same : node_id n ≡ n = omega arith in
      ground (
        arith,
        same,
        ap (λ k. offsets k x.inputs) same,
        offsets_ok n x.inputs before,
        sort_same n x.inputs rise,
        total (wire n x),
      )

  read_node_ok :
      (n : ℕ) (x : Node Ref) → n < 2 ^ 32 → InputsBefore n x.inputs → read_node n (wire n x) ≡ ok x
  unfolding read_node
  read_node_ok n x small before = ground (arith, read_back n x.inputs small before)

  -- A graph with no forward references, with rising input names and no zero references, of which the
  -- ids fit a `uint32`, is turned into wire forms where all of them can be written, and the reader
  -- makes the same graph of these: node for node and input for input.
  pub read-write_all :
      (n : ℕ) (xs : List (Node Ref))
      → n + length xs ≤ 2 ^ 32
      → AcyclicFrom n xs
      → AllRise xs
      → NoneZero is_zero xs
      → ((w : WireNode Ref) → encodes w ≡ true)
      → (ws : List (WireNode Ref)) × (write_all is_zero encodes n xs ≡ ok ws)
        × (read_all (node_id n) ws ≡ ok xs)
  unfolding write_all read_all
  read-write_all n [] fits before rise nonzero total = ([], refl, refl)
  read-write_all n (x ∷ xs) fits before rise nonzero total =
      let (ws, written, back) =
        read-write_all (suc n) xs (omega arith) before.1 rise.1 nonzero.1 total in
      let first = write_node_ok n x (omega arith) before.0 rise.0 nonzero.0 total in
      let again = read_node_ok n x (omega arith) before.0 in
      let same : node_id n ≡ n = omega arith in
      (
        wire n x ∷ ws,
        rw (first, written),
        ground (
          arith,
          ap (λ k. read_node k (wire n x)) same,
          ap (λ k. read_all (node_id (suc k)) ws) same,
          again,
          back,
        ),
      )

  InputsBefore-mono :
      (m n : ℕ) (ins : List NodeInput) → m ≤ n → InputsBefore m ins → InputsBefore n ins
  InputsBefore-mono m n [] h b = tt
  InputsBefore-mono m n (i ∷ ins) h b = (omega arith, InputsBefore-mono m n ins h b.1)

  write_node-before :
      (n : ℕ) (x : Node Ref) (r : ℕ × WireNode Ref)
      → write_node is_zero encodes n x ≡ ok r
      → InputsBefore n x.inputs
  unfolding write_node
  write_node-before n x r h = elim (Result-cases (offsets (node_id n) x.inputs)) [
    | inl (vs, e) ↦
        InputsBefore-mono (node_id n) n x.inputs (omega arith)
          (offsets-InputsBefore (node_id n) x.inputs vs e)
    | inr (y, e) ↦ absurd (ground arith)
  ]

  -- What the writer accepts has no forward reference.
  pub write_all-Acyclic :
      (n : ℕ) (xs : List (Node Ref)) (ws : List (WireNode Ref))
      → write_all is_zero encodes n xs ≡ ok ws
      → AcyclicFrom n xs
  unfolding write_all
  write_all-Acyclic n [] ws h = tt
  write_all-Acyclic n (x ∷ xs) ws h =
      let (r, e, k) = bind_ok _ (write_node is_zero encodes n x) h in
      let (vs, e', _) = bind_ok _ (write_all is_zero encodes (suc n) xs) k in
      (write_node-before n x r e, write_all-Acyclic (suc n) xs vs e')

-- The reader does not compare an offset with the index of the node: an offset beyond the first node
-- wraps around, and is read as a reference to a node after this one.
pub read_forward :
    (next offset : ℕ) (to : Str)
    → next < offset
    → offset < 2 ^ 32
    → (i : NodeInput) × (read_inputs next (record { to = to; from = offset } ∷ []) ≡ ok (i ∷ []))
      × (next < i.node)
unfolding read_inputs
read_forward next offset to h small = (
  record { name = to; node = node_id (next + 2 ^ 32 - node_id offset) },
  ground arith,
  omega arith,
)
