-- ===== src/WantDag/Wire.antt =====
-- nodelist_rw.go: the wire form of a node, in which inputs are offsets, its writer and its reader.
-- What JSON makes of the wire forms is in Json; `encodes` tells whether one could be written. Node ids and offsets are `uint32`.
use want.Common.{
  ℕ, suc, ◌+◌, ◌-◌, ◌^◌, ◌==◌, if◌then◌else◌, leb, Bool, false, Option, none, some, List, [], ◌∷◌,
}
use want.Common.Text.{Str}
use want.Common.Order.{str_lt}
use want.Common.Result.{Result, ok, err, ◌>>=◌}
use want.WantDag.Nodes.{NodeInput, Node}
use want.WantDag.Builder.{node_id}

pub record WireInput : Type 0 where
  pub to : Str
  pub from : ℕ

pub record WireNode (Ref : Type 0) : Type 0 where
  pub value : Option Ref
  pub op : Str
  pub inputs : List WireInput

pub data WriteError : Type 0 where
  zero_value dangling not_encoded : WriteError

pub data ReadError : Type 0 where
  zero_offset : Str → ReadError

-- The loop of `Add` over the inputs of node `nid`.
unfoldable pub offsets : ℕ → List NodeInput → Result WriteError (List WireInput)
offsets nid [] = ok []
offsets nid (i ∷ ins) =
    let rest = offsets nid ins in
    if leb nid i.node
    then err dangling
    else rest >>= λ ws. ok (record { to = i.name; from = nid - i.node } ∷ ws)

-- `slices.SortFunc` by name; equal names keep their order, which Go leaves open.
unfoldable pub insert_input : WireInput → List WireInput → List WireInput
unfolding str_lt
insert_input w [] = w ∷ []
insert_input w (v ∷ ws) = if str_lt v.to w.to then v ∷ insert_input w ws else w ∷ v ∷ ws

unfoldable pub sort_inputs : List WireInput → List WireInput
unfolding insert_input
sort_inputs [] = []
sort_inputs (w ∷ ws) = insert_input w (sort_inputs ws)

-- What one input of the node at `next` says: the subtraction of `uint32`.
unfoldable pub read_inputs : ℕ → List WireInput → Result ReadError (List NodeInput)
read_inputs next [] = ok []
read_inputs next (w ∷ ws) =
    let rest = read_inputs next ws in
    if w.from == 0
    then err (zero_offset w.to)
    else rest >>= λ ins.
        ok (record { name = w.to; node = node_id (next + 2 ^ 32 - node_id w.from) } ∷ ins)

unfoldable pub zero_value_test : {Ref : Type 0} → (Ref → Bool) → Option Ref → Bool
zero_value_test is_zero none = false
zero_value_test is_zero (some r) = is_zero r

module _ {Ref : Type 0} (is_zero : Ref → Bool) (encodes : WireNode Ref → Bool) where
  -- `Add` of a writer that has written `count` nodes: the id, and the wire form.
  unfoldable pub write_node : ℕ → Node Ref → Result WriteError (ℕ × WireNode Ref)
  unfolding zero_value_test offsets sort_inputs
  write_node count x =
      if zero_value_test is_zero x.value
      then err zero_value
      else offsets (node_id count) x.inputs >>= λ ws.
          let w : WireNode Ref = record { value = x.value; op = x.op; inputs = sort_inputs ws } in
          if encodes w then ok (node_id count, w) else err not_encoded

  -- The loop of `PostDAG` over the nodes; the count of a writer that succeeds rises by one.
  unfoldable pub write_all : ℕ → List (Node Ref) → Result WriteError (List (WireNode Ref))
  unfolding write_node
  write_all count [] = ok []
  write_all count (x ∷ xs) =
      let rest = write_all (suc count) xs in
      write_node count x >>= λ r. rest >>= λ ws. ok (r.1 ∷ ws)

module _ {Ref : Type 0} where
  -- `Next` of a reader at node `next`.
  unfoldable pub read_node : ℕ → WireNode Ref → Result ReadError (Node Ref)
  unfolding read_inputs
  read_node next w =
      read_inputs next w.inputs >>= λ ins. ok (record { value = w.value; op = w.op; inputs = ins })

  -- `streams.Collect` of the reader; `nextNode` is a `uint32`.
  unfoldable pub read_all : ℕ → List (WireNode Ref) → Result ReadError (List (Node Ref))
  unfolding read_node
  read_all next [] = ok []
  read_all next (w ∷ ws) =
      let rest = read_all (node_id (suc next)) ws in
      read_node next w >>= λ x. rest >>= λ xs. ok (x ∷ xs)
