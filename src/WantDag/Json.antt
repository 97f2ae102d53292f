-- ===== src/WantDag/Json.antt =====
-- nodelist_rw.go: the nodes as lines of JSON, with `MarshalJSON` and `UnmarshalJSON` of an input, and a graph written
-- and read back. The package encoding/json is the record `Json`; `Line` is what its encoder writes for a node.
use mathlib.Core.Path.{ap₂}
use want.Common.Order.{str_lt}
use want.Common.{
  ℕ, ◌-◌, leb, Bool-cases, inl, inr, suc, ◌+◌, ◌^◌, ◌≤◌, ◌<◌, ◌≡◌, refl, ap, ◌∙◌, subst, Bool, true,
  Option, none, some, List, [], ◌∷◌, ◌++◌, map, length, arith,
}
use want.Common.Text.{Str, bytes}
use want.Common.Decimal.{decimal}
use want.Common.Result.{Result, ok, err, ◌>>=◌, bind_ok, ok_inj}
use want.WantDag.Nodes.{Node, NodeInput}
use want.WantDag.Builder.{node_id, AcyclicFrom}
use want.WantDag.Wire.{
  WireInput, WireNode, WriteError, ReadError, offsets, insert_input, sort_inputs, zero_value_test,
  write_node, write_all, read_node, read_all,
}
use want.WantDag.RoundTrip.{AllRise, NoneZero, read-write_all}

pub record Json (Ref Line : Type 0) : Type 0 where
  -- `json.Marshal` and `json.Unmarshal` of a string, `json.Unmarshal` of a `uint32` and of two raw values.
  pub marshal_string : Str → Str
  pub unmarshal_string : Str → Option Str
  pub unmarshal_uint32 : Str → Option ℕ
  pub unmarshal_pair : Str → Option (Str × Str)
  -- `Encode` and `Decode` of `nodeODF`, with the inputs as raw JSON, which the encoder compacts.
  pub encode_node : Option Ref → Str → List Str → Line
  pub decode_node : Line → Option (Option Ref × Str × List Str)
  pub compact : Str → Str

-- What `MarshalJSON` puts together of the JSON of the name and the digits of the offset.
abbrev pub pair_text : Str → Str → Str
pair_text p d = bytes "[" ++ (p ++ (bytes ", " ++ (d ++ bytes "]")))

-- The names of wire inputs are valid, and their offsets are below 2^32.
abbrev pub WireInputs : (Str → Type 0) → List WireInput → Type 0
WireInputs Valid [] = Unit
WireInputs Valid (w ∷ ws) = Valid w.to × (w.from < 2 ^ 32) × WireInputs Valid ws

-- What the package documents, for strings that are valid UTF-8: `Valid`.
pub record IsJson {Ref Line : Type 0} (js : Json Ref Line) (Valid : Str → Type 0) : Type 0 where
  pub string_back : (s : Str) → Valid s → js.unmarshal_string (js.marshal_string s) ≡ some s
  pub uint32_back : (n : ℕ) → n < 2 ^ 32 → js.unmarshal_uint32 (decimal n) ≡ some n
  pub pair_back :
      (s : Str) (n : ℕ)
      → Valid s
      → js.unmarshal_pair (js.compact (pair_text (js.marshal_string s) (decimal n)))
        ≡ some (js.marshal_string s, decimal n)
  pub node_back :
      (v : Option Ref) (op : Str) (ws : List WireInput)
      → Valid op
      → WireInputs Valid ws
      → let raws = map (λ w. pair_text (js.marshal_string w.to) (decimal w.from)) ws in
        js.decode_node (js.encode_node v op raws) ≡ some (v, op, map js.compact raws)

pub data LineError : Type 0 where
  bad_json : LineError
  bad_node : ReadError → LineError

-- The names of a list of inputs are valid.
abbrev pub ValidNames : (Str → Type 0) → List NodeInput → Type 0
ValidNames Valid [] = Unit
ValidNames Valid (i ∷ ins) = Valid i.name × ValidNames Valid ins

-- The operations and the names of a graph's inputs are valid.
abbrev pub AllValid : {Ref : Type 0} → (Str → Type 0) → List (Node Ref) → Type 0
AllValid Valid [] = Unit
AllValid Valid (x ∷ xs) = Valid x.op × ValidNames Valid x.inputs × AllValid Valid xs

module _ {Ref Line : Type 0} (js : Json Ref Line) where
  -- `MarshalJSON`.
  unfoldable pub marshal_input : WireInput → Str
  marshal_input w = pair_text (js.marshal_string w.to) (decimal w.from)

  abbrev pub made_input : Option Str → Option ℕ → Option WireInput
  made_input (some to) (some n) = some (record { to = to; from = n })
  made_input (some to) none = none
  made_input none n = none

  abbrev pub input_of : Option (Str × Str) → Option WireInput
  input_of none = none
  input_of (some (p, d)) = made_input (js.unmarshal_string p) (js.unmarshal_uint32 d)

  -- `UnmarshalJSON`.
  unfoldable pub unmarshal_input : Str → Option WireInput
  unmarshal_input x = input_of (js.unmarshal_pair x)

  abbrev pub put_input : Option WireInput → Option (List WireInput) → Option (List WireInput)
  put_input (some w) (some ws) = some (w ∷ ws)
  put_input (some w) none = none
  put_input none ws = none

  unfoldable pub unmarshal_inputs : List Str → Option (List WireInput)
  unfolding unmarshal_input
  unmarshal_inputs [] = some []
  unmarshal_inputs (x ∷ xs) = put_input (unmarshal_input x) (unmarshal_inputs xs)

  -- `Encode` of a node.
  unfoldable pub encode_line : WireNode Ref → Line
  unfolding marshal_input
  encode_line w = js.encode_node w.value w.op (map marshal_input w.inputs)

  abbrev pub wire_with : Option Ref → Str → Option (List WireInput) → Option (WireNode Ref)
  wire_with v op none = none
  wire_with v op (some ws) = some (record { value = v; op = op; inputs = ws })

  abbrev pub wire_of : Option (Option Ref × Str × List Str) → Option (WireNode Ref)
  wire_of none = none
  wire_of (some (v, op, raws)) = wire_with v op (unmarshal_inputs raws)

  -- `Decode` of a node.
  unfoldable pub decode_line : Line → Option (WireNode Ref)
  unfolding unmarshal_inputs
  decode_line l = wire_of (js.decode_node l)

  -- The writer over all nodes; `takes` tells whether the underlying writer takes a line.
  unfoldable pub write_lines :
      (Ref → Bool) → (Line → Bool) → ℕ → List (Node Ref) → Result WriteError (List Line)
  unfolding write_all encode_line
  write_lines is_zero takes n xs =
      write_all is_zero (λ w. takes (encode_line w)) n xs >>= λ ws. ok (map encode_line ws)

  abbrev pub with_line : Result ReadError (Node Ref) → Result LineError (Node Ref)
  with_line (err e) = err (bad_node e)
  with_line (ok x) = ok x

  abbrev pub line_node : ℕ → Option (WireNode Ref) → Result LineError (Node Ref)
  line_node n none = err bad_json
  line_node n (some w) = with_line (read_node n w)

  -- The reader over all lines, from node `n` on.
  unfoldable pub read_lines : ℕ → List Line → Result LineError (List (Node Ref))
  unfolding decode_line read_node
  read_lines n [] = ok []
  read_lines n (l ∷ ls) =
      let rest = read_lines (node_id (suc n)) ls in
      line_node n (decode_line l) >>= λ x. rest >>= λ xs. ok (x ∷ xs)

  module _ (Valid : Str → Type 0) (is_json : IsJson js Valid) where
    abbrev WireNodes : List (WireNode Ref) → Type 0
    WireNodes [] = Unit
    WireNodes (w ∷ ws) = Valid w.op × WireInputs Valid w.inputs × WireNodes ws

    input_back :
        (w : WireInput)
        → Valid w.to
        → w.from < 2 ^ 32
        → unmarshal_input (js.compact (marshal_input w)) ≡ some w
    unfolding unmarshal_input marshal_input
    input_back w v h =
        ap input_of (is_json.pair_back w.to w.from v)
        ∙ ap (λ o. made_input o (js.unmarshal_uint32 (decimal w.from))) (is_json.string_back w.to v)
        ∙ ap (made_input (some w.to)) (is_json.uint32_back w.from h)

    inputs_back :
        (ws : List WireInput)
        → WireInputs Valid ws
        → unmarshal_inputs (map js.compact (map marshal_input ws)) ≡ some ws
    unfolding unmarshal_inputs
    inputs_back [] h = refl
    inputs_back (w ∷ ws) h = ap₂ put_input (input_back w h.0 h.1) (inputs_back ws h.2)

    line_back :
        (w : WireNode Ref)
        → Valid w.op
        → WireInputs Valid w.inputs
        → decode_line (encode_line w) ≡ some w
    unfolding decode_line encode_line marshal_input
    line_back w v h =
        ap wire_of (is_json.node_back w.value w.op w.inputs v h)
        ∙ ap (wire_with w.value w.op) (inputs_back w.inputs h)

    read_lines-encoded :
        (n : ℕ) (ws : List (WireNode Ref)) (xs : List (Node Ref))
        → WireNodes ws
        → read_all n ws ≡ ok xs
        → read_lines n (map encode_line ws) ≡ ok xs
    unfolding read_lines read_all
    read_lines-encoded n [] xs h e = ap ok (ok_inj e)
    read_lines-encoded n (w ∷ ws) xs h e =
        let (x, a, more) = bind_ok _ (read_node n w) e in
        let (ys, b, all) = bind_ok _ (read_all (node_id (suc n)) ws) more in
        let here : line_node n (decode_line (encode_line w)) ≡ ok x =
          ap (line_node n) (line_back w h.0 h.1) ∙ ap with_line a in
        let rest = read_lines-encoded (node_id (suc n)) ws ys h.2 b in
        rw (here, rest) (ap ok (ok_inj all))

    offsets-Wire :
        (nid : ℕ) (ins : List NodeInput) (ws : List WireInput)
        → nid < 2 ^ 32
        → ValidNames Valid ins
        → offsets nid ins ≡ ok ws
        → WireInputs Valid ws
    unfolding offsets
    offsets-Wire nid [] ws h v e = subst (WireInputs Valid) (ok_inj e) tt
    offsets-Wire nid (i ∷ ins) ws h v e = elim (Bool-cases (leb nid i.node)) [
      | inl q ↦ absurd (ground (arith, e, q))
      | inr q ↦
          let more : (offsets nid ins >>= λ vs.
          ok (record { to = i.name; from = nid - i.node } ∷ vs))
              ≡ ok ws =
            rw q at e in
          let (vs, a, b) = bind_ok _ (offsets nid ins) more in
          subst (WireInputs Valid) (ok_inj b)
            (v.0, omega (arith, h), offsets-Wire nid ins vs h v.1 a)
    ]

    insert_input-Wire :
        (w : WireInput) (ws : List WireInput)
        → Valid w.to
        → w.from < 2 ^ 32
        → WireInputs Valid ws
        → WireInputs Valid (insert_input w ws)
    unfolding insert_input
    insert_input-Wire w [] v h g = (v, h, tt)
    insert_input-Wire w (u ∷ ws) v h g = elim (Bool-cases (str_lt u.to w.to)) [
      | inl q ↦ rw q (g.0, g.1, insert_input-Wire w ws v h g.2)
      | inr q ↦ rw q (v, h, g)
    ]

    sort_inputs-Wire :
        (ws : List WireInput) → WireInputs Valid ws → WireInputs Valid (sort_inputs ws)
    unfolding sort_inputs
    sort_inputs-Wire [] g = tt
    sort_inputs-Wire (w ∷ ws) g =
        insert_input-Wire w (sort_inputs ws) g.0 g.1 (sort_inputs-Wire ws g.2)

    write_node-Wire :
        (is_zero : Ref → Bool) (encodes : WireNode Ref → Bool) (n : ℕ) (x : Node Ref)
        (r : ℕ × WireNode Ref)
        → Valid x.op
        → ValidNames Valid x.inputs
        → write_node is_zero encodes n x ≡ ok r
        → Valid (r.1.op) × WireInputs Valid (r.1.inputs)
    unfolding write_node
    write_node-Wire is_zero encodes n x r v names e =
        elim (Bool-cases (zero_value_test is_zero x.value)) [
          | inl q ↦ absurd (ground (arith, e, q))
          | inr q ↦
              let made = bind_ok _ (offsets (node_id n) x.inputs) (rw q at e) in
              let ws = made.0 in
              let w : WireNode Ref = record {
                value = x.value;
                op = x.op;
                inputs = sort_inputs ws;
              } in
              let good =
                sort_inputs-Wire ws
                  (offsets-Wire (node_id n) x.inputs ws (omega arith) names made.1) in
              elim (Bool-cases (encodes w)) [
                | inr z ↦ absurd (ground (arith, made.2, z))
                | inl z ↦
                    let last : ◌≡◌ {A = Result WriteError (ℕ × WireNode Ref)} (ok (node_id n, w))
                        (ok r) =
                      rw z at made.2 in
                    subst (λ p. Valid (p.1.op) × WireInputs Valid (p.1.inputs)) (ok_inj last)
                      (v, good)
              ]
        ]

    write_all-Wire :
        (is_zero : Ref → Bool) (encodes : WireNode Ref → Bool) (n : ℕ) (xs : List (Node Ref))
        (ws : List (WireNode Ref))
        → AllValid Valid xs
        → write_all is_zero encodes n xs ≡ ok ws
        → WireNodes ws
    unfolding write_all
    write_all-Wire is_zero encodes n [] ws v e = subst WireNodes (ok_inj e) tt
    write_all-Wire is_zero encodes n (x ∷ xs) ws v e =
        let (r, a, more) = bind_ok _ (write_node is_zero encodes n x) e in
        let (vs, b, all) = bind_ok _ (write_all is_zero encodes (suc n) xs) more in
        let first = write_node-Wire is_zero encodes n x r v.0 v.1 a in
        subst WireNodes (ok_inj all)
          (first.0, first.1, write_all-Wire is_zero encodes (suc n) xs vs v.2 b)

    -- A graph with no forward references, with rising input names and no zero references, of which the
    -- ids fit a `uint32` and the operations and input names are valid UTF-8, is written as lines of JSON
    -- to a writer that takes them all, and read back it is the same graph: node for node and input for
    -- input. The package encoding/json gives back what it was given, for valid UTF-8.
    pub read-write_lines :
        (is_zero : Ref → Bool) (takes : Line → Bool) (n : ℕ) (xs : List (Node Ref))
        → n + length xs ≤ 2 ^ 32
        → AcyclicFrom n xs
        → AllRise xs
        → NoneZero is_zero xs
        → AllValid Valid xs
        → ((l : Line) → takes l ≡ true)
        → (ls : List Line) × (write_lines is_zero takes n xs ≡ ok ls)
          × (read_lines (node_id n) ls ≡ ok xs)
    unfolding write_lines
    read-write_lines is_zero takes n xs fits before rise nonzero valid total =
        let encodes : WireNode Ref → Bool = λ w. takes (encode_line w) in
        let (ws, written, back) =
          read-write_all is_zero encodes n xs fits before rise nonzero
            (λ w. total (encode_line w)) in
        (
          map encode_line ws,
          rw written refl,
          read_lines-encoded (node_id n) ws xs
              (write_all-Wire is_zero encodes n xs ws valid written) back,
        )
