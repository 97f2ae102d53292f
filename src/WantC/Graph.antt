-- ===== src/WantC/Graph.antt =====
-- graph.go and graph_glfs.go: the graph builder. `post_blob` stands for `glfs.PostBlob`, `clean` for
-- `glfs.CleanPath` and `sync` for `glfstasks.FastSync` into the builder's store.
use want.Common.{
  ℕ, zero, suc, ◌+◌, ◌/◌, ◌%◌, if◌then◌else◌, ltb, leb, Bool, bnot, Option, none, some, List, [],
  ◌∷◌, ◌++◌, length, take, drop,
}
use want.Common.Text.{Str, bytes, str_eq}
use want.Common.Hex.{hex_padded}
use want.Common.Outcome.{Outcome, out_of_fuel, panic, done}
use want.Common.Result.{Result, ok, err}
use want.WantDag.Nodes.{NodeInput}
use want.WantDag.Builder.{Builder, BuildError, new_builder, fact, derived}
use want.WantC.Exprs.{Expr, Inputs, compute, selection, value, no_inputs, input, key}

pub data GraphError : Type 0 where
  build_error : BuildError → GraphError
  post_failed : GraphError

-- `GraphBuilder`; the index is a map from keys to nodes.
pub record GraphBuilder (Ref : Type 0) : Type 0 where
  pub index : List (Str × ℕ)
  pub b : Builder Ref

-- `NewGraphBuilder`.
unfoldable pub new_graph_builder : {Ref : Type 0} → GraphBuilder Ref
unfolding new_builder
new_graph_builder = record { index = []; b = new_builder }

abbrev pub find_node : Str → List (Str × ℕ) → Option ℕ
find_node k [] = none
find_node k ((j, n) ∷ ix) = if str_eq j k then some n else find_node k ix

-- `MaxNodeInputs` of wantdag.
abbrev pub max_node_inputs : ℕ
max_node_inputs = 64

-- `DeriveMerge`, the inputs from number `i` on.
unfoldable pub named_layers : ℕ → List ℕ → List NodeInput
unfolding hex_padded
named_layers i [] = []
named_layers i (n ∷ ns) = record { name = hex_padded 2 i; node = n } ∷ named_layers (suc i) ns

unfoldable pub batch_size : ℕ → ℕ
batch_size n = if ltb 0 (n % max_node_inputs) then n / max_node_inputs + 1 else n / max_node_inputs

-- What a call on a graph builder ends with, and the call.
abbrev pub Run : Type 0 → Type 0 → Type 0
Run Ref A = Outcome (Result GraphError A × GraphBuilder Ref)

abbrev pub Gb : Type 0 → Type 0 → Type 0
Gb Ref A = GraphBuilder Ref → Run Ref A

module _ {Ref : Type 0} where
  abbrev pub next : {A B : Type 0} → Run Ref A → (A → Gb Ref B) → Run Ref B
  next out_of_fuel f = out_of_fuel
  next panic f = panic
  next (done (ok x, g)) f = f x g
  next (done (err e, g)) f = done (err e, g)

  infixl 5 ◌>>=◌
  abbrev pub ◌>>=◌ : {A B : Type 0} → Gb Ref A → (A → Gb Ref B) → Gb Ref B
  ◌>>=◌ m f g = next (m g) f

  abbrev pub give : {A : Type 0} → A → Gb Ref A
  give x g = done (ok x, g)

  abbrev pub built : GraphBuilder Ref → Result BuildError ℕ × Builder Ref → Run Ref ℕ
  built g (ok n, b) = done (ok n, record g { b = b })
  built g (err e, b) = done (err (build_error e), record g { b = b })

  -- `GraphBuilder.Derived`.
  unfoldable pub graph_derived : Str → List NodeInput → Gb Ref ℕ
  unfolding derived
  graph_derived op ins g = built g (derived g.b op ins)

  -- `mustDerived`, which panics where `Derived` has an error.
  abbrev pub must : Run Ref ℕ → Run Ref ℕ
  must (done (ok n, g)) = done (ok n, g)
  must (done (err e, g)) = panic
  must out_of_fuel = out_of_fuel
  must panic = panic

  unfoldable pub must_derived : Str → Str → List NodeInput → Gb Ref ℕ
  unfolding graph_derived
  must_derived prefix op ins g = must (graph_derived (prefix ++ bytes "." ++ op) ins g)

  -- `DeriveMerge`.
  unfoldable pub derive_merge : List ℕ → Gb Ref ℕ
  unfolding named_layers must_derived
  derive_merge layers g =
      if ltb max_node_inputs (length layers)
      then panic
      else must_derived (bytes "glfs") (bytes "merge") (named_layers 0 layers) g

  -- `DerivePlace`.
  unfoldable pub derive_place : ℕ → ℕ → Gb Ref ℕ
  unfolding must_derived
  derive_place x path =
      must_derived (bytes "glfs") (bytes "place")
        (record { name = bytes "x"; node = x } ∷ record { name = bytes "path"; node = path } ∷ [])

  -- The loop of `mergeLayers` over the batches that are left, on fuel for their number.
  unfoldable pub merge_batches : (List ℕ → Gb Ref ℕ) → ℕ → ℕ → List ℕ → Gb Ref (List ℕ)
  merge_batches rec k size [] = give []
  merge_batches rec zero size (x ∷ xs) = λ g. out_of_fuel
  merge_batches rec (suc k) size (x ∷ xs) = rec (take size (x ∷ xs)) >>= λ n.
      merge_batches rec k size (drop size (x ∷ xs)) >>= λ ns. give (n ∷ ns)

  -- `mergeLayers`, on fuel for the depth of the recursion.
  unfoldable pub merge_layers : ℕ → List ℕ → Gb Ref ℕ
  unfolding derive_merge batch_size merge_batches
  merge_layers zero xs = λ g. out_of_fuel
  merge_layers (suc f) xs =
      let rest =
        merge_batches (merge_layers f) (length xs) (batch_size (length xs)) xs >>= derive_merge in
      λ g. if leb (length xs) max_node_inputs then derive_merge xs g else rest g

  -- `computeInput`, after its loop.
  unfoldable pub node_inputs : List ℕ → Gb Ref (List NodeInput)
  unfolding merge_layers
  node_inputs [] = give []
  node_inputs (n ∷ []) = give (record { name = []; node = n } ∷ [])
  node_inputs (n ∷ m ∷ ns) = merge_layers (suc (length (n ∷ m ∷ ns))) (n ∷ m ∷ ns) >>= λ l.
      give (record { name = []; node = l } ∷ [])

  -- `GraphBuilder.Fact`.
  unfoldable pub graph_fact : (Ref → Bool) → Ref → Gb Ref ℕ
  unfolding fact
  graph_fact sync r g = built g (fact sync g.b r)

  -- `blob`.
  unfoldable pub blob : (Ref → Bool) → (Str → Option Ref) → Str → Gb Ref ℕ
  unfolding graph_fact
  blob sync post_blob x g = elim (post_blob x) [
    | none ↦ done (err post_failed, g)
    | some r ↦ graph_fact sync r g
  ]

  -- `place`.
  unfoldable pub place : (Ref → Bool) → (Str → Option Ref) → (Str → Str) → Str → ℕ → Gb Ref ℕ
  unfolding str_eq blob derive_place
  place sync post_blob clean to from g =
      let p = clean to in
      if bnot (str_eq p [])
      then (blob sync post_blob p >>= λ path. derive_place from path) g
      else give from g

  abbrev pub store_node : Str → Run Ref ℕ → Run Ref ℕ
  store_node k (done (ok n, g)) = done (ok n, record g { index = (k, n) ∷ g.index })
  store_node k (done (err e, g)) = done (err e, g)
  store_node k out_of_fuel = out_of_fuel
  store_node k panic = panic

  abbrev pub reuse : Str → Option ℕ → Gb Ref ℕ → Gb Ref ℕ
  reuse k (some n) make g = done (ok n, g)
  reuse k none make g = store_node k (make g)

  -- The index in front of the switch of `expr`, and behind it.
  abbrev pub indexed : Outcome Str → Gb Ref ℕ → Gb Ref ℕ
  indexed out_of_fuel make g = out_of_fuel
  indexed panic make g = panic
  indexed (done k) make g = reuse k (find_node k g.index) make g

  module _ (cid : Ref → Str) (hash : Str → Str) (sync : Ref → Bool) (post_blob : Str → Option Ref)
      (clean : Str → Str) where
    unfoldable mutual
      unfolding key graph_fact node_inputs graph_derived place

      -- `expr`.
      pub expr : Expr Ref → Gb Ref ℕ
      expr (value r) = indexed (key cid hash (value r)) (graph_fact sync r)
      expr (selection m d s) = indexed (key cid hash (selection m d s)) (λ g. panic)
      expr (compute op ins) =
          indexed (key cid hash (compute op ins))
            (input_nodes ins >>= λ ns. node_inputs ns >>= λ nis. graph_derived op nis)

      -- The loop of `computeInput`.
      pub input_nodes : Inputs Ref → Gb Ref (List ℕ)
      input_nodes no_inputs = give []
      input_nodes (input to from mode ins) = expr from >>= λ n.
          place sync post_blob clean to n >>= λ m. input_nodes ins >>= λ ms. give (m ∷ ms)
