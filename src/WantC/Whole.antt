-- ===== src/WantC/Whole.antt =====
-- `expr` and `Expr` (graph.go) as a whole, on a new graph builder.
use want.Common.{ℕ, suc, ◌+◌, ◌*◌, ◌^◌, ◌≤◌, ◌<◌, ◌≡◌, refl, List, length, arith}
use want.Common.Text.{Str}
use want.Common.Outcome.{done, out_of_fuel, panic}
use want.Common.Result.{ok, err}
use want.WantDag.Nodes.{NodeInput}
use want.WantC.Exprs.{Expr, Inputs, compute, selection, value, no_inputs, input, count_inputs}
use want.WantC.Keys.{Plain, PlainInputs}
use want.WantC.Graph.{
  GraphBuilder, Run, Gb, ◌>>=◌, node_inputs, graph_derived, graph_fact, expr, input_nodes,
}
use want.WantC.Denote.{Denotes, DenoteList, no_nodes, a_node, merged, meaning, layers}
use want.WantC.Sound.{
  Returns, Returns-bind, Returns-weaken, graph_derived-Made, graph_derived-last, graph_fact-Made,
  After_refl, Denotes-Grows,
}
use want.WantC.Settings.{Setting, merge_of}
use want.WantC.Built.{
  cost, cost_layers, value_of, layers_of, Fine, Done, Ran, InputsMade, put, ran, place-Done,
  node_inputs-Done, indexed-Done,
}

module _ {Ref V : Type 0} (t : Setting Ref V) where
  abbrev Built : GraphBuilder Ref → ℕ → V → ℕ → GraphBuilder Ref → Type 0
  Built = Done t

  abbrev Good : GraphBuilder Ref → Type 0
  Good = Fine t

  abbrev valued : Expr Ref → V
  valued = value_of t

  -- The nodes of the inputs, with the values of the layers.
  abbrev Layered : GraphBuilder Ref → Inputs Ref → List ℕ → GraphBuilder Ref → Type 0
  Layered g ins ns g2 =
      Ran t g g2 (cost_layers ins)
      × DenoteList t.cid t.fact_of t.apply g2.b.nodes ns (layers_of t ins)
      × (length ns ≡ count_inputs ins)

  abbrev run_expr : Expr Ref → Gb Ref ℕ
  run_expr = expr t.cid t.hash t.sync t.post_blob t.clean

  abbrev run_inputs : Inputs Ref → Gb Ref (List ℕ)
  run_inputs = input_nodes t.cid t.hash t.sync t.post_blob t.clean

  -- The node of a computation, which is the last one.
  abbrev BuiltLast : GraphBuilder Ref → ℕ → V → ℕ → GraphBuilder Ref → Type 0
  BuiltLast g c v n g2 = Built g c v n g2 × (suc n ≡ length g2.b.nodes)

  Returns-both :
      (P Q : ℕ → GraphBuilder Ref → Type 0) (r : Run Ref ℕ)
      → Returns P r
      → Returns Q r
      → Returns (λ n g. P n g × Q n g) r
  Returns-both P Q (done (ok n, g)) p q = (p, q)
  Returns-both P Q (done (err e, g)) p q = absurd p
  Returns-both P Q out_of_fuel p q = absurd p
  Returns-both P Q panic p q = absurd p

  derive_last :
      (op : Str) (ins : Inputs Ref) (nis : List NodeInput) (g g2 : GraphBuilder Ref) (c : ℕ)
      → InputsMade t g c (layers_of t ins) nis g2
      → length g.b.nodes + c + 1 ≤ 2 ^ 32
      → Returns (BuiltLast g (c + 1) (valued (compute op ins))) (graph_derived op nis g2)
  unfolding meaning
  derive_last op ins nis g g2 c made small =
      let few = made.0.grows.few in
      let vs =
        merged t.cid t.fact_of t.apply (merge_of t.apply t.over) t.blob_of t.clean
          (layers_of t ins) in
      let room : length g2.b.nodes < 2 ^ 32 = omega (arith, few, small) in
      let node =
        graph_derived-Made t.cid t.hash t.Used t.fact_of t.apply valued op nis vs g2 made.0.sound
          room made.1 in
      let last =
        graph_derived-last t.cid t.hash t.Used t.fact_of t.apply valued op nis vs g2 room made.1 in
      Returns-weaken (λ n g3. Built g2 1 (t.apply op vs) n g3 × (suc n ≡ length g3.b.nodes)) _ _
        (Returns-both (Built g2 1 (t.apply op vs)) (λ n g3. suc n ≡ length g3.b.nodes) _ node last)
        (λ n g3 d. ((ran t (c + 1) made.0 d.0.0 (omega arith), d.0.1), d.1))

  compute-BuiltLast :
      (op : Str) (ins : Inputs Ref) (g : GraphBuilder Ref)
      → length g.b.nodes + cost (compute op ins) ≤ 2 ^ 32
      → Returns (Layered g ins) (run_inputs ins g)
      → Returns
          (BuiltLast g (cost (compute op ins)) (valued (compute op ins)))
          ((run_inputs ins >>= λ ns. node_inputs ns >>= λ nis. graph_derived op nis) g)
  compute-BuiltLast op ins g small made =
      let c = cost_layers ins + 2 * count_inputs ins in
      let whole = BuiltLast g (c + 1) (valued (compute op ins)) in
      Returns-bind (Layered g ins) whole (run_inputs ins g)
        (λ ns. node_inputs ns >>= λ nis. graph_derived op nis) made
        (λ ns g1 l.
          let few = l.0.grows.few in
          let inputs =
            node_inputs-Done t ns (layers_of t ins) g1 l.1 l.0.sound
              (omega (arith, few, l.2, small)) in
          Returns-bind (InputsMade t g1 (2 * length ns) (layers_of t ins)) whole (node_inputs ns g1)
            (λ nis. graph_derived op nis) inputs
            (λ nis g2 m.
              derive_last op ins nis g g2 c (ran t c l.0 m.0 (omega (arith, l.2)), m.1)
                (omega (arith, small))))

  mutual
    unfolding expr meaning layers

    expr-Built :
        (e : Expr Ref) (g : GraphBuilder Ref)
        → Plain t.cid t.hash t.Used e
        → Good g
        → length g.b.nodes + cost e ≤ 2 ^ 32
        → Returns (Built g (cost e) (valued e)) (run_expr e g)
    expr-Built (value r) g p s small = indexed-Done t (value r) g 1 (graph_fact t.sync r) p s (
        graph_fact-Made t.cid t.hash t.Used t.fact_of t.apply valued t.sync r g (t.syncs r) s
          (omega (arith, small)))
    expr-Built (selection m d x) g p s small = absurd p
    expr-Built (compute op ins) g p s small =
        let c = cost (compute op ins) in
        let v = valued (compute op ins) in
        let made =
          compute-BuiltLast op ins g small (inputs-Layered ins g p.3 s (omega (arith, small))) in
        indexed-Done t (compute op ins) g c _ p s
          (Returns-weaken (BuiltLast g c v) (Built g c v) _ made (λ n g2 d. d.0))

    inputs-Layered :
        (ins : Inputs Ref) (g : GraphBuilder Ref)
        → PlainInputs t.cid t.hash t.Used ins
        → Good g
        → length g.b.nodes + cost_layers ins ≤ 2 ^ 32
        → Returns (Layered g ins) (run_inputs ins g)
    inputs-Layered no_inputs g p s small =
        (After_refl t.cid t.hash t.Used t.fact_of t.apply valued g s, no_nodes, refl)
    inputs-Layered (input to from mode ins) g p s small =
        Returns-bind (Built g (cost from) (valued from)) (Layered g (input to from mode ins)) _ _
          (expr-Built from g p.1 s (omega (arith, small)))
          (λ n g1 m1.
            let few1 = m1.0.grows.few in
            Returns-bind (Built g1 2 (put t to (valued from))) (Layered g (input to from mode ins))
              _ _ (place-Done t to n (valued from) g1 m1.1 m1.0.sound (omega (arith, few1, small)))
              (λ m g2 m2.
                let few2 = m2.0.grows.few in
                Returns-bind (Layered g2 ins) (Layered g (input to from mode ins)) _ _
                  (inputs-Layered ins g2 p.2 m2.0.sound (omega (arith, few1, few2, small)))
                  (λ ms g3 m3. (
                    ran t (cost from + 2 + cost_layers ins)
                        (ran t (cost from + 2) m1.0 m2.0 (omega arith)) m3.0 (omega arith),
                    a_node
                        (Denotes-Grows t.cid t.hash t.Used t.fact_of t.apply valued m3.0.grows m2.1)
                        m3.1,
                    omega (arith, m3.2),
                  ))))

  -- The last node of the graph has the value.
  abbrev pub Whole : V → ℕ → GraphBuilder Ref → Type 0
  Whole v n g = Denotes t.cid t.fact_of t.apply g.b.nodes n v × (suc n ≡ length g.b.nodes)
