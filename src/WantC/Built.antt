-- ===== src/WantC/Built.antt =====
-- `expr` and `computeInput` (graph.go): the graph that they build for an expression.
use want.Common.{
  ℕ, suc, ◌+◌, ◌-◌, ◌*◌, ◌^◌, ◌≤◌, ◌<◌, ◌≡◌, refl, sym, ap, ◌∙◌, subst, ◌⊎◌, inl, inr, Bool-cases,
  Option, none, some, List, [], ◌∷◌, length, arith,
}
use want.Common.Text.{Str, bytes, str_eq, str_eq-eq}
use want.Common.Outcome.{Outcome, out_of_fuel, panic, done}
use want.Common.Result.{ok, err}
use want.WantDag.Nodes.{NodeInput}
use want.WantC.Exprs.{
  Expr, Inputs, compute, selection, value, no_inputs, input, key, key_inputs, count_inputs,
}
use want.WantC.Keys.{Plain, PlainInputs, key-Same}
use want.WantC.Graph.{
  GraphBuilder, Run, Gb, node_inputs, graph_fact, blob, place, derive_place, store_node, reuse,
  indexed, find_node,
}
use want.WantC.Denote.{
  Denotes, DenoteAll, DenoteList, no_nodes, a_node, none_left, one_more, placed, merged, meaning,
  layers, meaning-Same,
}
use want.WantC.Sound.{
  Returns, Returns-bind, Returns-weaken, Sound, After, After_refl, After_trans, Made,
  must_derived-Made, graph_fact-Made, Denotes-Grows,
}
use want.WantC.Settings.{Setting, merge_of, merge_nested, merges_all}
use want.WantC.Merging.{merge_layers-Made}

module _ {Ref : Type 0} where
  abbrev mutual
    -- The most nodes that an expression adds to the graph.
    pub cost : Expr Ref → ℕ
    cost (value r) = 1
    cost (selection m d s) = 0
    cost (compute op ins) = cost_layers ins + 2 * count_inputs ins + 1

    pub cost_layers : Inputs Ref → ℕ
    cost_layers no_inputs = 0
    cost_layers (input to from mode ins) = cost from + 2 + cost_layers ins

module _ {Ref V : Type 0} (t : Setting Ref V) where
  abbrev pub value_of : Expr Ref → V
  value_of e = meaning t.cid t.fact_of t.apply (merge_of t.apply t.over) t.blob_of t.clean t.other e

  abbrev pub layers_of : Inputs Ref → List V
  layers_of ins =
      layers t.cid t.fact_of t.apply (merge_of t.apply t.over) t.blob_of t.clean t.other ins

  abbrev pub put : Str → V → V
  put to v = placed t.cid t.fact_of t.apply (merge_of t.apply t.over) t.blob_of t.clean to v

  abbrev pub Fine : GraphBuilder Ref → Type 0
  Fine g = Sound t.cid t.hash t.Used t.fact_of t.apply value_of g

  abbrev pub Done : GraphBuilder Ref → ℕ → V → ℕ → GraphBuilder Ref → Type 0
  Done g c v = Made t.cid t.hash t.Used t.fact_of t.apply value_of g c v

  abbrev pub Ran : GraphBuilder Ref → GraphBuilder Ref → ℕ → Type 0
  Ran g g2 c = After t.cid t.hash t.Used t.fact_of t.apply value_of g g2 c

  pub ran :
      {g h k : GraphBuilder Ref} {c d : ℕ} (e : ℕ) → Ran g h c → Ran h k d → c + d ≤ e → Ran g k e
  ran e p q w = After_trans t.cid t.hash t.Used t.fact_of t.apply value_of e p q w

  blob_eq :
      (p : Str) (r : Ref) (g : GraphBuilder Ref)
      → t.post_blob p ≡ some r
      → blob t.sync t.post_blob p g ≡ graph_fact t.sync r g
  unfolding blob
  blob_eq p r g e = ground (arith, e)

  blob-Done :
      (p : Str) (g : GraphBuilder Ref)
      → Fine g
      → length g.b.nodes < 2 ^ 32
      → Returns (Done g 1 (t.blob_of p)) (blob t.sync t.post_blob p g)
  blob-Done p g s small =
      let (r, e, same) = t.posts p in
      let made =
        graph_fact-Made t.cid t.hash t.Used t.fact_of t.apply value_of t.sync r g (t.syncs r) s
          small in
      subst (Returns (Done g 1 (t.blob_of p))) (sym (blob_eq p r g e))
        (subst (λ v. Returns (Done g 1 v) (graph_fact t.sync r g)) same made)

  pub place-Done :
      (to : Str) (n : ℕ) (v : V) (g : GraphBuilder Ref)
      → Denotes t.cid t.fact_of t.apply g.b.nodes n v
      → Fine g
      → length g.b.nodes + 2 ≤ 2 ^ 32
      → Returns (Done g 2 (put to v)) (place t.sync t.post_blob t.clean to n g)
  unfolding place derive_place
  place-Done to n v g d s small = elim (Bool-cases (str_eq (t.clean to) [])) [
    | inl e ↦
        let here = After_refl t.cid t.hash t.Used t.fact_of t.apply value_of g s in
        rw e (ran 2 here here (omega arith), d)
    | inr e ↦
        let made = blob-Done (t.clean to) g s (omega (arith, small)) in
        rw e (
          Returns-bind (Done g 1 (t.blob_of (t.clean to)))
            (Done g 2 (
              t.apply (bytes "glfs.place")
                ((bytes "x", v) ∷ (bytes "path", t.blob_of (t.clean to)) ∷ [])))
            _ _ made
            (λ path g1 m.
              let few = m.0.grows.few in
              Returns-weaken
                (Done g1 1 (
                  t.apply (bytes "glfs.place")
                    ((bytes "x", v) ∷ (bytes "path", t.blob_of (t.clean to)) ∷ [])))
                _ _
                (must_derived-Made t.cid t.hash t.Used t.fact_of t.apply value_of (bytes "glfs")
                  (bytes "place")
                  (record { name = bytes "x"; node = n }
                    ∷ record { name = bytes "path"; node = path }
                    ∷ [])
                  ((bytes "x", v) ∷ (bytes "path", t.blob_of (t.clean to)) ∷ []) g1 m.0.sound
                  (omega (arith, few, small))
                  (one_more
                    (Denotes-Grows t.cid t.hash t.Used t.fact_of t.apply value_of m.0.grows d)
                    (one_more m.1 none_left)))
                (λ l g2 m2. (ran 2 m.0 m2.0 (omega arith), m2.1))))
  ]

  -- The inputs of a node, over the values of its layers.
  abbrev pub InputsMade : GraphBuilder Ref → ℕ → List V → List NodeInput → GraphBuilder Ref → Type 0
  InputsMade g c vs ins g2 =
      Ran g g2 c
      × DenoteAll t.cid t.fact_of t.apply g2.b.nodes ins
          (merged t.cid t.fact_of t.apply (merge_of t.apply t.over) t.blob_of t.clean vs)

  pub node_inputs-Done :
      (ns : List ℕ) (vs : List V) (g : GraphBuilder Ref)
      → DenoteList t.cid t.fact_of t.apply g.b.nodes ns vs
      → Fine g
      → length g.b.nodes + 2 * length ns ≤ 2 ^ 32
      → Returns (InputsMade g (2 * length ns) vs) (node_inputs ns g)
  unfolding node_inputs
  node_inputs-Done [] [] g no_nodes s small =
      (After_refl t.cid t.hash t.Used t.fact_of t.apply value_of g s, none_left)
  node_inputs-Done (n ∷ []) (v ∷ []) g (a_node d no_nodes) s small =
      let here = After_refl t.cid t.hash t.Used t.fact_of t.apply value_of g s in
      (ran 2 here here (omega arith), one_more d none_left)
  node_inputs-Done (n ∷ m ∷ ns) (v ∷ w ∷ vs) g (a_node d (a_node e ds)) s small =
      Returns-bind (Done g (2 * length (n ∷ m ∷ ns) - 1) (merge_of t.apply t.over (v ∷ w ∷ vs)))
        (InputsMade g (2 * length (n ∷ m ∷ ns)) (v ∷ w ∷ vs)) _ _
        (merge_layers-Made t.cid t.hash t.Used t.fact_of t.apply value_of (merge_of t.apply t.over)
          (merges_all t) (merge_nested t.apply t.over t.over_assoc) (suc (length (n ∷ m ∷ ns))) n
          (m ∷ ns) v (w ∷ vs) g (a_node d (a_node e ds)) (omega arith) s small)
        (λ l g2 made. (
          ran (2 * length (n ∷ m ∷ ns)) made.0
              (After_refl t.cid t.hash t.Used t.fact_of t.apply value_of g2 made.0.sound)
              (omega arith),
          one_more made.1 none_left,
        ))
  node_inputs-Done [] (v ∷ vs) g d s small = elim d [ ]
  node_inputs-Done (n ∷ ns) [] g d s small = elim d [ ]
  node_inputs-Done (n ∷ []) (v ∷ w ∷ vs) g (a_node d e) s small = elim e [ ]
  node_inputs-Done (n ∷ m ∷ ns) (v ∷ []) g (a_node d e) s small = elim e [ ]

  done_bind :
      {A B : Type 0} (m : Outcome A) (f : A → Outcome B) (x : A)
      → m ≡ done x
      → (elim m [ out_of_fuel ↦ out_of_fuel | panic ↦ panic | done y ↦ f y ]) ≡ f x
  done_bind m f x e = rw e refl

  mutual
    unfolding key key_inputs

    pub key-Plain :
        (e : Expr Ref) → Plain t.cid t.hash t.Used e → (k : Str) × (key t.cid t.hash e ≡ done k)
    key-Plain (value r) p = (t.cid r, refl)
    key-Plain (selection m d s) p = absurd p
    key-Plain (compute op ins) p =
        let (bs, e) = key_inputs-Plain ins p.3 in
        (_, done_bind (key_inputs t.cid t.hash ins) _ bs e)

    pub key_inputs-Plain :
        (ins : Inputs Ref)
        → PlainInputs t.cid t.hash t.Used ins
        → (bs : Str) × (key_inputs t.cid t.hash ins ≡ done bs)
    key_inputs-Plain no_inputs p = ([], refl)
    key_inputs-Plain (input to from mode ins) p =
        let (k, e) = key-Plain from p.1 in
        let (bs, f) = key_inputs-Plain ins p.2 in
        (
          _,
          done_bind (key t.cid t.hash from) _ k e ∙ done_bind (key_inputs t.cid t.hash ins) _ bs f,
        )

  find_node-cons :
      (j k : Str) (n : ℕ) (ix : List (Str × ℕ)) (m : ℕ)
      → find_node k ((j, n) ∷ ix) ≡ some m
      → ((j ≡ k) × (n ≡ m)) ⊎ (find_node k ix ≡ some m)
  find_node-cons j k n ix m h = elim (Bool-cases (str_eq j k)) [
    | inl e ↦ inl (str_eq-eq j k e, ground (arith, h, e))
    | inr e ↦ inr (ground (arith, h, e))
  ]

  store_node-Done :
      (e : Expr Ref) (k : Str) (g : GraphBuilder Ref) (c : ℕ) (r : Run Ref ℕ)
      → Plain t.cid t.hash t.Used e
      → key t.cid t.hash e ≡ done k
      → Returns (Done g c (value_of e)) r
      → Returns (Done g c (value_of e)) (store_node k r)
  store_node-Done e k g c out_of_fuel p h made = absurd made
  store_node-Done e k g c panic p h made = absurd made
  store_node-Done e k g c (done (err x, g2)) p h made = absurd made
  store_node-Done e k g c (done (ok n, g2)) p h made = (
    record {
      sound = λ j m at. elim (find_node-cons k j n g2.index m at) [
        | inl same ↦ record {
          of = e;
          plain = p;
          keyed = h ∙ ap done same.0;
          denotes =
              subst (λ l. Denotes t.cid t.fact_of t.apply g2.b.nodes l (value_of e)) same.1 made.1;
        }
        | inr before ↦
            let w = made.0.sound j m before in
            record { of = w.of; plain = w.plain; keyed = w.keyed; denotes = w.denotes }
      ];
      grows = made.0.grows;
    },
    made.1,
  )

  reuse-Done :
      (e : Expr Ref) (k : Str) (g : GraphBuilder Ref) (c : ℕ) (make : Gb Ref ℕ)
      → Plain t.cid t.hash t.Used e
      → key t.cid t.hash e ≡ done k
      → Fine g
      → Returns (Done g c (value_of e)) (make g)
      → (o : Option ℕ) → find_node k g.index ≡ o
      → Returns (Done g c (value_of e)) (reuse k o make g)
  reuse-Done e k g c make p h s made none f = store_node-Done e k g c (make g) p h made
  reuse-Done e k g c make p h s made (some n) f =
      let w = s k n f in
      let here = After_refl t.cid t.hash t.Used t.fact_of t.apply value_of g s in
      let same =
        key-Same t.cid t.hash t.Used t.hash_32 t.cid_32 t.apart w.of e k w.plain p w.keyed h in
      let value =
        meaning-Same t.cid t.fact_of t.apply (merge_of t.apply t.over) t.blob_of t.clean t.other
          w.of e same in
      (
        ran c here here (omega arith),
        subst (λ v. Denotes t.cid t.fact_of t.apply g.b.nodes n v) value w.denotes,
      )

  pub indexed-Done :
      (e : Expr Ref) (g : GraphBuilder Ref) (c : ℕ) (make : Gb Ref ℕ)
      → Plain t.cid t.hash t.Used e
      → Fine g
      → Returns (Done g c (value_of e)) (make g)
      → Returns (Done g c (value_of e)) (indexed (key t.cid t.hash e) make g)
  indexed-Done e g c make p s made =
      let (k, h) = key-Plain e p in
      subst (λ o. Returns (Done g c (value_of e)) (indexed o make g)) (sym h)
        (reuse-Done e k g c make p h s made (find_node k g.index) refl)
