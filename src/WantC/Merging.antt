-- ===== src/WantC/Merging.antt =====
-- `DeriveMerge` (graph_glfs.go) and `mergeLayers` (graph.go), which merges more layers than a node has inputs
-- in batches.
use want.Common.{
  ℕ, zero, suc, ◌+◌, ◌-◌, ◌*◌, ◌%◌, ◌^◌, ◌≤◌, ◌<◌, ◌≡◌, refl, sym, ap, ◌∙◌, subst, inl, inr, leb,
  ltb, false, Bool-cases, List, [], ◌∷◌, ◌++◌, length, length-append, take, drop, take-append-drop,
  arith,
}
use want.Common.Text.{Str, bytes}
use want.Common.Hex.{hex_padded}
use want.WantDag.Nodes.{Node}
use want.WantC.Exprs.{Expr}
use want.WantC.Graph.{
  GraphBuilder, Gb, must_derived, named_layers, derive_merge, batch_size, max_node_inputs,
  merge_batches, merge_layers,
}
use want.WantC.Denote.{
  Denotes, DenoteAll, DenoteList, no_nodes, a_node, none_left, one_more, DenoteList-append,
}
use want.WantC.Sound.{
  Returns, Returns-bind, Returns-weaken, Grows, Sound, After, After_refl, After_trans, Made,
  must_derived-Made, Denotes-Grows,
}

-- The values of layers under the names of `DeriveMerge`.
abbrev pub named_values : {V : Type 0} → ℕ → List V → List (Str × V)
named_values i [] = []
named_values i (v ∷ vs) = (hex_padded 2 i, v) ∷ named_values (suc i) vs

module _ {A : Type 0} where
  append_assoc : (xs ys zs : List A) → (xs ++ ys) ++ zs ≡ xs ++ (ys ++ zs)
  append_assoc [] ys zs = refl
  append_assoc (x ∷ xs) ys zs = ap (◌∷◌ x) (append_assoc xs ys zs)

  length-drop : (n : ℕ) (xs : List A) → length (drop n xs) ≡ length xs - n
  length-drop zero xs = omega arith
  length-drop (suc n) [] = omega arith
  length-drop (suc n) (x ∷ xs) = omega (arith, length-drop n xs)

  length-take : (n : ℕ) (xs : List A) → length (take n xs) + length (drop n xs) ≡ length xs
  length-take n xs = sym (length-append (take n xs) (drop n xs)) ∙ ap length (take-append-drop n xs)

module _ {Ref V : Type 0} (cid : Ref → Str) (hash : Str → Str) (Used : Str → Type 0)
    (fact_of : Str → V) (apply : Str → List (Str × V) → V) (meaning : Expr Ref → V)
    (merge : List V → V)
    -- The operation glfs.merge merges what it is given, and merging a merge is merging its layers in its place.
    (apply_merge : (vs : List V)
      → length vs ≤ 64
      → apply (bytes "glfs.merge") (named_values 0 vs) ≡ merge vs)
    (merge_nested : (us : List V) (x : V) (xs ws : List V)
      → merge (us ++ merge (x ∷ xs) ∷ ws) ≡ merge (us ++ ((x ∷ xs) ++ ws))) where
  abbrev Layers : GraphBuilder Ref → List ℕ → List V → Type 0
  Layers g ns vs = DenoteList cid fact_of apply g.b.nodes ns vs

  length-Layers :
      {xs : List (Node Ref)} {ns : List ℕ} {vs : List V}
      → DenoteList cid fact_of apply xs ns vs
      → length ns ≡ length vs
  length-Layers no_nodes = refl
  length-Layers (a_node d ds) = ap suc (length-Layers ds)

  Layers-named :
      {xs : List (Node Ref)} {ns : List ℕ} {vs : List V} (i : ℕ)
      → DenoteList cid fact_of apply xs ns vs
      → DenoteAll cid fact_of apply xs (named_layers i ns) (named_values i vs)
  unfolding named_layers
  Layers-named i no_nodes = none_left
  Layers-named i (a_node d ds) = one_more d (Layers-named (suc i) ds)

  abbrev MadeHere : GraphBuilder Ref → ℕ → V → ℕ → GraphBuilder Ref → Type 0
  MadeHere = Made cid hash Used fact_of apply meaning

  derive_merge-Made :
      (ns : List ℕ) (vs : List V) (g : GraphBuilder Ref)
      → Layers g ns vs
      → length ns ≤ 64
      → Sound cid hash Used fact_of apply meaning g
      → length g.b.nodes < 2 ^ 32
      → Returns (MadeHere g 1 (merge vs)) (derive_merge ns g)
  unfolding derive_merge
  derive_merge-Made ns vs g d few s small =
      let within : ltb max_node_inputs (length ns) ≡ false = ground (arith, few) in
      let same : apply (bytes "glfs.merge") (named_values 0 vs) ≡ merge vs =
        apply_merge vs (omega (arith, few, length-Layers d)) in
      let made : Returns (MadeHere g 1 (apply (bytes "glfs.merge") (named_values 0 vs)))
          (must_derived (bytes "glfs") (bytes "merge") (named_layers 0 ns) g) =
        must_derived-Made cid hash Used fact_of apply meaning (bytes "glfs") (bytes "merge")
          (named_layers 0 ns) (named_values 0 vs) g s small (Layers-named 0 d) in
      rw within (
        subst
          (λ v.
            Returns (MadeHere g 1 v)
              (must_derived (bytes "glfs") (bytes "merge") (named_layers 0 ns) g))
          same made)

  Layers-take :
      {xs : List (Node Ref)} (n : ℕ) {ns : List ℕ} {vs : List V}
      → DenoteList cid fact_of apply xs ns vs
      → DenoteList cid fact_of apply xs (take n ns) (take n vs)
  Layers-take zero d = no_nodes
  Layers-take (suc n) no_nodes = no_nodes
  Layers-take (suc n) (a_node d ds) = a_node d (Layers-take n ds)

  Layers-drop :
      {xs : List (Node Ref)} (n : ℕ) {ns : List ℕ} {vs : List V}
      → DenoteList cid fact_of apply xs ns vs
      → DenoteList cid fact_of apply xs (drop n ns) (drop n vs)
  Layers-drop zero d = d
  Layers-drop (suc n) no_nodes = no_nodes
  Layers-drop (suc n) (a_node d ds) = Layers-drop n ds

  pub Layers-Grows :
      {xs ys : List (Node Ref)} {c : ℕ} {ns : List ℕ} {vs : List V}
      → Grows xs ys c
      → DenoteList cid fact_of apply xs ns vs
      → DenoteList cid fact_of apply ys ns vs
  Layers-Grows {xs} {ys} {c} {ns} {vs} w d =
      subst (λ l. DenoteList cid fact_of apply l ns vs) (sym w.same)
        (DenoteList-append cid fact_of apply w.more d)

  -- What the loop over the batches of `ns` returns, where `m` batches are enough.
  pub record Batched (g : GraphBuilder Ref) (ns : List ℕ) (vs : List V) (m size : ℕ) (ms : List ℕ)
      (g2 : GraphBuilder Ref) : Type 0 where
    pub after : After cid hash Used fact_of apply meaning g g2 (2 * length ns - length ms)
    pub ws : List V
    pub denote : Layers g2 ms ws
    pub flat : (us : List V) → merge (us ++ ws) ≡ merge (us ++ vs)
    pub at_most : length ms ≤ m
    pub several : size < length ns → 2 ≤ length ms
    pub one : 0 < length ns → 0 < length ms
    pub no_more : length ms ≤ length ns

  -- What is asked of the call for each batch.
  abbrev pub Merges : ℕ → (List ℕ → Gb Ref ℕ) → Type 0
  Merges size rec =
      (n : ℕ) (ns : List ℕ) (v : V) (vs : List V) (g : GraphBuilder Ref)
      → Layers g (n ∷ ns) (v ∷ vs)
      → length (n ∷ ns) ≤ size
      → Sound cid hash Used fact_of apply meaning g
      → length g.b.nodes + 2 * length (n ∷ ns) ≤ 2 ^ 32
      → Returns (MadeHere g (2 * length (n ∷ ns) - 1) (merge (v ∷ vs))) (rec (n ∷ ns) g)

  -- One batch in front of the others.
  Batched-cons :
      (g g1 g2 : GraphBuilder Ref) (size m n l : ℕ) (ns ms : List ℕ) (v : V) (vs : List V)
      → MadeHere g (2 * length (n ∷ take size ns) - 1) (merge (v ∷ take size vs)) l g1
      → Batched g1 (drop size ns) (drop size vs) m (suc size) ms g2
      → Batched g (n ∷ ns) (v ∷ vs) (suc m) (suc size) (l ∷ ms) g2
  Batched-cons g g1 g2 size m n l ns ms v vs (after, here) b =
      let lens = length-take size ns in
      let left = length-drop size ns in
      let no_more = b.no_more in
      record {
        after =
            After_trans cid hash Used fact_of apply meaning (2 * length (n ∷ ns) - length (l ∷ ms))
              after b.after (omega (arith, lens, no_more));
        ws = merge (v ∷ take size vs) ∷ b.ws;
        denote =
            a_node (Denotes-Grows cid hash Used fact_of apply meaning b.after.grows here) b.denote;
        flat = λ us.
            merge_nested us v (take size vs) b.ws
            ∙ ap merge (sym (append_assoc us (v ∷ take size vs) b.ws))
            ∙ b.flat (us ++ v ∷ take size vs)
            ∙ ap merge (append_assoc us (v ∷ take size vs) (drop size vs))
            ∙ ap (λ l. merge (us ++ (v ∷ l))) (take-append-drop size vs);
        at_most = omega (arith, b.at_most);
        several = λ h. omega (arith, b.one (omega (arith, left, h)));
        one = λ h. omega arith;
        no_more = omega (arith, no_more, left, lens);
      }

  merge_batches-Batched :
      (rec : List ℕ → Gb Ref ℕ) (size : ℕ)
      → 0 < size
      → Merges size rec
      → (k m : ℕ) (ns : List ℕ) (vs : List V) (g : GraphBuilder Ref) → length ns ≤ k
      → length ns ≤ m * size
      → Layers g ns vs
      → Sound cid hash Used fact_of apply meaning g
      → length g.b.nodes + 2 * length ns ≤ 2 ^ 32
      → Returns (Batched g ns vs m size) (merge_batches rec k size ns g)
  unfolding merge_batches
  merge_batches-Batched rec (suc size) pos ok k m [] [] g enough fits no_nodes s small = record {
    after = After_refl cid hash Used fact_of apply meaning g s;
    ws = [];
    denote = no_nodes;
    flat = λ us. refl;
    at_most = omega arith;
    several = λ h. absurd (omega (arith, h));
    one = λ h. absurd (omega (arith, h));
    no_more = omega arith;
  }
  merge_batches-Batched rec (suc size) pos ok zero m (n ∷ ns) vs g enough fits d s small =
      absurd (omega (arith, enough))
  merge_batches-Batched rec (suc size) pos ok (suc k) zero (n ∷ ns) vs g enough fits d s small =
      absurd (omega (arith, fits))
  merge_batches-Batched rec (suc size) pos ok (suc k) (suc m) (n ∷ ns) (v ∷ vs) g enough fits
        (a_node d ds) s small =
      let lens = length-take size ns in
      let left = length-drop size ns in
      let size_enough : length (n ∷ take size ns) ≤ suc size = omega (arith, lens, left) in
      let front =
        ok n (take size ns) v (take size vs) g (a_node d (Layers-take size ds)) size_enough s
          (omega (arith, lens, small)) in
      Returns-bind (MadeHere g (2 * length (n ∷ take size ns) - 1) (merge (v ∷ take size vs)))
        (Batched g (n ∷ ns) (v ∷ vs) (suc m) (suc size)) _ _ front
        (λ l g1 made.
          let few = made.0.grows.few in
          let rest =
            merge_batches-Batched rec (suc size) pos ok k m (drop size ns) (drop size vs) g1
              (omega (arith, left, enough)) (omega (arith, left, fits))
              (Layers-Grows made.0.grows (Layers-drop size ds)) made.0.sound
              (omega (arith, lens, few, small)) in
          Returns-bind (Batched g1 (drop size ns) (drop size vs) m (suc size))
            (Batched g (n ∷ ns) (v ∷ vs) (suc m) (suc size)) _ _ rest
            (λ ms g2 b. Batched-cons g g1 g2 size m n l ns ms v vs made b))
  merge_batches-Batched rec zero pos ok k m ns vs g enough fits d s small = elim pos [ ]
  merge_batches-Batched rec (suc size) pos ok k m [] (v ∷ vs) g enough fits d s small = elim d [ ]
  merge_batches-Batched rec (suc size) pos ok (suc k) (suc m) (n ∷ ns) [] g enough fits d s small =
      elim d [ ]

  batch_size_lem :
      (n : ℕ) → 64 < n → (0 < batch_size n) × (batch_size n < n) × (n ≤ 64 * batch_size n)
  unfolding batch_size
  batch_size_lem n h = elim (Bool-cases (ltb 0 (n % 64))) [
    | inl e ↦ rw e (omega (arith, h), omega (arith, h), omega (arith, h))
    | inr e ↦
        let even : n % 64 ≡ 0 = ground (arith, e) in
        rw e (omega (arith, h), omega (arith, h), omega (arith, h, even))
  ]

  derive_after :
      (g g1 : GraphBuilder Ref) (n : ℕ) (ns ms : List ℕ) (v : V) (vs : List V)
      → 64 < length (n ∷ ns)
      → length g.b.nodes + 2 * length (n ∷ ns) ≤ 2 ^ 32
      → Batched g (n ∷ ns) (v ∷ vs) 64 (batch_size (length (n ∷ ns))) ms g1
      → Returns (MadeHere g (2 * length (n ∷ ns) - 1) (merge (v ∷ vs))) (derive_merge ms g1)
  derive_after g g1 n ns ms v vs many small b =
      let two : 2 ≤ length ms = b.several ((batch_size_lem (length (n ∷ ns)) many).1) in
      let less = b.no_more in
      let few = b.after.grows.few in
      Returns-weaken (MadeHere g1 1 (merge b.ws)) _ _
        (derive_merge-Made ms b.ws g1 b.denote b.at_most b.after.sound
          (omega (arith, few, two, less, small)))
        (λ l g2 made. (
          After_trans cid hash Used fact_of apply meaning (2 * length (n ∷ ns) - 1) b.after made.0
              (omega (arith, two, less)),
          subst (λ w. Denotes cid fact_of apply g2.b.nodes l w) (b.flat []) made.1,
        ))

  -- However many layers there are, they are merged into one node of their merge, by nodes of at
  -- most 64 inputs each, fewer than twice as many as there are layers.
  pub merge_layers-Made : (f : ℕ) → Merges f (merge_layers f)
  unfolding merge_layers
  merge_layers-Made zero n ns v vs g d fits s small = absurd (omega (arith, fits))
  merge_layers-Made (suc f) n ns v vs g d fits s small =
      elim (Bool-cases (leb (length (n ∷ ns)) 64)) [
        | inl e ↦ rw e (
            Returns-weaken (MadeHere g 1 (merge (v ∷ vs))) _ _
              (derive_merge-Made (n ∷ ns) (v ∷ vs) g d (ground (arith, e)) s (omega (arith, small)))
              (λ l g2 made. (
                After_trans cid hash Used fact_of apply meaning (2 * length (n ∷ ns) - 1) made.0
                    (After_refl cid hash Used fact_of apply meaning g2 made.0.sound) (omega arith),
                made.1,
              )))
        | inr e ↦
            let many : 64 < length (n ∷ ns) = ground (arith, e) in
            let size = batch_size (length (n ∷ ns)) in
            let sizes = batch_size_lem (length (n ∷ ns)) many in
            let ih : Merges size (merge_layers f) = λ m ms w ws h ds fit sd sm.
              merge_layers-Made f m ms w ws h ds (omega (arith, fit, fits, sizes.1)) sd sm in
            rw e (
              Returns-bind (Batched g (n ∷ ns) (v ∷ vs) 64 size) _ _ _
                (merge_batches-Batched (merge_layers f) size sizes.0 ih (length (n ∷ ns)) 64
                  (n ∷ ns) (v ∷ vs) g (omega arith) sizes.2 d s small)
                (λ ms g1 b. derive_after g g1 n ns ms v vs many small b))
      ]
