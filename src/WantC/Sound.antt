-- ===== src/WantC/Sound.antt =====
-- The state of the graph builder (graph.go): what its index holds, and how calls change it.
use want.Common.{
  Bool, true, ℕ, zero, suc, ◌+◌, ◌^◌, ◌≤◌, ◌<◌, ◌≡◌, refl, sym, ap, ◌∙◌, subst, none, some, List,
  [], ◌∷◌, ◌++◌, length, length-append, get_elem?, arith,
}
use want.Common.Text.{Str, bytes}
use want.Common.Outcome.{out_of_fuel, panic, done}
use want.Common.Result.{ok, err}
use want.WantDag.Nodes.{NodeInput, Node}
use want.WantDag.Builder.{
  Builder, InputsBefore, InputsBefore-first_forward, node_id, derived_ok, fact, get_elem?-last,
}
use want.WantC.Exprs.{Expr, key}
use want.WantC.Keys.{Plain}
use want.WantC.Graph.{
  GraphBuilder, find_node, Run, Gb, next, graph_derived, built, must_derived, must, graph_fact,
}
use want.WantC.Denote.{
  Denotes, DenoteAll, a_task, a_fact, Denotes-append, DenoteAll-append, none_left, one_more,
}

-- The run returns a value with `P`.
abbrev pub Returns : {Ref A : Type 0} → (A → GraphBuilder Ref → Type 0) → Run Ref A → Type 0
Returns P (done (ok x, g)) = P x g
Returns P (done (err e, g)) = ⊥
Returns P out_of_fuel = ⊥
Returns P panic = ⊥

module _ {Ref A B : Type 0} where
  pub Returns-bind :
      (P : A → GraphBuilder Ref → Type 0) (Q : B → GraphBuilder Ref → Type 0) (r : Run Ref A)
      (f : A → Gb Ref B)
      → Returns P r
      → ((x : A) (g : GraphBuilder Ref) → P x g → Returns Q (f x g))
      → Returns Q (next r f)
  Returns-bind P Q (done (ok x, g)) f p h = h x g p
  Returns-bind P Q (done (err e, g)) f p h = absurd p
  Returns-bind P Q out_of_fuel f p h = absurd p
  Returns-bind P Q panic f p h = absurd p

module _ {Ref A : Type 0} where
  pub Returns-weaken :
      (P Q : A → GraphBuilder Ref → Type 0) (r : Run Ref A)
      → Returns P r
      → ((x : A) (g : GraphBuilder Ref) → P x g → Q x g)
      → Returns Q r
  Returns-weaken P Q (done (ok x, g)) p h = h x g p
  Returns-weaken P Q (done (err e, g)) p h = absurd p
  Returns-weaken P Q out_of_fuel p h = absurd p
  Returns-weaken P Q panic p h = absurd p

-- A graph that has grown by at most `c` nodes.
pub record Grows {Ref : Type 0} (xs ys : List (Node Ref)) (c : ℕ) : Type 0 where
  pub more : List (Node Ref)
  pub same : ys ≡ xs ++ more
  pub few : length ys ≤ length xs + c

module _ {Ref : Type 0} where
  append_assoc : (xs ys zs : List (Node Ref)) → (xs ++ ys) ++ zs ≡ xs ++ (ys ++ zs)
  append_assoc [] ys zs = refl
  append_assoc (x ∷ xs) ys zs = ap (◌∷◌ x) (append_assoc xs ys zs)

  append-empty : (xs : List (Node Ref)) → xs ++ [] ≡ xs
  append-empty [] = refl
  append-empty (x ∷ xs) = ap (◌∷◌ x) (append-empty xs)

  pub Grows-refl : (xs : List (Node Ref)) → Grows xs xs 0
  Grows-refl xs = record { more = []; same = sym (append-empty xs); few = omega arith }

  pub Grows-trans :
      {xs ys zs : List (Node Ref)} {c d : ℕ} → Grows xs ys c → Grows ys zs d → Grows xs zs (c + d)
  Grows-trans {xs} g h = record {
    more = g.more ++ h.more;
    same = h.same ∙ ap (λ l. l ++ h.more) g.same ∙ append_assoc xs g.more h.more;
    few = omega (arith, g.few, h.few);
  }

  pub Grows-weaken :
      {xs ys : List (Node Ref)} {c : ℕ} (d : ℕ) → Grows xs ys c → c ≤ d → Grows xs ys d
  Grows-weaken d g h = record { more = g.more; same = g.same; few = omega (arith, g.few, h) }

  pub Grows-one : (xs : List (Node Ref)) (x : Node Ref) → Grows xs (xs ++ x ∷ []) 1
  Grows-one xs x = record {
    more = x ∷ [];
    same = refl;
    few = omega (arith, length-append xs (x ∷ []));
  }

get_elem?-before :
    {A : Type 0} (xs : List A) (n : ℕ) (x : A) → get_elem? xs n ≡ some x → n < length xs
get_elem?-before [] n x h = cc
get_elem?-before (y ∷ xs) zero x h = omega arith
get_elem?-before (y ∷ xs) (suc n) x h = omega (arith, get_elem?-before xs n x h)

fact_ok :
    {Ref : Type 0} (sync : Ref → Bool) (b : Builder Ref) (r : Ref)
    → sync r ≡ true
    → node_id (length b.nodes) ≡ length b.nodes
    → fact sync b r ≡ (
      ok (length b.nodes),
      record { nodes = b.nodes ++ record { value = some r; op = []; inputs = [] } ∷ [] },
    )
unfolding fact
fact_ok sync b r e same = rw (e, same) refl

module _ {Ref V : Type 0} (cid : Ref → Str) (hash : Str → Str) (Used : Str → Type 0)
    (fact_of : Str → V) (apply : Str → List (Str × V) → V) (meaning : Expr Ref → V) where
  -- Under a key of the index stands a node with the value of an expression that has this key.
  pub record Known (xs : List (Node Ref)) (k : Str) (n : ℕ) : Type 0 where
    pub of : Expr Ref
    pub plain : Plain cid hash Used of
    pub keyed : key cid hash of ≡ done k
    pub denotes : Denotes cid fact_of apply xs n (meaning of)

  abbrev pub Sound : GraphBuilder Ref → Type 0
  Sound g = (k : Str) (n : ℕ) → find_node k g.index ≡ some n → Known g.b.nodes k n

  -- What a call does that leaves the index alone or adds to it rightly.
  pub record After (g g2 : GraphBuilder Ref) (c : ℕ) : Type 0 where
    pub sound : Sound g2
    pub grows : Grows g.b.nodes g2.b.nodes c

  pub Denotes-Grows :
      {xs ys : List (Node Ref)} {c n : ℕ} {v : V}
      → Grows xs ys c
      → Denotes cid fact_of apply xs n v
      → Denotes cid fact_of apply ys n v
  Denotes-Grows {xs} {ys} {c} {n} {v} g d =
      subst (λ l. Denotes cid fact_of apply l n v) (sym g.same)
        (Denotes-append cid fact_of apply g.more d)

  pub Sound-grows :
      (g : GraphBuilder Ref) (b : Builder Ref) (c : ℕ)
      → Sound g
      → Grows g.b.nodes b.nodes c
      → After g (record g { b = b }) c
  Sound-grows g b c s h = record {
    sound = λ k n e.
        let w = s k n e in
        record { of = w.of; plain = w.plain; keyed = w.keyed; denotes = Denotes-Grows h w.denotes };
    grows = h;
  }

  pub After_refl : (g : GraphBuilder Ref) → Sound g → After g g 0
  After_refl g s = record { sound = s; grows = Grows-refl g.b.nodes }

  pub After_trans :
      {g h k : GraphBuilder Ref} {c d : ℕ} (e : ℕ)
      → After g h c
      → After h k d
      → c + d ≤ e
      → After g k e
  After_trans e p q w = record {
    sound = q.sound;
    grows = Grows-weaken e (Grows-trans p.grows q.grows) w;
  }

  Denotes-before :
      {xs : List (Node Ref)} {n : ℕ} {v : V} → Denotes cid fact_of apply xs n v → n < length xs
  Denotes-before {xs} {n} (a_fact x r h e w) = get_elem?-before xs n x h
  Denotes-before {xs} {n} (a_task x vs h e d w) = get_elem?-before xs n x h

  DenoteAll-before :
      {xs : List (Node Ref)} {ins : List NodeInput} {vs : List (Str × V)}
      → DenoteAll cid fact_of apply xs ins vs
      → InputsBefore (length xs) ins
  DenoteAll-before none_left = tt
  DenoteAll-before (one_more d ds) = (Denotes-before d, DenoteAll-before ds)

  -- The value of a node that a call has made, in a graph that has grown by `c`.
  abbrev pub Made : GraphBuilder Ref → ℕ → V → ℕ → GraphBuilder Ref → Type 0
  Made g c v n g2 = After g g2 c × Denotes cid fact_of apply g2.b.nodes n v

  pub graph_derived-Made :
      (op : Str) (ins : List NodeInput) (vs : List (Str × V)) (g : GraphBuilder Ref)
      → Sound g
      → length g.b.nodes < 2 ^ 32
      → DenoteAll cid fact_of apply g.b.nodes ins vs
      → Returns (Made g 1 (apply op vs)) (graph_derived op ins g)
  unfolding graph_derived
  graph_derived-Made op ins vs g s small d =
      let n = length g.b.nodes in
      let x : Node Ref = record { value = none; op = op; inputs = ins } in
      let before = InputsBefore-first_forward n ins (DenoteAll-before d) in
      let grown = Grows-one g.b.nodes x in
      let here : Denotes cid fact_of apply (g.b.nodes ++ x ∷ []) n (apply op vs) =
        a_task x vs (get_elem?-last g.b.nodes x) refl
          (DenoteAll-append cid fact_of apply (x ∷ []) d) refl in
      subst (λ r. Returns (Made g 1 (apply op vs)) (built g r))
        (sym (derived_ok g.b op ins n (omega (arith, small)) before))
        (Sound-grows g (record { nodes = g.b.nodes ++ x ∷ [] }) 1 s grown, here)

  pub graph_derived-last :
      (op : Str) (ins : List NodeInput) (vs : List (Str × V)) (g : GraphBuilder Ref)
      → length g.b.nodes < 2 ^ 32
      → DenoteAll cid fact_of apply g.b.nodes ins vs
      → Returns (λ n g2. suc n ≡ length g2.b.nodes) (graph_derived op ins g)
  unfolding graph_derived
  graph_derived-last op ins vs g small d =
      let n = length g.b.nodes in
      let x : Node Ref = record { value = none; op = op; inputs = ins } in
      let before = InputsBefore-first_forward n ins (DenoteAll-before d) in
      subst (λ r. Returns (λ n g2. suc n ≡ length g2.b.nodes) (built g r))
        (sym (derived_ok g.b op ins n (omega (arith, small)) before))
        (omega (arith, length-append g.b.nodes (x ∷ [])))

  Returns-must :
      (P : ℕ → GraphBuilder Ref → Type 0) (r : Run Ref ℕ) → Returns P r → Returns P (must r)
  Returns-must P (done (ok x, g)) h = h
  Returns-must P (done (err e, g)) h = absurd h
  Returns-must P out_of_fuel h = absurd h
  Returns-must P panic h = absurd h

  pub must_derived-Made :
      (prefix op : Str) (ins : List NodeInput) (vs : List (Str × V)) (g : GraphBuilder Ref)
      → Sound g
      → length g.b.nodes < 2 ^ 32
      → DenoteAll cid fact_of apply g.b.nodes ins vs
      → Returns (Made g 1 (apply (prefix ++ bytes "." ++ op) vs)) (must_derived prefix op ins g)
  unfolding must_derived
  must_derived-Made prefix op ins vs g s small d =
      Returns-must (Made g 1 (apply (prefix ++ bytes "." ++ op) vs))
        (graph_derived (prefix ++ bytes "." ++ op) ins g)
        (graph_derived-Made (prefix ++ bytes "." ++ op) ins vs g s small d)

  pub graph_fact-Made :
      (sync : Ref → Bool) (r : Ref) (g : GraphBuilder Ref)
      → sync r ≡ true
      → Sound g
      → length g.b.nodes < 2 ^ 32
      → Returns (Made g 1 (fact_of (cid r))) (graph_fact sync r g)
  unfolding graph_fact
  graph_fact-Made sync r g e s small =
      let n = length g.b.nodes in
      let x : Node Ref = record { value = some r; op = []; inputs = [] } in
      let here : Denotes cid fact_of apply (g.b.nodes ++ x ∷ []) n (fact_of (cid r)) =
        a_fact x r (get_elem?-last g.b.nodes x) refl refl in
      subst (λ z. Returns (Made g 1 (fact_of (cid r))) (built g z))
        (sym (fact_ok sync g.b r e (omega (arith, small))))
        (Sound-grows g (record { nodes = g.b.nodes ++ x ∷ [] }) 1 s (Grows-one g.b.nodes x), here)

  pub graph_fact-last :
      (sync : Ref → Bool) (r : Ref) (g : GraphBuilder Ref)
      → sync r ≡ true
      → length g.b.nodes < 2 ^ 32
      → Returns (λ n g2. suc n ≡ length g2.b.nodes) (graph_fact sync r g)
  unfolding graph_fact
  graph_fact-last sync r g e small =
      let x : Node Ref = record { value = some r; op = []; inputs = [] } in
      subst (λ z. Returns (λ n g2. suc n ≡ length g2.b.nodes) (built g z))
        (sym (fact_ok sync g.b r e (omega (arith, small))))
        (omega (arith, length-append g.b.nodes (x ∷ [])))
