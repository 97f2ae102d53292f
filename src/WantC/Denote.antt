-- ===== src/WantC/Denote.antt =====
-- What a node of a graph (internal/wantdag) and an expression (expr.go) stand for: a value. `fact_of` is the value
-- of a fact by its CID, `apply` what an operation makes of its named inputs.
use mathlib.Core.Path.{ap₂}
use want.Common.{
  ℕ, zero, suc, if◌then◌else◌, ap, ◌≡◌, refl, none, some, List, [], ◌∷◌, ◌++◌, get_elem?,
}
use want.Common.Text.{Str, bytes, str_eq}
use want.WantDag.Nodes.{NodeInput, Node}
use want.WantC.Exprs.{Expr, Inputs, compute, selection, value, no_inputs, input}
use want.WantC.Keys.{Same, SameInputs}

module _ {Ref V : Type 0} (cid : Ref → Str) (fact_of : Str → V)
    (apply : Str → List (Str × V) → V) where
  mutual
    -- Node `n` of a graph has the value `v`.
    pub data Denotes (xs : List (Node Ref)) : ℕ → V → Type 0 where
      a_fact :
          {n : ℕ} {v : V} (x : Node Ref) (r : Ref)
          → get_elem? xs n ≡ some x
          → x.value ≡ some r
          → v ≡ fact_of (cid r)
          → Denotes xs n v
      a_task :
          {n : ℕ} {v : V} (x : Node Ref) (vs : List (Str × V))
          → get_elem? xs n ≡ some x
          → x.value ≡ none
          → DenoteAll xs x.inputs vs
          → v ≡ apply x.op vs
          → Denotes xs n v

    pub data DenoteAll (xs : List (Node Ref)) : List NodeInput → List (Str × V) → Type 0 where
      none_left : DenoteAll xs [] []
      one_more :
          {i : NodeInput} {ins : List NodeInput} {v : V} {vs : List (Str × V)}
          → Denotes xs i.node v
          → DenoteAll xs ins vs
          → DenoteAll xs (i ∷ ins) ((i.name, v) ∷ vs)

  get_elem?-append :
      (xs ys : List (Node Ref)) (n : ℕ) (x : Node Ref)
      → get_elem? xs n ≡ some x
      → get_elem? (xs ++ ys) n ≡ some x
  get_elem?-append [] ys n x h = cc
  get_elem?-append (y ∷ xs) ys zero x h = h
  get_elem?-append (y ∷ xs) ys (suc n) x h = get_elem?-append xs ys n x h

  mutual
    -- Nodes keep their values when the graph grows.
    pub Denotes-append :
        {xs : List (Node Ref)} {n : ℕ} {v : V} (ys : List (Node Ref))
        → Denotes xs n v
        → Denotes (xs ++ ys) n v
    Denotes-append {xs} {n} ys (a_fact x r h e w) = a_fact x r (get_elem?-append xs ys n x h) e w
    Denotes-append {xs} {n} ys (a_task x vs h e d w) =
        a_task x vs (get_elem?-append xs ys n x h) e (DenoteAll-append ys d) w

    pub DenoteAll-append :
        {xs : List (Node Ref)} {ins : List NodeInput} {vs : List (Str × V)} (ys : List (Node Ref))
        → DenoteAll xs ins vs
        → DenoteAll (xs ++ ys) ins vs
    DenoteAll-append ys none_left = none_left
    DenoteAll-append ys (one_more d ds) = one_more (Denotes-append ys d) (DenoteAll-append ys ds)

  -- The nodes of a list, each with its value.
  pub data DenoteList (xs : List (Node Ref)) : List ℕ → List V → Type 0 where
    no_nodes : DenoteList xs [] []
    a_node :
        {n : ℕ} {ns : List ℕ} {v : V} {vs : List V}
        → Denotes xs n v
        → DenoteList xs ns vs
        → DenoteList xs (n ∷ ns) (v ∷ vs)

  pub DenoteList-append :
      {xs : List (Node Ref)} {ns : List ℕ} {vs : List V} (ys : List (Node Ref))
      → DenoteList xs ns vs
      → DenoteList (xs ++ ys) ns vs
  DenoteList-append ys no_nodes = no_nodes
  DenoteList-append ys (a_node d ds) = a_node (Denotes-append ys d) (DenoteList-append ys ds)

  module _ (merge : List V → V) (blob_of : Str → V) (clean : Str → Str) where
    abbrev pub placed : Str → V → V
    placed to v =
        if str_eq (clean to) []
        then v
        else apply (bytes "glfs.place") ((bytes "x", v) ∷ (bytes "path", blob_of (clean to)) ∷ [])

    abbrev pub merged : List V → List (Str × V)
    merged [] = []
    merged (v ∷ []) = ([], v) ∷ []
    merged (v ∷ w ∷ vs) = ([], merge (v ∷ w ∷ vs)) ∷ []

    unfoldable mutual
      -- The value of an expression: that of the reference, or what the operation makes of its inputs, each placed where it goes and all of them merged.
      pub meaning : V → Expr Ref → V
      meaning other (value r) = fact_of (cid r)
      meaning other (selection m d s) = other
      meaning other (compute op ins) = apply op (merged (layers other ins))

      pub layers : V → Inputs Ref → List V
      layers other no_inputs = []
      layers other (input to from mode ins) = placed to (meaning other from) ∷ layers other ins

    mutual
      unfolding meaning layers

      -- Modes, and references beyond their CID, make no difference to the value.
      pub meaning-Same :
          (other : V) (e f : Expr Ref) → Same cid e f → meaning other e ≡ meaning other f
      meaning-Same other (compute op ins) (compute op2 ins2) h =
          ap₂ (λ o vs. apply o (merged vs)) h.0 (layers-Same other ins ins2 h.1)
      meaning-Same other (compute op ins) (selection m d s) h = absurd h
      meaning-Same other (compute op ins) (value r) h = absurd h
      meaning-Same other (selection m d s) f h = absurd h
      meaning-Same other (value r) (compute op2 ins2) h = absurd h
      meaning-Same other (value r) (selection m d s) h = absurd h
      meaning-Same other (value r) (value r2) h = ap fact_of h

      pub layers-Same :
          (other : V) (ins ins2 : Inputs Ref)
          → SameInputs cid ins ins2
          → layers other ins ≡ layers other ins2
      layers-Same other no_inputs no_inputs h = refl
      layers-Same other no_inputs (input to2 from2 mode2 ins2) h = absurd h
      layers-Same other (input to from mode ins) no_inputs h = absurd h
      layers-Same other (input to from mode ins) (input to2 from2 mode2 ins2) h =
          ap₂ ◌∷◌ (ap₂ placed h.0 (meaning-Same other from from2 h.1))
            (layers-Same other ins ins2 h.2)
