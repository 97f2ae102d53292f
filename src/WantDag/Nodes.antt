-- ===== src/WantDag/Nodes.antt =====
-- node.go: nodes, their inputs and the checks on them. `Ref` stands for `glfs.Ref`, and `is_zero`
-- for `CID.IsZero()` of it.
use want.Common.{
  ℕ, ◌==◌, if◌then◌else◌, Bool, true, false, ◌&&◌, ◌||◌, bnot, Option, none, some, List, [], ◌∷◌,
  map,
}
use want.Common.Text.{Str, str_eq}
use want.Common.Order.{str_lt}
use want.Common.Result.{Result, ok, err, ◌>>=◌}

pub record NodeInput : Type 0 where
  pub name : Str
  pub node : ℕ

pub record Node (Ref : Type 0) : Type 0 where
  pub value : Option Ref
  pub op : Str
  pub inputs : List NodeInput

pub data NodeError : Type 0 where
  ambiguous empty_node unsorted repeated many_elements zero_ref : NodeError

-- `strings.Contains(s, "/")`.
abbrev pub has_slash : Str → Bool
has_slash [] = false
has_slash (c ∷ s) = (c == b'/') || has_slash s

-- The first loop of `CheckNodeInputs`.
unfoldable pub check_order : List NodeInput → Result NodeError (Unit {0})
unfolding str_lt str_eq
check_order [] = ok tt
check_order (a ∷ []) = ok tt
check_order (a ∷ b ∷ ins) =
    let rest = check_order (b ∷ ins) in
    if str_lt b.name a.name
    then err unsorted
    else if str_eq b.name a.name
    then err repeated
    else rest

-- The second loop.
unfoldable pub check_names : List NodeInput → Result NodeError (Unit {0})
check_names [] = ok tt
check_names (a ∷ ins) =
    let rest = check_names ins in if has_slash a.name then err many_elements else rest

unfoldable pub check_node_inputs : List NodeInput → Result NodeError (Unit {0})
unfolding check_order check_names
check_node_inputs ins = check_order ins >>= λ _. check_names ins

module _ {Ref : Type 0} where
  unfoldable pub is_fact : Node Ref → Bool
  is_fact n = elim n.value [ none ↦ false | some _ ↦ true ]

  unfoldable pub is_derived : Node Ref → Bool
  unfolding str_eq
  is_derived n = bnot (str_eq n.op [])

  unfoldable pub deps : Node Ref → List ℕ
  deps n = map (λ (i : NodeInput). i.node) n.inputs

  unfoldable pub check_value : (Ref → Bool) → Option Ref → Result NodeError (Unit {0})
  check_value is_zero none = ok tt
  check_value is_zero (some r) = if is_zero r then err zero_ref else ok tt

  -- `Validate`.
  unfoldable pub validate : (Ref → Bool) → Node Ref → Result NodeError (Unit {0})
  unfolding is_fact is_derived check_node_inputs check_value
  validate is_zero n =
      if is_fact n && is_derived n
      then err ambiguous
      else if bnot (is_fact n) && bnot (is_derived n)
      then err empty_node
      else (if is_derived n then check_node_inputs n.inputs else ok tt) >>= λ _.
          check_value is_zero n.value
