-- ===== src/WantDag/Inputs.antt =====
-- What `CheckNodeInputs` and `Validate` establish.
use want.Common.{
  ◌≡◌, refl, ap, Bool, true, false, none, some, List, [], ◌∷◌, ◌↔◌, ◌⊎◌, inl, inr, ◌≢◌,
  Option-cases, Bool-cases, arith,
}
use want.Common.Text.{Str, str_eq, str_eq-eq, str_eq_refl}
use want.Common.Order.{str_lt, str_lt_trans, str_lt-total, str_lt-asymm}
use want.Common.Result.{ok, bind_ok}
use want.WantDag.Nodes.{
  NodeInput, Node, has_slash, check_order, check_names, check_node_inputs, is_fact, is_derived,
  check_value, validate,
}

-- Every later name is greater.
abbrev pub AllAbove : Str → List NodeInput → Type 0
AllAbove s [] = Unit
AllAbove s (a ∷ ins) = (str_lt s a.name ≡ true) × AllAbove s ins

-- The names rise, so that no two of them are equal.
abbrev pub NamesRise : List NodeInput → Type 0
NamesRise [] = Unit
NamesRise (a ∷ ins) = AllAbove a.name ins × NamesRise ins

-- Each name is one path element.
abbrev pub NamesSingle : List NodeInput → Type 0
NamesSingle [] = Unit
NamesSingle (a ∷ ins) = (has_slash a.name ≡ false) × NamesSingle ins

AllAbove-trans :
    (s t : Str) (ins : List NodeInput) → str_lt s t ≡ true → AllAbove t ins → AllAbove s ins
AllAbove-trans s t [] h k = tt
AllAbove-trans s t (a ∷ ins) h k = (str_lt_trans s t a.name h k.0, AllAbove-trans s t ins h k.1)

check_order-NamesRise : (ins : List NodeInput) → check_order ins ≡ ok tt → NamesRise ins
unfolding check_order
check_order-NamesRise [] h = tt
check_order-NamesRise (a ∷ []) h = (tt, tt)
check_order-NamesRise (a ∷ b ∷ ins) h =
    let rest = check_order-NamesRise (b ∷ ins) (ground arith) in
    let less : str_lt a.name b.name ≡ true =
      str_lt-total b.name a.name (ground arith) (ground arith) in
    ((less, AllAbove-trans a.name b.name ins less rest.0), rest)

NamesRise-check_order : (ins : List NodeInput) → NamesRise ins → check_order ins ≡ ok tt
unfolding check_order
NamesRise-check_order [] h = refl
NamesRise-check_order (a ∷ []) h = refl
NamesRise-check_order (a ∷ b ∷ ins) h =
    ground (arith, NamesRise-check_order (b ∷ ins) h.1, str_lt-asymm a.name b.name)

check_names-NamesSingle : (ins : List NodeInput) → (check_names ins ≡ ok tt) ↔ NamesSingle ins
unfolding check_names
check_names-NamesSingle [] = (λ h. tt, λ h. refl)
check_names-NamesSingle (a ∷ ins) =
    let rest = check_names-NamesSingle ins in
    (λ h. (ground arith, rest.0 (ground arith)), λ h. ground (arith, rest.1 h.1))

-- `CheckNodeInputs` accepts exactly the inputs whose names rise, each of them one path element.
pub check_node_inputs_iff :
    (ins : List NodeInput) → (check_node_inputs ins ≡ ok tt) ↔ (NamesRise ins × NamesSingle ins)
unfolding check_node_inputs
check_node_inputs_iff ins = (
  λ h.
      (let (u, rises, single) = bind_ok _ (check_order ins) h in
        (check_order-NamesRise ins rises, (check_names-NamesSingle ins).0 single)),
  λ h. rw (NamesRise-check_order ins h.0) ((check_names-NamesSingle ins).1 h.1),
)

-- What a node has to be: a fact with a non-zero reference and no operation, or an operation with
-- no value, whose inputs have rising names of one path element each.
abbrev pub IsProper : {Ref : Type 0} → (Ref → Bool) → Node Ref → Type 0
IsProper {Ref} is_zero n =
    ((r : Ref) × (n.value ≡ some r) × (is_zero r ≡ false) × (n.op ≡ []))
    ⊎ ((n.value ≡ none) × (n.op ≢ []) × NamesRise n.inputs × NamesSingle n.inputs)

not_nil : (s : Str) → s ≢ [] → str_eq s [] ≡ false
unfolding str_eq
not_nil [] h = absurd (h refl)
not_nil (c ∷ s) h = refl

-- `Validate` over the fields, with the test of the operation.
validate-IsProper :
    {Ref : Type 0} (is_zero : Ref → Bool) (n : Node Ref)
    → validate is_zero n ≡ ok tt
    → IsProper is_zero n
unfolding validate is_fact is_derived check_value
validate-IsProper is_zero n h = elim (Option-cases n.value) [
  | inl e ↦ elim (Bool-cases (str_eq n.op [])) [
    | inl same ↦ absurd (ground arith)
    | inr other ↦
        let (rises, single) = (check_node_inputs_iff n.inputs).0 (ground arith) in
        inr (e, λ empty. cc (ap (λ s. str_eq s []) empty, str_eq_refl []), rises, single)
  ]
  | inr (r, e) ↦ elim (Bool-cases (str_eq n.op [])) [
    | inl same ↦ inl (r, e, ground arith, str_eq-eq n.op [] same)
    | inr other ↦ absurd (ground arith)
  ]
]

-- `Validate` accepts exactly the facts with a non-zero reference and no operation, and the
-- operations without a value whose inputs have rising names of one path element each.
pub validate_iff :
    {Ref : Type 0} (is_zero : Ref → Bool) (n : Node Ref)
    → (validate is_zero n ≡ ok tt) ↔ IsProper is_zero n
unfolding validate is_fact is_derived check_value
validate_iff is_zero n = (
  validate-IsProper is_zero n,
  λ p. elim p [
    | inl (r, e, good, empty) ↦
        let same : str_eq n.op [] ≡ true = rw empty (str_eq_refl []) in ground (arith, same)
    | inr (e, named, rises, single) ↦
        ground (arith, not_nil n.op named, (check_node_inputs_iff n.inputs).1 (rises, single))
  ],
)
