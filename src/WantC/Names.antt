-- ===== src/WantC/Names.antt =====
-- The names of the inputs of `DeriveMerge` (graph_glfs.go), as `CheckNodeInputs` (internal/wantdag/node.go) sees them.
use want.Common.{
  ℕ, zero, suc, ◌+◌, ◌/◌, ◌%◌, ◌≤◌, ◌<◌, ◌≡◌, refl, sym, subst, ◌==◌, true, false, List, [], ◌∷◌,
  ◌++◌, length, arith,
}
use want.Common.Text.{Str}
use want.Common.Order.{str_lt, str_lt-asymm}
use want.Common.Hex.{hex_digit, hex_padded, hex_fixed, hex_fixed-lt, hex_padded_lem}
use want.Common.Result.{ok}
use want.WantDag.Nodes.{has_slash, check_order, check_names, check_node_inputs}
use want.WantC.Graph.{named_layers}

hex_digit-slash : (d : ℕ) → d < 16 → (hex_digit d == b'/') ≡ false
hex_digit-slash d h = ground (arith, h)

has_slash-append :
    (s t : Str) → has_slash s ≡ false → has_slash t ≡ false → has_slash (s ++ t) ≡ false
has_slash-append [] t h k = k
has_slash-append (c ∷ s) t h k = ground (arith, h, has_slash-append s t (ground (arith, h)) k)

hex_fixed-slash : (w n : ℕ) → has_slash (hex_fixed w n) ≡ false
unfolding hex_fixed
hex_fixed-slash zero n = refl
hex_fixed-slash (suc w) n =
    has_slash-append (hex_fixed w (n / 16)) (hex_digit (n % 16) ∷ []) (hex_fixed-slash w (n / 16))
      (ground (arith, hex_digit-slash (n % 16) (omega arith)))

name-slash : (i : ℕ) → i < 256 → has_slash (hex_padded 2 i) ≡ false
name-slash i h = subst (λ s. has_slash s ≡ false) (sym (hex_padded_lem 1 i h)) (hex_fixed-slash 2 i)

name-lt : (i : ℕ) → suc i < 256 → str_lt (hex_padded 2 i) (hex_padded 2 (suc i)) ≡ true
name-lt i h =
    rw (hex_padded_lem 1 i (omega (arith, h)), hex_padded_lem 1 (suc i) h)
      (hex_fixed-lt 2 i (suc i) (omega arith) h)

check_order-named :
    (i : ℕ) (ns : List ℕ) → i + length ns ≤ 256 → check_order (named_layers i ns) ≡ ok tt
unfolding check_order named_layers
check_order-named i [] h = refl
check_order-named i (n ∷ []) h = refl
check_order-named i (n ∷ m ∷ ns) h =
    let (a, b) =
      str_lt-asymm (hex_padded 2 i) (hex_padded 2 (suc i)) (name-lt i (omega (arith, h))) in
    rw (a, b) (check_order-named (suc i) (m ∷ ns) (omega (arith, h)))

check_names-named :
    (i : ℕ) (ns : List ℕ) → i + length ns ≤ 256 → check_names (named_layers i ns) ≡ ok tt
unfolding check_names named_layers
check_names-named i [] h = refl
check_names-named i (n ∷ ns) h =
    let name = name-slash i (omega (arith, h)) in
    rw name (check_names-named (suc i) ns (omega (arith, h)))

-- The inputs that `DeriveMerge` names are in strict order and pass `CheckNodeInputs`, for up to 256
-- layers, of which it takes 64: two hexadecimal digits keep the order of the layers.
pub check_node_inputs-named :
    (ns : List ℕ) → length ns ≤ 256 → check_node_inputs (named_layers 0 ns) ≡ ok tt
unfolding check_node_inputs
check_node_inputs-named ns h =
    rw (check_order-named 0 ns (omega (arith, h)), check_names-named 0 ns (omega (arith, h))) refl
