-- ===== src/Examples/Graphs.antt =====
-- A fact, and an operation on it: src/internal/wantdag.
use want.Common.{
  ℕ, zero, suc, ◌<◌, ◌≡◌, refl, Bool, true, false, none, some, List, [], ◌∷◌, length, arith,
}
use want.Common.Text.{bytes}
use want.Common.Order.{str_lt}
use want.Common.Result.{ok}
use want.WantJob.Results.{JobResult, zero_result, success}
use want.WantDag.Nodes.{NodeInput, Node, validate}
use want.WantDag.Inputs.{NamesRise}
use want.WantDag.Builder.{
  Builder, add_fact, add_derived, new_builder, finish, build, AcyclicFrom, node_id, finish-Acyclic,
}
use mathlib.Core.Path.{ap₂}
use want.Common.{◌++◌, map, drop, ◌==◌, if◌then◌else◌, Option, ap, sym, ◌∙◌}
use want.Common.Text.{Str}
use want.Common.Decimal.{decimal, number_from, number_from-decimal}
use want.WantDag.Json.{Json, IsJson, write_lines, read_lines, read-write_lines}
use want.WantDag.Wire.{zero_value_test, read_inputs}
use want.WantDag.RoundTrip.{read_forward}
use want.WantDag.Exec.{Backend, update, exec_node, serial_exec_all}
use want.WantDag.Serial.{serial_exec_all_lem}

-- References are numbers, and 0 is the zero reference.
abbrev is_zero : ℕ → Bool
is_zero zero = true
is_zero (suc r) = false

abbrev inputs : List NodeInput
inputs = record { name = bytes "a"; node = 0 } ∷ record { name = bytes "b"; node = 0 } ∷ []

abbrev first : Node ℕ
first = record { value = some 7; op = []; inputs = [] }

abbrev second : Node ℕ
second = record { value = none; op = bytes "glfs.merge"; inputs = inputs }

abbrev graph : List (Node ℕ)
graph = first ∷ second ∷ []

inputs-NamesRise : NamesRise inputs
unfolding str_lt
inputs-NamesRise = ((refl, tt), (tt, tt))

second_valid : validate is_zero second ≡ ok tt
unfolding validate
second_valid = refl

finish-Acyclic_example : AcyclicFrom {Ref = ℕ} 0 (
    finish
      (build (λ _. true) new_builder (add_fact 7 ∷ add_derived (bytes "glfs.merge") inputs ∷ [])))
finish-Acyclic_example =
    finish-Acyclic (λ _. true) (add_fact 7 ∷ add_derived (bytes "glfs.merge") inputs ∷ [])

abbrev one_fact : Builder ℕ
one_fact = record { nodes = first ∷ [] }

abbrev no_comma : Str → Bool
no_comma [] = true
no_comma (c ∷ s) = let rest = no_comma s in if c == b',' then false else rest

abbrev until_comma : Str → Str
until_comma [] = []
until_comma (c ∷ s) = let rest = until_comma s in if c == b',' then [] else c ∷ rest

abbrev from_comma : Str → Str
from_comma [] = []
from_comma (c ∷ s) = let rest = from_comma s in if c == b',' then c ∷ s else rest

abbrev but_last : Str → Str
but_last [] = []
but_last (c ∷ []) = []
but_last (c ∷ d ∷ s) = c ∷ but_last (d ∷ s)

map_same : (xs : List Str) → map (λ x. x) xs ≡ xs
map_same [] = refl
map_same (x ∷ xs) = ap (◌∷◌ x) (map_same xs)

until_comma-append : (s t : Str) → no_comma s ≡ true → until_comma (s ++ b',' ∷ t) ≡ s
until_comma-append [] t h = refl
until_comma-append (c ∷ s) t h = ground (arith, h, until_comma-append s t)

from_comma-append : (s t : Str) → no_comma s ≡ true → from_comma (s ++ b',' ∷ t) ≡ b',' ∷ t
from_comma-append [] t h = refl
from_comma-append (c ∷ s) t h = ground (arith, h, from_comma-append s t)

but_last-append : (s : Str) (c : ℕ) → but_last (s ++ c ∷ []) ≡ s
but_last-append [] c = refl
but_last-append (a ∷ []) c = refl
but_last-append (a ∷ b ∷ s) c = ap (◌∷◌ a) (but_last-append (b ∷ s) c)

-- JSON for names without commas, and lines that keep what they are made of.
abbrev toy_json : Json ℕ (Option ℕ × Str × List Str)
toy_json = record {
  marshal_string = λ s. s;
  unmarshal_string = λ s. some s;
  unmarshal_uint32 = λ d. some (number_from 0 d);
  unmarshal_pair = λ x. some (until_comma (drop 1 x), but_last (drop 2 (from_comma (drop 1 x))));
  encode_node = λ v op raws. (v, op, raws);
  decode_node = λ l. some l;
  compact = λ x. x;
}

toy_json-IsJson : IsJson toy_json (λ s. no_comma s ≡ true)
toy_json-IsJson = record {
  string_back = λ s h. refl;
  uint32_back = λ n h. ap some (number_from-decimal n);
  pair_back = λ s n h.
      ap₂ (λ a b. some (a, but_last (drop 2 b)))
        (until_comma-append s (b' ' ∷ (decimal n ++ bytes "]")) h)
        (from_comma-append s (b' ' ∷ (decimal n ++ bytes "]")) h)
      ∙ ap (λ d. some (s, d)) (but_last-append (decimal n) b']');
  node_back = λ v op ws h k. ap (λ l. some (v, op, l)) (sym (map_same _));
}

read-write_lines_example :
    (ls : List (Option ℕ × Str × List Str)) × (write_lines toy_json is_zero (λ _. true) 0 graph
      ≡ ok ls)
    × (read_lines toy_json (node_id 0) ls ≡ ok graph)
unfolding zero_value_test
read-write_lines_example =
    read-write_lines toy_json (λ s. no_comma s ≡ true) toy_json-IsJson is_zero (λ _. true) 0 graph
      (omega arith) (omega arith) (tt, (inputs-NamesRise, tt)) (refl, (refl, tt))
      (refl, tt, (refl, (refl, (refl, tt)), tt)) (λ l. refl)

read_forward_example :
    (i : NodeInput) × (read_inputs 1 (record { to = bytes "a"; from = 5 } ∷ []) ≡ ok (i ∷ []))
    × (1 < i.node)
read_forward_example = read_forward 1 5 (bytes "a") (omega arith) (omega arith)

-- A job system that answers every task with the reference 7.
abbrev backend : Backend ℕ
backend = record {
  is_tree = λ _. false;
  parse_ref = λ s. elim s [ [] ↦ none | c ∷ _ ↦ some c ];
  marshal_ref = λ r. r ∷ [];
  post_tree = λ _. some 9;
  do_task = λ _. some (record { errcode = 0; root = 7 ∷ []; schema = [] });
  fast_sync = λ _. true;
}

abbrev merged : JobResult
merged = record { errcode = 0; root = 7 ∷ []; schema = [] }

abbrev outcome : ℕ → JobResult
outcome = update (update (λ _. zero_result) 0 (success [] (7 ∷ []))) 1 merged

serial_exec_all_lem_example : exec_node backend (length graph) outcome second ≡ ok (outcome 1)
unfolding serial_exec_all
serial_exec_all_lem_example =
    serial_exec_all_lem backend graph outcome (omega arith) refl 1 second refl
