-- ===== src/Examples/Lowering.antt =====
-- Queries, the VFS, selections and cycles at concrete inputs.
use want.Common.{ℕ, ◌≡◌, ◌≢◌, refl, true, false, Bool, none, some, List, [], ◌∷◌}
use want.Common.Text.{Str, bytes, str_eq}
use want.Common.Outcome.{done}
use want.Common.Result.{ok, err}
use want.Stores.Getters.{new_void}
use want.StringSets.Sets.{Set, unit, suffix, contains, deep_equal}
use want.WantCfg.{of_prefix, has_path}
use want.WantCfg.Exprs.{
  ConfigExpr, config_expr, no_tree, no_compute, a_compute, config_input, no_config_inputs,
}
use want.WantC.Exprs.{Expr, selection, value}
use want.WantC.Paths.{path_from, is_relative_path, path_from_above}
use want.WantC.Queries.{set_from_query, resolved, contains-set_from_query}
use want.WantC.Vfs.{
  Entry, VfsNode, vfs_node, no_children, child, node_path, vfs_get, vfs_add, closest, all_ents,
  filter, meets, push_entry, update_at,
}
use want.WantC.Lookups.{Reached, start, added, vfs_get_lem, vfs_add_unseen}
use want.WantC.Compile.{Backend}
use want.WantC.Lower.{Modules, replace_selections}
use want.WantC.Lowered.{replace_selections_mixed}
use want.WantC.Cycles.{detect_cycles}
use want.WantC.Silent.{detect_cycles_silent}

contains-set_from_query_example :
    contains (set_from_query (bytes "d/f.want") (of_prefix (bytes "./e"))) (bytes "d/e/x")
    ≡ has_path (resolved (bytes "d/f.want") (of_prefix (bytes "./e"))) (bytes "d/e/x")
contains-set_from_query_example =
    contains-set_from_query (bytes "d/f.want") (of_prefix (bytes "./e")) (bytes "d/e/x")

abbrev an_entry : Set → Expr ℕ → Entry (Expr ℕ)
an_entry k v = record {
  k = k;
  v = v;
  place_at = [];
  is_submodule = false;
  defined_in = [];
  defined_num = 0;
}

abbrev first_entry : Entry (Expr ℕ)
first_entry = an_entry (unit (bytes "a")) (selection (bytes "m") true (unit (bytes "a")))

-- A VFS with one entry, which selects itself.
abbrev one_entry : VfsNode (Expr ℕ)
one_entry =
    vfs_node none (child (bytes "a") (vfs_node none no_children (first_entry ∷ [])) no_children) []

one_entry-Reached : Reached one_entry
unfolding vfs_add
one_entry-Reached = added 3 first_entry start refl

vfs_get_lem_example :
    vfs_get 3 one_entry (unit (bytes "a"))
    ≡ done (filter (meets (unit (bytes "a"))) (all_ents (closest one_entry (bytes "a" ∷ []))))
unfolding deep_equal node_path
vfs_get_lem_example =
    vfs_get_lem 3 one_entry (unit (bytes "a")) (bytes "a" ∷ []) one_entry-Reached refl refl

detect_cycles_silent_example :
    detect_cycles 3 5 one_entry (first_entry.v ∷ []) ≢ done (err (bytes "a" ∷ []))
detect_cycles_silent_example =
    detect_cycles_silent 3 5 one_entry (first_entry.v ∷ []) (bytes "a" ∷ [])

abbrev pub toy_backend : Backend ℕ
toy_backend = record {
  post_blob = λ x. some 1;
  post_tree = λ es. some 2;
  walk_refs = λ r. some [];
  src = new_void;
  sync = λ r. true;
  clean = λ p. p;
  decode_id = λ s. some s;
  marshal = λ q. [];
}

abbrev pub a_snippet : ConfigExpr ℕ
a_snippet =
    config_expr none no_tree none
      (a_compute (bytes "o") (
        config_input (bytes "x") (config_expr (some (bytes "hi")) no_tree none no_compute none) 0
          no_config_inputs))
      none

abbrev pub toy_modules : Modules ℕ
toy_modules = record {
  ground = 7;
  sub_mods = [];
  cid = λ r. r ∷ [];
  hash = λ x. x;
  filter_paths = λ r f. some 9;
  vfss = (7 ∷ [], one_entry) ∷ [];
}

-- Everything below "s", of the module's sources or of its outputs.
abbrev pub a_selection : Bool → Expr ℕ
a_selection derived = selection (7 ∷ []) derived (suffix (bytes "s"))

abbrev pub after_selection : List (Str × Expr ℕ)
after_selection = (bytes "*s", value 9) ∷ (9 ∷ [], value 9) ∷ []

replaced :
    replace_selections toy_backend toy_modules 3 3 [] (a_selection false)
    ≡ done (ok (value 9, after_selection))
unfolding replace_selections
replaced = refl

replace_selections_mixed_example :
    replace_selections toy_backend toy_modules 3 3 after_selection (a_selection true)
    ≡ done (ok (value 9, after_selection))
replace_selections_mixed_example =
    replace_selections_mixed toy_backend toy_modules 3 2 [] after_selection (7 ∷ []) (7 ∷ []) false
      true (suffix (bytes "s")) (value 9) replaced

abbrev all_c : Entry (Expr ℕ)
all_c = an_entry (suffix (bytes ".c")) (value 1)

abbrev file_b : Entry (Expr ℕ)
file_b = an_entry (unit (bytes "a/b")) (value 2)

abbrev file_c : Entry (Expr ℕ)
file_c = an_entry (unit (bytes "a/x.c")) (value 3)

abbrev node_a : VfsNode (Expr ℕ)
node_a = vfs_node none (child (bytes "b") (vfs_node none no_children (file_b ∷ [])) no_children) []

-- The entry under the empty name has every path that ends in ".c".
abbrev with_suffix : VfsNode (Expr ℕ)
with_suffix =
    vfs_node none
      (child [] (vfs_node none no_children (all_c ∷ [])) (child (bytes "a") node_a no_children)) []

with_suffix-Reached : Reached with_suffix
unfolding vfs_add
with_suffix-Reached = added 3 file_b (added 3 all_c start refl) refl

vfs_add_unseen_example :
    vfs_add 3 with_suffix file_c
    ≡ done (ok (update_at (push_entry file_c) with_suffix (bytes "a" ∷ bytes "x.c" ∷ [])))
unfolding deep_equal node_path all_ents meets str_eq
vfs_add_unseen_example =
    vfs_add_unseen 3 none
      (child [] (vfs_node none no_children (all_c ∷ [])) (child (bytes "a") node_a no_children)) []
      node_a file_c (bytes "a") (bytes "x.c" ∷ []) with_suffix-Reached refl refl refl refl

path_from_up : path_from (bytes "a/b/c.want") (bytes "../x") ≡ bytes "x"
unfolding is_relative_path
path_from_up = path_from_above (bytes "a/b/c.want") (bytes "x") refl
