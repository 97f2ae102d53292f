-- ===== src/WantC/Queries.antt =====
-- `SetFromQuery` (selections.go).
use want.Common.{none, some, List, [], ◌∷◌, ◌≡◌, refl, ap, ◌∙◌}
use mathlib.Core.Path.{ap₂}
use want.Common.Text.{Str}
use want.StringSets.Sets.{Set, empty, unit, prefix, suffix, not, contains}
use want.StringSets.Simplify.{simplified}
use want.StringSets.Combine.{union, intersection}
use want.StringSets.PathSets.{from_path_set, from_not, from_path_sets, contains-from_path_set}
use want.WantCfg.{
  PathSet, PathSets, MaybeSet, MaybeSets, path_set, no_set, a_set, absent, present, nil, cons,
  has_path,
}
use want.WantC.Paths.{path_from}

unfoldable mutual
  unfolding path_from

  -- `SetFromQuery`.
  pub set_from_query : Str → PathSet → Set
  set_from_query from (path_set (some k) p s n u i) = unit (path_from from k)
  set_from_query from (path_set none (some p) s n u i) = prefix (path_from from p)
  set_from_query from (path_set none none (some s) n u i) = suffix s
  set_from_query from (path_set none none none n (present qs) i) =
      simplified (union (sets_from_queries from qs))
  set_from_query from (path_set none none none n absent (present qs)) =
      simplified (intersection (sets_from_queries from qs))
  set_from_query from (path_set none none none n absent absent) = not_from_query from n

  -- The cases Not and default.
  pub not_from_query : Str → MaybeSet → Set
  not_from_query from no_set = empty
  not_from_query from (a_set q) = not (set_from_query from q)

  pub sets_from_queries : Str → PathSets → List Set
  sets_from_queries from nil = []
  sets_from_queries from (cons q qs) = set_from_query from q ∷ sets_from_queries from qs

-- The query with each path and each prefix resolved against the file that asks.
abbrev mutual
  pub resolved : Str → PathSet → PathSet
  resolved from (path_set (some k) p s n u i) =
      path_set (some (path_from from k)) none none no_set absent absent
  resolved from (path_set none (some p) s n u i) =
      path_set none (some (path_from from p)) none no_set absent absent
  resolved from (path_set none none (some s) n u i) =
      path_set none none (some s) no_set absent absent
  resolved from (path_set none none none n u i) =
      path_set none none none (resolved_not from n) (resolved_some from u) (resolved_some from i)

  pub resolved_not : Str → MaybeSet → MaybeSet
  resolved_not from no_set = no_set
  resolved_not from (a_set q) = a_set (resolved from q)

  pub resolved_some : Str → MaybeSets → MaybeSets
  resolved_some from absent = absent
  resolved_some from (present qs) = present (resolved_all from qs)

  pub resolved_all : Str → PathSets → PathSets
  resolved_all from nil = nil
  resolved_all from (cons q qs) = cons (resolved from q) (resolved_all from qs)

mutual
  unfolding set_from_query not_from_query sets_from_queries from_path_set from_not from_path_sets

  set_from_query_eq :
      (from : Str) (q : PathSet) → set_from_query from q ≡ from_path_set (resolved from q)
  set_from_query_eq from (path_set (some k) p s n u i) = refl
  set_from_query_eq from (path_set none (some p) s n u i) = refl
  set_from_query_eq from (path_set none none (some s) n u i) = refl
  set_from_query_eq from (path_set none none none n (present qs) i) =
      ap (λ l. simplified (union l)) (sets_from_queries_eq from qs)
  set_from_query_eq from (path_set none none none n absent (present qs)) =
      ap (λ l. simplified (intersection l)) (sets_from_queries_eq from qs)
  set_from_query_eq from (path_set none none none n absent absent) = not_from_query_eq from n

  not_from_query_eq :
      (from : Str) (n : MaybeSet) → not_from_query from n ≡ from_not (resolved_not from n)
  not_from_query_eq from no_set = refl
  not_from_query_eq from (a_set q) = ap not (set_from_query_eq from q)

  sets_from_queries_eq :
      (from : Str) (qs : PathSets)
      → sets_from_queries from qs ≡ from_path_sets (resolved_all from qs)
  sets_from_queries_eq from nil = refl
  sets_from_queries_eq from (cons q qs) =
      ap₂ ◌∷◌ (set_from_query_eq from q) (sets_from_queries_eq from qs)

-- `SetFromQuery` gives a set with exactly the paths of the query, after each path and each prefix in
-- it has been resolved by `PathFrom` against the file that asks.
pub contains-set_from_query :
    (from : Str) (q : PathSet) (x : Str)
    → contains (set_from_query from q) x ≡ has_path (resolved from q) x
contains-set_from_query from q x =
    ap (λ a. contains a x) (set_from_query_eq from q) ∙ contains-from_path_set (resolved from q) x
