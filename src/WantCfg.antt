-- ===== src/WantCfg.antt =====
-- src/wantcfg/pathset.go: the path sets of configuration files, and the functions that build them.
-- The fields of the Go struct are optional; a slice that is nil is `absent`.
pub mod Print
pub mod Exprs
use want.Common.{Bool, true, false, ◌&&◌, ◌||◌, bnot, Option, none, some, [], ◌∷◌, ◌++◌, ◌≡◌, arith}
use want.Common.Text.{Str, bytes, str_eq, has_prefix, has_suffix}

mutual
  pub data PathSet : Type 0 where
    path_set : Option Str → Option Str → Option Str → MaybeSet → MaybeSets → MaybeSets → PathSet

  pub data MaybeSet : Type 0 where
    no_set : MaybeSet
    a_set : PathSet → MaybeSet

  pub data MaybeSets : Type 0 where
    absent : MaybeSets
    present : PathSets → MaybeSets

  pub data PathSets : Type 0 where
    nil : PathSets
    cons : PathSet → PathSets → PathSets

-- `Unit`.
unfoldable pub of_unit : Str → PathSet
of_unit x = path_set (some x) none none no_set absent absent

-- `Prefix`.
unfoldable pub of_prefix : Str → PathSet
of_prefix x = path_set none (some x) none no_set absent absent

-- `Suffix`.
unfoldable pub of_suffix : Str → PathSet
of_suffix x = path_set none none (some x) no_set absent absent

-- `Not`.
unfoldable pub of_not : PathSet → PathSet
of_not q = path_set none none none (a_set q) absent absent

-- `Union`, of the slice of its arguments.
unfoldable pub of_union : PathSets → PathSet
of_union qs = path_set none none none no_set (present qs) absent

-- `Intersect`.
unfoldable pub of_intersect : PathSets → PathSet
of_intersect qs = path_set none none none no_set absent (present qs)

abbrev pub pair : PathSet → PathSet → PathSets
pair p q = cons p (cons q nil)

-- `DirPath`.
unfoldable pub dir_path : Str → PathSet
unfolding of_union of_unit of_prefix
dir_path [] = of_union (pair (of_unit []) (of_prefix []))
dir_path (c ∷ x) = of_union (pair (of_unit (c ∷ x)) (of_prefix ((c ∷ x) ++ bytes "/")))

-- `Subtract`.
unfoldable pub subtract : PathSet → PathSet → PathSet
unfolding of_intersect of_not
subtract l r = of_intersect (pair l (of_not r))

-- The paths that a path set stands for. The first field that is set decides, in the order in which
-- `FromPathSet` looks at them.
unfoldable mutual
  pub has_path : PathSet → Str → Bool
  has_path (path_set (some k) p s n u i) x = str_eq k x
  has_path (path_set none (some p) s n u i) x = has_prefix x p
  has_path (path_set none none (some s) n u i) x = has_suffix x s
  has_path (path_set none none none n (present qs) i) x = any_has qs x
  has_path (path_set none none none n absent (present qs)) x = all_have qs x
  has_path (path_set none none none n absent absent) x = has_not n x

  pub has_not : MaybeSet → Str → Bool
  has_not no_set x = false
  has_not (a_set q) x = bnot (has_path q x)

  pub any_has : PathSets → Str → Bool
  any_has nil x = false
  any_has (cons q qs) x = has_path q x || any_has qs x

  pub all_have : PathSets → Str → Bool
  all_have nil x = true
  all_have (cons q qs) x = has_path q x && all_have qs x

-- `Subtract` has the paths of its first argument that the second does not have.
pub has_path-subtract :
    (l r : PathSet) (x : Str) → has_path (subtract l r) x ≡ (has_path l x && bnot (has_path r x))
unfolding has_path has_not any_has all_have subtract
has_path-subtract l r x = ground arith
