-- ===== src/Examples/Sets.antt =====
-- Sets of paths as a module's statements name them: src/internal/stringsets and src/wantcfg.
use want.Common.{◌≡◌, refl, true, false, List, [], ◌∷◌, arith}
use want.Common.Text.{Str, bytes}
use want.Common.Outcome.{done, panic}
use want.WantCfg.{PathSet, of_unit, dir_path, subtract, has_path}
use want.StringSets.Sets.{Set, unit, prefix, suffix, not, and, or, size, contains}
use want.StringSets.Methods.{intersects, superset}
use want.StringSets.Simplify.{simplified, decide_intersects, decide_superset}
use want.StringSets.Meaning.{
  contains-simplified, decide_intersects-disjoint, decide_superset-covers,
}
use want.StringSets.Bounding.{bounding_within}
use want.StringSets.BoundingUnion.{IsBound, bounding_within-IsUnion}
use want.StringSets.PathSets.{from_path_set, to_path_set, contains-from_path_set, from-to_path_set}
use want.StringSets.Rewrites.{set_from_glob}

-- A directory, a file in it, and the directory without the file.
abbrev docs : Set
docs = or (unit (bytes "docs")) (prefix (bytes "docs/"))

abbrev page : Set
page = unit (bytes "docs/a.md")

abbrev others : Set
others = and docs (not page)

abbrev texts : Set
texts = and (not (or page (unit (bytes "x")))) (and docs (suffix (bytes ".md")))

texts-simplified : contains (simplified texts) (bytes "docs/b.md") ≡ true
unfolding simplified contains superset intersects
texts-simplified = refl

contains-simplified_example :
    contains (simplified texts) (bytes "docs/b.md") ≡ contains texts (bytes "docs/b.md")
contains-simplified_example = contains-simplified texts (bytes "docs/b.md")

decide_intersects-disjoint_example : contains (prefix (bytes "src/")) (bytes "docs/a.md") ≡ false
unfolding decide_intersects contains
decide_intersects-disjoint_example =
    decide_intersects-disjoint docs (prefix (bytes "src/")) refl (bytes "docs/a.md") refl

decide_superset-covers_example : contains docs (bytes "docs/a.md") ≡ true
unfolding decide_superset contains
decide_superset-covers_example = decide_superset-covers docs page refl (bytes "docs/a.md") refl

abbrev four : List Set
four = page ∷ docs ∷ others ∷ prefix (bytes "src/") ∷ []

bounding_within-IsUnion_example : (p : Str) × (bounding_within 5 docs ≡ done p) × IsBound docs p
unfolding size
bounding_within-IsUnion_example = bounding_within-IsUnion 5 docs (tt, tt) (omega arith)

abbrev query : PathSet
query = subtract (dir_path (bytes "docs")) (of_unit (bytes "docs/a.md"))

contains-from_path_set_example :
    contains (from_path_set query) (bytes "docs/b.md") ≡ has_path query (bytes "docs/b.md")
contains-from_path_set_example = contains-from_path_set query (bytes "docs/b.md")

from-to_path_set_example :
    (q : PathSet) × (to_path_set others ≡ done q)
    × ((x : Str) → contains (from_path_set q) x ≡ contains others x)
from-to_path_set_example = from-to_path_set others refl

set_from_glob_one_star : set_from_glob (bytes "docs/*.md") ≡ panic
unfolding set_from_glob
set_from_glob_one_star = refl
