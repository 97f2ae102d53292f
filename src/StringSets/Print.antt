-- ===== src/StringSets/Print.antt =====
-- The `String` methods of the set types (set.go, unit.go, ix.go, not.go, boolean.go).
use want.Common.{[], ◌∷◌, ◌++◌}
use want.Common.Text.{Str, bytes}
use want.Common.Outcome.{Outcome, done, ◌>>=◌}
use want.StringSets.Sets.{Set, top, empty, unit, prefix, suffix, not, and, or}
use want.StringSets.PathSets.{to_path_set}
use want.WantCfg.Print.{path_set_string}

unfoldable pub printed : Set → Outcome Str
unfolding to_path_set path_set_string
printed a = do q ← to_path_set a; done (path_set_string q)

unfoldable pub set_string : Set → Outcome Str
unfolding printed
set_string top = done (240 ∷ 157 ∷ 144 ∷ 148 ∷ [])
set_string empty = done (226 ∷ 136 ∷ 133 ∷ [])
set_string (suffix s) = done (bytes "*" ++ s)
set_string (unit k) = printed (unit k)
set_string (prefix p) = printed (prefix p)
set_string (not a) = printed (not a)
set_string (and l r) = printed (and l r)
set_string (or l r) = printed (or l r)
