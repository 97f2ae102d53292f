-- ===== src/WantC/Paths.antt =====
-- The functions on paths of compiler.go and selections.go. `clean` stands for `glfs.CleanPath`.
use want.Common.{◌≡◌, refl, Bool, false, ◌||◌, if◌then◌else◌, List, [], ◌∷◌, ◌++◌, drop, arith}
use want.Common.Text.{Str, bytes, str_eq, has_prefix, has_suffix}
use want.Common.Strings.{
  path_dir, path_join, split_on, join, path_clean, up_to_slash, clean_elements, clean_step,
}

-- `PathFrom` of a path that does not begin with "../".
unfoldable pub path_beside : Str → Str → Str
unfolding has_prefix path_dir path_join
path_beside from p = if has_prefix p (bytes "./") then path_join (path_dir from) (drop 2 p) else p

-- `PathFrom`.
unfoldable pub path_from : Str → Str → Str
unfolding str_eq path_dir path_beside
path_from from (a ∷ b ∷ c ∷ p) =
    let above = path_from (path_dir from) p in
    if str_eq (a ∷ b ∷ c ∷ []) (bytes "../") then above else path_beside from (a ∷ b ∷ c ∷ p)
path_from from [] = path_beside from []
path_from from (a ∷ []) = path_beside from (a ∷ [])
path_from from (a ∷ b ∷ []) = path_beside from (a ∷ b ∷ [])

-- `IsRelativePath`.
unfoldable pub is_relative_path : Str → Bool
unfolding has_prefix
is_relative_path p = has_prefix p (bytes "./") || has_prefix p (bytes "../")

-- `IsExprFilePath`.
unfoldable pub is_expr_file_path : Str → Bool
unfolding has_suffix
is_expr_file_path p = has_suffix p (bytes ".want") || has_suffix p (bytes ".want.jsonnet")

-- `IsStmtFilePath`.
unfoldable pub is_stmt_file_path : Str → Bool
unfolding has_suffix
is_stmt_file_path p = has_suffix p (bytes ".wants")

-- All parts but the last.
abbrev pub but_last : List Str → List Str
but_last [] = []
but_last (p ∷ []) = []
but_last (p ∷ q ∷ ps) = p ∷ but_last (q ∷ ps)

-- `parentPath`.
unfoldable pub parent_path : (Str → Str) → Str → Str
unfolding split_on join
parent_path clean p = clean (join (bytes "/") (but_last (split_on b'/' [] (clean p))))

test_from :
    path_from (bytes "a/b/c.libsonnet") (bytes "./c1/target.txt") ≡ bytes "a/b/c1/target.txt"
unfolding path_from path_beside path_dir path_join path_clean up_to_slash clean_elements clean_step
    split_on join str_eq has_prefix
test_from = refl

-- A path that is not relative is the same from everywhere.
path_from_absolute : (from p : Str) → is_relative_path p ≡ false → path_from from p ≡ p
unfolding path_from path_beside is_relative_path has_prefix str_eq
path_from_absolute from [] h = ground (arith, h)
path_from_absolute from (a ∷ []) h = ground (arith, h)
path_from_absolute from (a ∷ b ∷ []) h = ground (arith, h)
path_from_absolute from (a ∷ b ∷ c ∷ p) h = ground (arith, h)

-- `PathFrom` drops a leading "../" and forgets where it started: what follows it is taken from the
-- root of the module, unless it is relative itself.
pub path_from_above :
    (from p : Str) → is_relative_path p ≡ false → path_from from (bytes "../" ++ p) ≡ p
unfolding path_from str_eq
path_from_above from p h = path_from_absolute (path_dir from) p h
