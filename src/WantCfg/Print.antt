-- ===== src/WantCfg/Print.antt =====
-- `PathSet.String` (src/wantcfg/pathset.go). Bytes of 128 and more are taken to be printable, as in text.
use want.Common.{ℕ, ◌==◌, if◌then◌else◌, ltb, ◌||◌, none, some, List, [], ◌∷◌, ◌++◌}
use want.Common.Strings.{join}
use want.Common.Text.{Str, bytes}
use want.Common.Hex.{hex_padded}
use want.WantCfg.{PathSet, PathSets, path_set, no_set, a_set, absent, present, nil, cons}

-- `%q` of one byte.
unfoldable pub quote_byte : ℕ → Str
unfolding hex_padded
quote_byte c =
    if c == b'"'
    then bytes "\\\""
    else if c == b'\\'
    then bytes "\\\\"
    else if c == 7
    then bytes "\\a"
    else if c == 8
    then bytes "\\b"
    else if c == 12
    then bytes "\\f"
    else if c == 10
    then bytes "\\n"
    else if c == 13
    then bytes "\\r"
    else if c == 9
    then bytes "\\t"
    else if c == 11
    then bytes "\\v"
    else if ltb c 32 || c == 127
    then bytes "\\x" ++ hex_padded 2 c
    else c ∷ []

unfoldable pub quote_bytes : Str → Str
unfolding quote_byte
quote_bytes [] = []
quote_bytes (c ∷ s) = quote_byte c ++ quote_bytes s

-- `%q`.
unfoldable pub quote : Str → Str
unfolding quote_bytes
quote s = b'"' ∷ quote_bytes s ++ b'"' ∷ []

unfoldable mutual
  unfolding quote join

  -- `String`.
  pub path_set_string : PathSet → Str
  path_set_string (path_set (some k) p s n u i) = bytes "{" ++ quote k ++ bytes "}"
  path_set_string (path_set none (some p) s n u i) = bytes "(prefix " ++ quote p ++ bytes ")"
  path_set_string (path_set none none (some s) n u i) = bytes "(suffix " ++ quote s ++ bytes ")"
  path_set_string (path_set none none none (a_set q) u i) =
      bytes "(NOT " ++ path_set_string q ++ bytes ")"
  path_set_string (path_set none none none no_set u (present qs)) =
      bytes "(" ++ join (bytes " & ") (path_set_strings qs) ++ bytes ")"
  path_set_string (path_set none none none no_set (present qs) absent) =
      bytes "(" ++ join (bytes " | ") (path_set_strings qs) ++ bytes ")"
  path_set_string (path_set none none none no_set absent absent) = bytes "{}"

  pub path_set_strings : PathSets → List Str
  path_set_strings nil = []
  path_set_strings (cons q qs) = path_set_string q ∷ path_set_strings qs
