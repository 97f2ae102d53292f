-- ===== src/Common/Strings.antt =====
-- Functions of Go's packages strings and path.
use Prim.Native.Nat.{ℕ}
use mathlib.Core.Bool.{Bool, ◌&&◌, ◌||◌}
use mathlib.Core.List.{List, [], ◌∷◌, ◌++◌, reverse}
use want.Common.Tests.{◌==◌, if◌then◌else◌}
use want.Common.Text.{Str, bytes, str_eq, has_prefix}

-- `strings.Split(s, sep)` for a separator of one byte: the pieces between the separators.
unfoldable pub split_on : ℕ → Str → Str → List Str
split_on sep piece [] = piece ∷ []
split_on sep piece (c ∷ s) =
    if c == sep then piece ∷ split_on sep [] s else split_on sep (piece ++ c ∷ []) s

-- `strings.Join`.
unfoldable pub join : Str → List Str → Str
join sep [] = []
join sep (p ∷ []) = p
join sep (p ∷ q ∷ ps) = p ++ (sep ++ join sep (q ∷ ps))

-- `strings.TrimLeft(s, "/")`.
unfoldable pub trim_left : Str → Str
trim_left [] = []
trim_left (c ∷ s) = let rest = trim_left s in if c == b'/' then rest else c ∷ s

-- `strings.Trim(s, "/")`.
unfoldable pub trim : Str → Str
unfolding trim_left
trim s = reverse (trim_left (reverse (trim_left s)))

-- One element of a path in `path.Clean`, after the elements that are kept, the last one first.
unfoldable pub clean_step : Bool → List Str → Str → List Str
unfolding str_eq
clean_step rooted [] e =
    if str_eq e [] || str_eq e (bytes ".") || (rooted && str_eq e (bytes "..")) then [] else e ∷ []
clean_step rooted (k ∷ ks) e =
    if str_eq e [] || str_eq e (bytes ".")
    then k ∷ ks
    else if str_eq e (bytes "..")
    then (if str_eq k (bytes "..") then e ∷ k ∷ ks else ks)
    else e ∷ k ∷ ks

unfoldable pub clean_elements : Bool → List Str → List Str → List Str
unfolding clean_step
clean_elements rooted kept [] = reverse kept
clean_elements rooted kept (e ∷ es) = clean_elements rooted (clean_step rooted kept e) es

abbrev or_dot : Str → Str
or_dot [] = bytes "."
or_dot (c ∷ s) = c ∷ s

-- `path.Clean`.
unfoldable pub path_clean : Str → Str
unfolding has_prefix split_on clean_elements join
path_clean p =
    let rooted = has_prefix p (bytes "/") in
    let out = join (bytes "/") (clean_elements rooted [] (split_on b'/' [] p)) in
    if rooted then b'/' ∷ out else or_dot out

-- The part of a path up to its last slash.
unfoldable pub up_to_slash : Str → Str
up_to_slash [] = []
up_to_slash (c ∷ s) = elim (up_to_slash s) [
  | [] ↦ (if c == b'/' then c ∷ [] else [])
  | d ∷ r ↦ c ∷ d ∷ r
]

-- `path.Dir`.
unfoldable pub path_dir : Str → Str
unfolding up_to_slash path_clean
path_dir p = path_clean (up_to_slash p)

-- `path.Join` of two elements; empty ones are left out.
unfoldable pub path_join : Str → Str → Str
unfolding path_clean
path_join [] [] = []
path_join [] (c ∷ q) = path_clean (c ∷ q)
path_join (c ∷ p) [] = path_clean (c ∷ p)
path_join (c ∷ p) (d ∷ q) = path_clean ((c ∷ p) ++ (b'/' ∷ d ∷ q))
