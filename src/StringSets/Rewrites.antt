-- ===== src/StringSets/Rewrites.antt =====
-- `MapPrependPrefix` and `SetFromGlob` (util.go).
use want.Common.{
  ℕ, suc, ◌==◌, if◌then◌else◌, true, false, ◌&&◌, bnot, none, some, List, [], ◌∷◌, ◌++◌, ◌≡◌, refl,
  ◌∙◌, arith, get_elem?, length,
}
use want.Common.Strings.{split_on}
use want.Common.Text.{Str, has_prefix}
use want.Common.Outcome.{Outcome, done, panic, ◌>>=◌}
use want.StringSets.Sets.{Set, top, empty, unit, prefix, suffix, not, and, or, contains}
use want.StringSets.Simplify.{simplify}
use want.StringSets.Meaning.{contains-simplify}

-- `MapPrependPrefix`.
unfoldable pub map_prepend_prefix : Set → Str → Set
unfolding simplify
map_prepend_prefix (or l r) p = or (map_prepend_prefix l p) (map_prepend_prefix r p)
map_prepend_prefix (and l r) p = and (map_prepend_prefix l p) (map_prepend_prefix r p)
map_prepend_prefix (prefix x) p = prefix (p ++ x)
map_prepend_prefix x p = simplify (and x (prefix p))

-- Sets that are built from prefixes by union and intersection.
abbrev pub IsOfPrefixes : Set → Type 0
IsOfPrefixes (prefix x) = Unit
IsOfPrefixes (or l r) = IsOfPrefixes l × IsOfPrefixes r
IsOfPrefixes (and l r) = IsOfPrefixes l × IsOfPrefixes r
IsOfPrefixes _ = ⊥

has_prefix-append_append : (p s q : Str) → has_prefix (p ++ s) (p ++ q) ≡ has_prefix s q
unfolding has_prefix
has_prefix-append_append [] s q = refl
has_prefix-append_append (a ∷ p) s q = ground (arith, has_prefix-append_append p s q)

has_prefix_of-append : (s p q : Str) → has_prefix s (p ++ q) ≡ true → has_prefix s p ≡ true
unfolding has_prefix
has_prefix_of-append s [] q h = ground arith
has_prefix_of-append [] (b ∷ p) q h = cc
has_prefix_of-append (a ∷ s) (b ∷ p) q h = ground (arith, has_prefix_of-append s p q)

-- On sets built from prefixes by union and intersection, `MapPrependPrefix` puts the prefix before
-- every string: it contains `p ++ x` exactly when `x` was there, and no string without the prefix.
pub contains-map_prepend_prefix :
    (a : Set) (p x : Str)
    → IsOfPrefixes a
    → (contains (map_prepend_prefix a p) (p ++ x) ≡ contains a x)
      × ((contains (map_prepend_prefix a p) x && bnot (has_prefix x p)) ≡ false)
unfolding map_prepend_prefix contains
contains-map_prepend_prefix (prefix q) p x u =
    (has_prefix-append_append p x q, ground (arith, has_prefix_of-append x p q))
contains-map_prepend_prefix (or l r) p x u =
    ground (arith, contains-map_prepend_prefix l p x u.0, contains-map_prepend_prefix r p x u.1)
contains-map_prepend_prefix (and l r) p x u =
    ground (arith, contains-map_prepend_prefix l p x u.0, contains-map_prepend_prefix r p x u.1)
contains-map_prepend_prefix top p x u = absurd u
contains-map_prepend_prefix empty p x u = absurd u
contains-map_prepend_prefix (unit k) p x u = absurd u
contains-map_prepend_prefix (suffix s) p x u = absurd u
contains-map_prepend_prefix (not a) p x u = absurd u

-- On a single path `MapPrependPrefix` puts nothing before the path: a path that does not begin with
-- the prefix is lost, and one that does stays where it was.
pub map_prepend_prefix-unit :
    (k p x : Str)
    → contains (map_prepend_prefix (unit k) p) x ≡ (contains (unit k) x && has_prefix x p)
unfolding map_prepend_prefix contains
map_prepend_prefix-unit k p x = contains-simplify (and (unit k) (prefix p)) x ∙ refl

-- `parts[i]`, which panics out of range.
abbrev pub index : List Str → ℕ → Outcome Str
index xs i = elim (get_elem? xs i) [ none ↦ panic | some x ↦ done x ]

unfoldable pub set_of_parts : Str → List Str → Outcome Set
set_of_parts g parts =
    if length parts == 1
    then done (unit g)
    else if length parts == 2
    then (do p ← index parts 1; s ← index parts 2; done (and (prefix p) (suffix s)))
    else panic

-- `SetFromGlob`.
unfoldable pub set_from_glob : Str → Outcome Set
unfolding split_on set_of_parts
set_from_glob g = set_of_parts g (split_on b'*' [] g)

abbrev pub stars : Str → ℕ
stars [] = 0
stars (c ∷ s) = if c == b'*' then suc (stars s) else stars s

length-split_on : (piece s : Str) → length (split_on b'*' piece s) ≡ suc (stars s)
unfolding split_on
length-split_on piece [] = refl
length-split_on piece (c ∷ s) =
    ground (arith, length-split_on [] s, length-split_on (piece ++ c ∷ []) s)

set_of_parts_lem :
    (g : Str) (parts : List Str) (n : ℕ)
    → length parts ≡ suc n
    → set_of_parts g parts ≡ (if n == 0 then done (unit g) else panic)
unfolding set_of_parts
set_of_parts_lem g [] n h = ground arith
set_of_parts_lem g (a ∷ []) n h = ground arith
set_of_parts_lem g (a ∷ b ∷ []) n h = ground arith
set_of_parts_lem g (a ∷ b ∷ c ∷ parts) n h = ground arith

-- `SetFromGlob` of a text with no star is the text alone, and it panics on every text with a star,
-- also on the texts with one star that it has a case for.
pub set_from_glob_lem :
    (g : Str) → set_from_glob g ≡ (if stars g == 0 then done (unit g) else panic)
unfolding set_from_glob
set_from_glob_lem g = set_of_parts_lem g (split_on b'*' [] g) (stars g) (length-split_on [] g)
