-- ===== src/StringSets/Prefixes.antt =====
-- `commonPrefixLen` and `longestCommonPrefix` (util.go).
use want.Common.{
  ℕ, suc, ◌≡◌, refl, Bool, true, ◌&&◌, List, [], ◌∷◌, length, take, ◌==◌, if◌then◌else◌, arith, ◌∙◌,
}
use want.Common.Text.{Str, has_prefix}

-- The loop of `commonPrefixLen` from the index at which both strings are cut.
unfoldable pub common_prefix_len : Str → Str → ℕ
common_prefix_len (a ∷ s) (b ∷ t) = if a == b then suc (common_prefix_len s t) else 0
common_prefix_len _ _ = 0

-- The loop of `longestCommonPrefix`, which stops at the empty string.
unfoldable pub lcp_loop : Str → List Str → Str
unfolding common_prefix_len
lcp_loop lcp [] = lcp
lcp_loop lcp (x ∷ xs) =
    let cut = take (common_prefix_len lcp x) lcp in
    let rest = lcp_loop cut xs in if length cut == 0 then cut else rest

unfoldable pub longest_common_prefix : List Str → Str
unfolding lcp_loop
longest_common_prefix [] = []
longest_common_prefix (x ∷ xs) = lcp_loop x xs

-- Every string of the list begins with `p`.
abbrev pub all_begin : List Str → Str → Bool
all_begin [] p = true
all_begin (x ∷ xs) p = has_prefix x p && all_begin xs p

cut_lem :
    (s t p : Str)
    → has_prefix (take (common_prefix_len s t) s) p ≡ (has_prefix s p && has_prefix t p)
unfolding common_prefix_len has_prefix
cut_lem [] t [] = refl
cut_lem (a ∷ s) [] [] = refl
cut_lem (a ∷ s) (b ∷ t) [] = ground arith
cut_lem [] t (c ∷ p) = refl
cut_lem (a ∷ s) [] (c ∷ p) = ground arith
cut_lem (a ∷ s) (b ∷ t) (c ∷ p) = ground (arith, cut_lem s t p)

empty_begins : (xs : List Str) (p : Str) → has_prefix [] p ≡ (has_prefix [] p && all_begin xs p)
unfolding has_prefix
empty_begins [] [] = refl
empty_begins (x ∷ xs) [] = empty_begins xs []
empty_begins xs (b ∷ p) = refl

stop_lem :
    (cut : Str) (xs : List Str) (p rest : Str)
    → has_prefix rest p ≡ (has_prefix cut p && all_begin xs p)
    → has_prefix (if length cut == 0 then cut else rest) p ≡ (has_prefix cut p && all_begin xs p)
stop_lem [] xs p rest h = empty_begins xs p
stop_lem (a ∷ cut) xs p rest h = ground arith

lcp_loop_lem :
    (xs : List Str) (lcp p : Str)
    → has_prefix (lcp_loop lcp xs) p ≡ (has_prefix lcp p && all_begin xs p)
unfolding lcp_loop
lcp_loop_lem [] lcp p = ground arith
lcp_loop_lem (x ∷ xs) lcp p =
    let cut = take (common_prefix_len lcp x) lcp in
    stop_lem cut xs p (lcp_loop cut xs) (lcp_loop_lem xs cut p) ∙ ground (arith, cut_lem lcp x p)

-- The longest common prefix of some strings, not none: a string is one of its prefixes exactly when
-- it is a prefix of them all.
pub longest_common_prefix_lem :
    (x : Str) (xs : List Str) (p : Str)
    → has_prefix (longest_common_prefix (x ∷ xs)) p ≡ all_begin (x ∷ xs) p
unfolding longest_common_prefix
longest_common_prefix_lem x xs p = lcp_loop_lem xs x p
