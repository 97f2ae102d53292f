-- ===== src/StringSets/Combine.antt =====
-- `Union` and `Intersection` of any number of sets (set.go), which halve the slice.
use want.Common.{
  ℕ, zero, suc, ◌-◌, ◌/◌, ◌≤◌, ◌≡◌, refl, ap, sym, Bool, true, false, ◌&&◌, ◌||◌, List, [], ◌∷◌,
  ◌++◌, length, take, drop, take-append-drop, arith,
}
use want.Common.Text.{Str}
use want.StringSets.Sets.{Set, top, empty, and, or, contains}

-- The recursion of `Union` and of `Intersection`, with `n` levels of calls below it.
unfoldable pub balanced : Set → (Set → Set → Set) → ℕ → List Set → Set
balanced none_of op n [] = none_of
balanced none_of op n (a ∷ []) = a
balanced none_of op n (a ∷ b ∷ []) = op a b
balanced none_of op zero (a ∷ b ∷ c ∷ xs) = none_of
balanced none_of op (suc n) (a ∷ b ∷ c ∷ xs) =
    let half = length (a ∷ b ∷ c ∷ xs) / 2 in
    op (balanced none_of op n (take half (a ∷ b ∷ c ∷ xs)))
      (balanced none_of op n (drop half (a ∷ b ∷ c ∷ xs)))

unfoldable pub union : List Set → Set
unfolding balanced
union xs = balanced empty or (length xs) xs

unfoldable pub intersection : List Set → Set
unfolding balanced
intersection xs = balanced top and (length xs) xs

-- Some set of the list, or every set of the list, contains the string.
abbrev pub any_contains : List Set → Str → Bool
any_contains [] x = false
any_contains (a ∷ xs) x = contains a x || any_contains xs x

abbrev pub all_contain : List Set → Str → Bool
all_contain [] x = true
all_contain (a ∷ xs) x = contains a x && all_contain xs x

any_contains-append :
    (xs ys : List Set) (x : Str)
    → any_contains (xs ++ ys) x ≡ (any_contains xs x || any_contains ys x)
any_contains-append [] ys x = refl
any_contains-append (a ∷ xs) ys x = ground (arith, any_contains-append xs ys x)

all_contain-append :
    (xs ys : List Set) (x : Str) → all_contain (xs ++ ys) x ≡ (all_contain xs x && all_contain ys x)
all_contain-append [] ys x = refl
all_contain-append (a ∷ xs) ys x = ground (arith, all_contain-append xs ys x)

length-take-le : (n : ℕ) (xs : List Set) → length (take n xs) ≤ n
length-take-le zero xs = omega arith
length-take-le (suc n) [] = omega arith
length-take-le (suc n) (a ∷ xs) = omega (arith, length-take-le n xs)

length-drop : (n : ℕ) (xs : List Set) → length (drop n xs) ≡ length xs - n
length-drop zero xs = omega arith
length-drop (suc n) [] = omega arith
length-drop (suc n) (a ∷ xs) = omega (arith, length-drop n xs)

-- A property of lists that holds of short ones and of any list once it holds of two halves.
module _ (none_of : Set) (op : Set → Set → Set) (meaning : List Set → Str → Bool)
    (join : Bool → Bool → Bool) (x : Str) where
  balanced_lem :
      (meaning [] x ≡ contains none_of x)
      → ((a : Set) → meaning (a ∷ []) x ≡ contains a x)
      → ((a b : Set) → contains (op a b) x ≡ join (contains a x) (contains b x))
      → ((xs ys : List Set) → meaning (xs ++ ys) x ≡ join (meaning xs x) (meaning ys x))
      → (n : ℕ) (xs : List Set) → length xs ≤ n
      → contains (balanced none_of op n xs) x ≡ meaning xs x
  unfolding balanced
  balanced_lem h₀ h₁ h₂ h₃ n [] fits = sym h₀
  balanced_lem h₀ h₁ h₂ h₃ n (a ∷ []) fits = sym (h₁ a)
  balanced_lem h₀ h₁ h₂ h₃ n (a ∷ b ∷ []) fits = rw (h₂ a b, h₃ (a ∷ []) (b ∷ []), h₁ a, h₁ b)
  balanced_lem h₀ h₁ h₂ h₃ zero (a ∷ b ∷ c ∷ xs) fits = elim fits [ ]
  balanced_lem h₀ h₁ h₂ h₃ (suc n) (a ∷ b ∷ c ∷ xs) fits =
      let half = length (a ∷ b ∷ c ∷ xs) / 2 in
      let all : List Set = a ∷ b ∷ c ∷ xs in
      let left =
        balanced_lem h₀ h₁ h₂ h₃ n (take half all) (omega (arith, length-take-le half all)) in
      let right =
        balanced_lem h₀ h₁ h₂ h₃ n (drop half all) (omega (arith, length-drop half all)) in
      let whole = ap (λ ys. meaning ys x) (take-append-drop half all) in
      let l = balanced none_of op n (take half all) in
      let r = balanced none_of op n (drop half all) in
      cc (h₂ l r, left, right, h₃ (take half all) (drop half all), whole)

-- The union contains exactly the strings that some set of the list contains.
pub contains-union : (xs : List Set) (x : Str) → contains (union xs) x ≡ any_contains xs x
unfolding union contains
contains-union xs x =
    balanced_lem empty or any_contains ◌||◌ x refl (λ a. ground arith) (λ a b. refl)
      (λ ys zs. any_contains-append ys zs x) (length xs) xs (omega arith)

-- The intersection contains exactly the strings that every set of the list contains.
pub contains-intersection :
    (xs : List Set) (x : Str) → contains (intersection xs) x ≡ all_contain xs x
unfolding intersection contains
contains-intersection xs x =
    balanced_lem top and all_contain ◌&&◌ x refl (λ a. ground arith) (λ a b. refl)
      (λ ys zs. all_contain-append ys zs x) (length xs) xs (omega arith)
