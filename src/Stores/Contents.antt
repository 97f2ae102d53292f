-- ===== src/Stores/Contents.antt =====
-- What `Union` (union.go) and `ExistsOnGet` (stores.go) answer over getters of fixed contents.
use want.Common.{
  ℕ, ◌≡◌, refl, Bool, true, false, Option, none, some, List, [], ◌∷◌, reverse, take, arith, subst,
}
use mathlib.Core.List.{reverse_aux}
use want.Common.Text.{Str}
use want.Common.Result.{Result, ok, err}
use want.Stores.Getters.{GetError, not_found, Getter, max_blob_size, union_loop, union_get}

-- What a store that holds `o` under `id` writes to a buffer of `n` bytes.
abbrev pub read_of : ℕ → ℕ → Option Str → Result GetError Str
read_of id n none = err (not_found id)
read_of id n (some x) = ok (take n x)

-- A getter of fixed contents.
abbrev pub holding : (ℕ → Option Str) → Getter
holding blobs = record {
  get = λ id n. read_of id n (blobs id);
  max_size = max_blob_size;
  exister = none;
}

abbrev pub holdings : List (ℕ → Option Str) → List Getter
holdings [] = []
holdings (b ∷ bs) = holding b ∷ holdings bs

abbrev pub or_else : Option Str → Option Str → Option Str
or_else (some x) o = some x
or_else none o = o

-- The first blob under an id in a list of contents.
abbrev pub first_of : List (ℕ → Option Str) → ℕ → Option Str
first_of [] id = none
first_of (b ∷ bs) id = or_else (b id) (first_of bs id)

abbrev pub is_held : Option Str → Bool
is_held none = false
is_held (some x) = true

holdings-reverse_aux :
    (bs cs : List (ℕ → Option Str))
    → holdings (reverse_aux bs cs) ≡ reverse_aux (holdings bs) (holdings cs)
holdings-reverse_aux [] cs = refl
holdings-reverse_aux (b ∷ bs) cs = holdings-reverse_aux bs (b ∷ cs)

module _ (id n : ℕ) where
  union_loop_after :
      (bs : List (ℕ → Option Str))
      → union_loop (holdings bs) id n (some (not_found id)) ≡ read_of id n (first_of bs id)
  unfolding union_loop
  union_loop_after [] = refl
  union_loop_after (b ∷ bs) = ground (arith, union_loop_after bs)

  union_loop_lem :
      (bs : List (ℕ → Option Str))
      → union_loop (holdings bs) id n none ≡ read_of id n (first_of bs id)
  unfolding union_loop
  union_loop_lem [] = refl
  union_loop_lem (b ∷ bs) = ground (arith, union_loop_after bs)

  -- A union of stores reads under an id what the last store of the list that holds the id has, and
  -- reports the id as not found when no store holds it.
  pub union_get_lem :
      (bs : List (ℕ → Option Str))
      → union_get (holdings bs) id n ≡ read_of id n (first_of (reverse bs) id)
  unfolding union_get
  union_get_lem bs =
      subst (λ gs. union_loop gs id n none ≡ read_of id n (first_of (reverse bs) id))
        (holdings-reverse_aux bs []) (union_loop_lem (reverse bs))
