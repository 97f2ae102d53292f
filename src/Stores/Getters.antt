-- ===== src/Stores/Getters.antt =====
-- stores.go, union.go and fork.go. A blob's id is a number; reading with a buffer gives the bytes that
-- are written to it.
use want.Common.{ℕ, ◌^◌, Bool, true, false, Option, none, some, List, [], ◌∷◌, reverse}
use want.Common.Text.{Str}
use want.Common.Result.{Result, ok, err}

pub data GetError : Type 0 where
  not_found : ℕ → GetError
  failed : Str → GetError

-- `cadata.Getter`, with `Exists` where it is a `cadata.Exister`.
pub record Getter : Type 0 where
  pub get : ℕ → ℕ → Result GetError Str
  pub max_size : ℕ
  pub exister : Option (ℕ → Result GetError Bool)

-- `MaxBlobSize`.
abbrev pub max_blob_size : ℕ
max_blob_size = 2 ^ 21

-- The loop of `Union.Get` over the getters from the last one on, with the last error.
unfoldable pub union_loop : List Getter → ℕ → ℕ → Option GetError → Result GetError Str
union_loop [] id n none = err (not_found id)
union_loop [] id n (some e) = err e
union_loop (g ∷ gs) id n last = elim (g.get id n) [
  | ok x ↦ ok x
  | err e ↦ union_loop gs id n (some e)
]

unfoldable pub union_get : List Getter → ℕ → ℕ → Result GetError Str
unfolding union_loop
union_get gs id n = union_loop (reverse gs) id n none

-- `Union`, which is no `cadata.Exister`.
unfoldable pub union_getter : List Getter → Getter
unfolding union_get
union_getter gs = record { get = union_get gs; max_size = max_blob_size; exister = none }

-- `NewVoid`.
unfoldable pub new_void : Getter
unfolding union_getter
new_void = union_getter []

unfoldable pub exists_of_get : Result GetError Str → Result GetError Bool
exists_of_get (ok x) = ok true
exists_of_get (err (not_found id)) = ok false
exists_of_get (err (failed e)) = err (failed e)

unfoldable pub exists_using_get : Getter → ℕ → Result GetError Bool
unfolding exists_of_get
exists_using_get g id = exists_of_get (g.get id g.max_size)

unfoldable pub exists_on_get : Getter → ℕ → Result GetError Bool
unfolding exists_using_get
exists_on_get g id = elim g.exister [ some f ↦ f id | none ↦ exists_using_get g id ]

-- `Fork.Exists`, of what the writable store answers.
unfoldable pub fork_exists : Result GetError Bool → Getter → ℕ → Result GetError Bool
unfolding exists_on_get
fork_exists (ok true) r id = ok true
fork_exists (ok false) r id = exists_on_get r id
fork_exists (err e) r id = exists_on_get r id
