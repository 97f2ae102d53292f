-- ===== src/Stores/Cache.antt =====
-- `LRUCache` (lru_cache.go). The cache of the package golang-lru is external: a type of states `C` with
-- the two operations that the code calls.
use want.Common.{ℕ, Option, none, some, take, ◌≡◌, ◌⊎◌}
use want.Common.Text.{Str}
use want.Common.Result.{Result, ok, err}
use want.Stores.Getters.{Getter, GetError}

-- `lru.Cache`: `Get`, which may change the order of use, and `Add`.
pub record Lru (C : Type 0) : Type 0 where
  pub lookup : C → ℕ → Option Str × C
  pub add : C → ℕ → Str → C

module _ {C : Type 0} (lru : Lru C) (inner : Getter) where
  abbrev pub remember : C → ℕ → Result GetError Str → Result GetError Str × C
  remember c id (ok x) = (ok x, lru.add c id x)
  remember c id (err e) = (err e, c)

  abbrev pub answer : ℕ → ℕ → Option Str × C → Result GetError Str × C
  answer id n (some x, c) = (ok (take n x), c)
  answer id n (none, c) = remember c id (inner.get id n)

  -- `LRUCache.Get` with a buffer of `n` bytes.
  unfoldable pub cached_get : C → ℕ → ℕ → Result GetError Str × C
  cached_get c id n = answer id n (lru.lookup c id)

-- What the package documents: `Get` answers what is held under the key and leaves the entries, and
-- after `Add` an entry is the one that was added or one that was held before.
pub record IsLru {C : Type 0} (lru : Lru C) (held : C → ℕ → Option Str) : Type 0 where
  pub looks_up : (c : C) (id : ℕ) → (lru.lookup c id).0 ≡ held c id
  pub keeps : (c : C) (id j : ℕ) → held ((lru.lookup c id).1) j ≡ held c j
  pub adds :
      (c : C) (id j : ℕ) (x y : Str)
      → held (lru.add c id x) j ≡ some y
      → ((j ≡ id) × (y ≡ x)) ⊎ (held c j ≡ some y)

-- It has room for an entry: `Get` finds what has been added just before.
abbrev pub HasRoom : {C : Type 0} → Lru C → Type 0
HasRoom {C} lru = (c : C) (id : ℕ) (x : Str) → (lru.lookup (lru.add c id x) id).0 ≡ some x
