-- ===== src/WantDb/Tables.antt =====
-- The tables of dbmig/000-init.sql that store.go uses, and transactions on them (dbutil.go). A table
-- with a primary key is a function of the key; foreign keys are enforced, as `Open` (wantdb.go) asks.
-- A blob's id, 256 bits, is a number.
use want.Common.{ℕ, zero, suc, Bool, true, false, Option, List}
use want.Common.Text.{Str}
use want.Common.Result.{Result, ok, err}

-- The integers, for counts that may fall below zero.
pub data ℤ : Type 0 where
  pos negsuc : ℕ → ℤ

abbrev pub pred_ℤ : ℤ → ℤ
pred_ℤ (pos zero) = negsuc zero
pred_ℤ (pos (suc n)) = pos n
pred_ℤ (negsuc n) = negsuc (suc n)

abbrev pub suc_ℤ : ℤ → ℤ
suc_ℤ (pos n) = pos (suc n)
suc_ℤ (negsuc zero) = pos zero
suc_ℤ (negsuc (suc n)) = negsuc n

abbrev pub is_zero : ℤ → Bool
is_zero (pos zero) = true
is_zero (pos (suc n)) = false
is_zero (negsuc n) = false

pub record Blob : Type 0 where
  pub content : Str
  pub rc : ℤ

-- A row of `store_blobs`.
pub record Link : Type 0 where
  pub store : ℕ
  pub blob : ℕ

pub record Db : Type 0 where
  pub blobs : ℕ → Option Blob
  pub links : List Link
  -- Whether a store is there.
  pub stores : ℕ → Bool
  -- The next id of an AUTOINCREMENT key.
  pub next_store : ℕ
  -- Whether a row of `jobs` or of `artifacts` refers to a store.
  pub in_use : ℕ → Bool

pub data DbError : Type 0 where
  too_large bad_data no_rows foreign_key primary_key no_match : DbError
  not_found : ℕ → DbError

-- What a function on an open transaction returns, and what it leaves.
abbrev pub Tx : Type 0 → Type 0
Tx A = Db → Result DbError A × Db

module _ {E S : Type 0} where
  abbrev pub and_then : {A B : Type 0} → Result E A × S → (A → S → Result E B × S) → Result E B × S
  and_then (err e, s) next = (err e, s)
  and_then (ok a, s) next = next a s

  infixl 5 ◌>>=◌
  abbrev pub ◌>>=◌ :
      {A B : Type 0} → (S → Result E A × S) → (A → S → Result E B × S) → S → Result E B × S
  (m >>= next) s = and_then (m s) next

  abbrev pub give : {A : Type 0} → A → S → Result E A × S
  give a s = (ok a, s)

  abbrev pub refuse : {A : Type 0} → E → S → Result E A × S
  refuse e s = (err e, s)

abbrev pub restore : {A : Type 0} → Db → Result DbError A × Db → Result DbError A × Db
restore s (err e, s') = (err e, s)
restore s (ok a, s') = (ok a, s')

-- `DoTx` and `DoTx1`: commit, or roll back what the transaction did.
unfoldable pub do_tx : {A : Type 0} → Tx A → Tx A
do_tx m s = restore s (m s)

-- `ROTx1`: roll back in any case.
unfoldable pub ro_tx : {A : Type 0} → Tx A → Tx A
ro_tx m s = ((m s).0, s)
