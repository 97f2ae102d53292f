-- ===== src/WantDb/TxStore.antt =====
-- `TxStore` (store.go): the methods of a store within an open transaction, each for this store alone.
-- Its mutex lets one method run at a time.
use want.Common.{ℕ, Bool}
use want.Common.Text.{Str}
use want.WantDb.Tables.{Tx}
use want.WantDb.Blobs.{post_blob, get_blob, add_blob, delete_blob, store_contains}

unfoldable pub exists : ℕ → ℕ → Tx Bool
unfolding store_contains
exists sid id = store_contains sid id

unfoldable pub add : ℕ → ℕ → Tx Unit
unfolding add_blob
add sid id = add_blob sid id

unfoldable pub delete : ℕ → ℕ → Tx Unit
unfolding delete_blob
delete sid id = delete_blob sid id

module _ (hash : Str → ℕ) where
  unfoldable pub post : ℕ → Str → Tx ℕ
  unfolding post_blob
  post sid x = post_blob hash sid x

  unfoldable pub get : ℕ → ℕ → ℕ → Tx Str
  unfolding get_blob
  get sid id n = get_blob hash sid id n
