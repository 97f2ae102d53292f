-- ===== src/WantDb/DbStore.antt =====
-- `DBStore` (store.go): each method is a transaction of its own. `Get` and `Exists` look in every store.
use want.Common.{ℕ, Bool}
use want.Common.Text.{Str}
use want.WantDb.Tables.{Tx, do_tx, ro_tx}
use want.WantDb.Blobs.{post_blob, get_blob, add_blob, delete_blob, store_contains}

unfoldable pub exists : ℕ → Tx Bool
unfolding ro_tx store_contains
exists id = ro_tx (store_contains 0 id)

unfoldable pub add : ℕ → ℕ → Tx Unit
unfolding do_tx add_blob
add sid id = do_tx (add_blob sid id)

unfoldable pub delete : ℕ → ℕ → Tx Unit
unfolding do_tx delete_blob
delete sid id = do_tx (delete_blob sid id)

module _ (hash : Str → ℕ) where
  unfoldable pub post : ℕ → Str → Tx ℕ
  unfolding post_blob do_tx
  post sid x = do_tx (post_blob hash sid x)

  unfoldable pub get : ℕ → ℕ → Tx Str
  unfolding get_blob ro_tx
  get id n = ro_tx (get_blob hash 0 id n)
