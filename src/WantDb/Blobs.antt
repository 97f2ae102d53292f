-- ===== src/WantDb/Blobs.antt =====
-- store.go: blobs, the stores that hold them, and reference counts.
use want.Common.{
  ℕ, zero, suc, ◌==◌, ltb, if◌then◌else◌, Bool, true, false, ◌&&◌, ◌||◌, Option, none, some, List,
  [], ◌∷◌, length, take,
}
use want.Common.Text.{Str}
use want.Common.Result.{Result, ok, err}
use want.Stores.Getters.{max_blob_size}
use want.WantDb.Tables.{
  ℤ, pos, pred_ℤ, suc_ℤ, is_zero, Blob, Link, Db, DbError, too_large, bad_data, no_rows,
  foreign_key, primary_key, not_found, Tx, ◌>>=◌, give, refuse,
}

abbrev pub is_link : ℕ → ℕ → Link → Bool
is_link sid id l = (l.store == sid) && (l.blob == id)

abbrev pub has_link : ℕ → ℕ → List Link → Bool
has_link sid id [] = false
has_link sid id (l ∷ ls) = is_link sid id l || has_link sid id ls

abbrev pub has_holder : ℕ → List Link → Bool
has_holder id [] = false
has_holder id (l ∷ ls) = (l.blob == id) || has_holder id ls

abbrev pub link : ℕ → ℕ → Link
link sid id = record { store = sid; blob = id }

-- The links for which `drop` is false.
abbrev pub without : (Link → Bool) → List Link → List Link
without drop [] = []
without drop (l ∷ ls) = let rest = without drop ls in if drop l then rest else l ∷ rest

abbrev pub present : Option Blob → Bool
present none = false
present (some b) = true

abbrev pub recount : (ℤ → ℤ) → Option Blob → Option Blob
recount f none = none
recount f (some b) = some (record b { rc = f b.rc })

abbrev pub at_key : {A : Type 0} → (ℕ → A) → ℕ → A → ℕ → A
at_key f id a j = if j == id then a else f j

-- INSERT OR IGNORE into `store_blobs`, with the number of CHANGES().
unfoldable pub insert_link : ℕ → ℕ → Tx ℕ
insert_link sid id s =
    if has_link sid id s.links
    then (ok 0, s)
    else if s.stores sid && present (s.blobs id)
    then (ok 1, record s { links = link sid id ∷ s.links })
    else (err foreign_key, s)

abbrev pub foreign_key_missing : {A : Type 0} → ℕ → Result DbError A × Db → Result DbError A × Db
foreign_key_missing id (err foreign_key, s) = (err (not_found id), s)
foreign_key_missing id r = r

-- UPDATE of `rc` by the changes of the statement before.
abbrev pub add_changes : ℕ → ℤ → ℤ
add_changes zero z = z
add_changes (suc n) z = suc_ℤ (add_changes n z)

unfoldable pub update_rc : (ℤ → ℤ) → ℕ → Tx Unit
update_rc f id s = (ok tt, record s { blobs = at_key s.blobs id (recount f (s.blobs id)) })

unfoldable pub add_blob : ℕ → ℕ → Tx Unit
unfolding insert_link update_rc
add_blob sid id s =
    ((λ z. foreign_key_missing id (insert_link sid id z)) >>= λ n. update_rc (add_changes n) id) s

unfoldable pub blob_exists : ℕ → Tx Bool
blob_exists id s = (ok (present (s.blobs id)), s)

unfoldable pub insert_blob : ℕ → Str → Tx Unit
insert_blob id content s = if present (s.blobs id) then (err primary_key, s) else (
  ok tt,
  record s { blobs = at_key s.blobs id (some (record { content = content; rc = pos 0 })) },
)

unfoldable pub drop_blob : ℕ → Tx Unit
drop_blob id s =
    if has_holder id s.links
    then (err foreign_key, s)
    else (ok tt, record s { blobs = at_key s.blobs id none })

unfoldable pub decr_blob_rc : ℕ → Tx Unit
unfolding update_rc
decr_blob_rc id = update_rc pred_ℤ id

unfoldable pub get_blob_rc : ℕ → Tx ℤ
get_blob_rc id s = elim (s.blobs id) [ none ↦ (err no_rows, s) | some b ↦ (ok b.rc, s) ]

unfoldable pub store_contains : ℕ → ℕ → Tx Bool
store_contains sid id s =
    if sid == 0 then (ok (present (s.blobs id)), s) else (ok (has_link sid id s.links), s)

-- DELETE FROM `store_blobs`.
unfoldable pub delete_links : (Link → Bool) → Tx Unit
delete_links drop s = (ok tt, record s { links = without drop s.links })

unfoldable pub store_remove : ℕ → ℕ → Tx Unit
unfolding store_contains delete_links decr_blob_rc
store_remove sid id = store_contains sid id >>= λ found.
    (if found then (delete_links (is_link sid id) >>= λ _. decr_blob_rc id) else give tt)

unfoldable pub delete_blob : ℕ → ℕ → Tx Unit
unfolding store_remove get_blob_rc drop_blob
delete_blob sid id = store_remove sid id >>= λ _.
    get_blob_rc id >>= λ rc. if is_zero rc then drop_blob id else give tt

unfoldable pub create_store : Tx ℕ
create_store s = (
  ok s.next_store,
  record s { stores = at_key s.stores s.next_store true; next_store = suc s.next_store },
)

-- The first statement of `DropStore`: the count of each blob of the store falls.
unfoldable pub release : ℕ → Tx Unit
release sid s = (
  ok tt,
  record s {
    blobs = λ id. if has_link sid id s.links then recount pred_ℤ (s.blobs id) else s.blobs id;
  },
)

-- Its last: DELETE FROM `stores`.
unfoldable pub delete_store : ℕ → Tx Unit
delete_store sid s =
    if s.in_use sid
    then (err foreign_key, s)
    else (ok tt, record s { stores = at_key s.stores sid false })

unfoldable pub drop_store : ℕ → Tx Unit
unfolding release delete_links delete_store
drop_store sid = release sid >>= λ _. delete_links (λ l. l.store == sid) >>= λ _. delete_store sid

module _ (hash : Str → ℕ) where
  unfoldable pub post_blob : ℕ → Str → Tx ℕ
  unfolding blob_exists insert_blob add_blob
  post_blob sid x =
      if ltb max_blob_size (length x)
      then refuse too_large
      else (blob_exists (hash x) >>= λ found.
          (if found then give tt else insert_blob (hash x) x) >>= λ _.
          add_blob sid (hash x) >>= λ _. give (hash x))

  -- The bytes that `GetBlob` writes into a buffer of length `n`.
  unfoldable pub check_blob : ℕ → ℕ → Option Blob → Result DbError Str
  check_blob id n none = err (not_found id)
  check_blob id n (some b) = if hash b.content == id then ok (take n b.content) else err bad_data

  unfoldable pub get_blob : ℕ → ℕ → ℕ → Tx Str
  unfolding check_blob
  get_blob sid id n s =
      if (sid == 0) || has_link sid id s.links
      then (check_blob id n (s.blobs id), s)
      else (check_blob id n none, s)
