-- ===== src/WantDb/Reads.antt =====
-- store.go: `PostBlob` and then `GetBlob`.
use want.Common.{
  ℕ, ltb, ◌≡◌, refl, sym, ap, ◌∙◌, subst, ◌⊎◌, if◌then◌else◌, Bool, true, false, Option, none, some,
  length, take, arith, Bool-cases, Option-cases, inl, inr,
}
use want.Common.Text.{Str}
use want.Common.Result.{Result, ok, err}
use want.Stores.Getters.{max_blob_size}
use want.WantDb.Tables.{and_then, too_large, ℤ, Blob, Db, DbError, ◌>>=◌, give}
use want.WantDb.Blobs.{
  has_link, present, recount, add_changes, add_blob, post_blob, get_blob, check_blob, insert_link,
  update_rc, insert_blob, blob_exists,
}

-- The content of a blob.
abbrev content : Option Blob → Option Str
content none = none
content (some b) = some b.content

content-recount : (f : ℤ → ℤ) (o : Option Blob) → content (recount f o) ≡ content o
content-recount f none = refl
content-recount f (some b) = refl

add_blob-content :
    (sid id : ℕ) (s : Db) → content ((add_blob sid id s).1.blobs id) ≡ content (s.blobs id)
unfolding add_blob insert_link update_rc
add_blob-content sid id s = ground (
  arith,
  content-recount (add_changes 0) (s.blobs id),
  content-recount (add_changes 1) (s.blobs id),
)

add_blob-link :
    (sid id : ℕ) (s : Db)
    → (add_blob sid id s).0 ≡ ok tt
    → has_link sid id (add_blob sid id s).1.links ≡ true
unfolding add_blob insert_link update_rc
add_blob-link sid id s h = ground arith

insert_blob-content :
    (id : ℕ) (x : Str) (s : Db)
    → s.blobs id ≡ none
    → (insert_blob id x s ≡ (ok tt, (insert_blob id x s).1))
      × (content ((insert_blob id x s).1.blobs id) ≡ some x)
unfolding insert_blob
insert_blob-content id x s h = (ground arith, ground arith)

and_then-give :
    {A : Type 0} (a b : A) (r : Result DbError Unit × Db)
    → (and_then r (λ _. give a)).0 ≡ ok b
    → (r.0 ≡ ok tt) × (a ≡ b) × ((and_then r (λ _. give a)).1 ≡ r.1)
and_then-give a b (err e, s) h = cc
and_then-give a b (ok u, s) h = (refl, (let same : a ≡ b = cc in same), refl)

module _ (hash : Str → ℕ) where
  check_blob-content :
      (id n : ℕ) (x : Str) (o : Option Blob)
      → content o ≡ some x
      → hash x ≡ id
      → check_blob hash id n o ≡ ok (take n x)
  unfolding check_blob
  check_blob-content id n x none h e = cc
  check_blob-content id n x (some b) h e = let same : b.content ≡ x = cc in rw same (ground arith)

  -- What is there once the blob is inserted.
  stored : Str → Db → Db
  stored x s = if present (s.blobs (hash x)) then s else (insert_blob (hash x) x s).1

  post_rest :
      (sid : ℕ) (x : Str) (s : Db) (b : Bool)
      → present (s.blobs (hash x)) ≡ b
      → and_then
          ((if b then give tt else insert_blob (hash x) x) s)
          (λ _. add_blob sid (hash x) >>= λ _. give (hash x))
        ≡ and_then
            (add_blob sid (hash x) (if b then s else (insert_blob (hash x) x s).1))
            (λ _. give (hash x))
  post_rest sid x s true h = refl
  post_rest sid x s false h =
      let id = hash x in
      let new : s.blobs id ≡ none = ground (arith, Option-cases (s.blobs id)) in
      ap (λ r. and_then {A = Unit} {B = ℕ} r (λ _. add_blob sid id >>= λ _. give id))
        (insert_blob-content id x s new).0

  post_blob_lem :
      (sid : ℕ) (x : Str) (s : Db)
      → (post_blob hash sid x s ≡ (err too_large, s))
        ⊎ (post_blob hash sid x s
            ≡ and_then (add_blob sid (hash x) (stored x s)) (λ _. give (hash x)))
  unfolding post_blob stored blob_exists
  post_blob_lem sid x s = elim (Bool-cases (ltb max_blob_size (length x))) [
    | inl big ↦ inl (rw big refl)
    | inr fits ↦ inr (rw fits (post_rest sid x s (present (s.blobs (hash x))) refl))
  ]

  stored-content :
      (x : Str) (s : Db)
      → ((b : Blob) → s.blobs (hash x) ≡ some b → b.content ≡ x)
      → content ((stored x s).blobs (hash x)) ≡ some x
  unfolding stored insert_blob
  stored-content x s h = elim (Option-cases (s.blobs (hash x))) [
    | inl e ↦ ground arith
    | inr (b, e) ↦ ground (arith, h b e)
  ]

  -- A blob that `PostBlob` has put into a store can be read from it, up to the length of the buffer,
  -- when no other content with the same hash was there before.
  pub post_blob-get :
      (sid id n : ℕ) (x : Str) (s : Db)
      → ((b : Blob) → s.blobs (hash x) ≡ some b → b.content ≡ x)
      → (post_blob hash sid x s).0 ≡ ok id
      → get_blob hash sid id n (post_blob hash sid x s).1
        ≡ (ok (take n x), (post_blob hash sid x s).1)
  unfolding get_blob
  post_blob-get sid id n x s alone h = elim (post_blob_lem sid x s) [
    | inl e ↦ cc
    | inr e ↦
        let r = add_blob sid (hash x) (stored x s) in
        let (fine, same, left) = and_then-give (hash x) id r (subst (λ q. q.0 ≡ ok id) e h) in
        let state : (post_blob hash sid x s).1 ≡ r.1 = ap (λ q. q.1) e ∙ left in
        let linked = add_blob-link sid (hash x) (stored x s) fine in
        let kept = add_blob-content sid (hash x) (stored x s) ∙ stored-content x s alone in
        let read = check_blob-content (hash x) n x (r.1.blobs (hash x)) kept refl in
        rw (state, sym same) (ground arith)
  ]
