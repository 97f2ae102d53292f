-- ===== src/WantDb/Deletes.antt =====
-- store.go: `DeleteBlob`, and the other holders of a blob.
use want.Common.{
  ℕ, zero, suc, ◌-◌, ◌<◌, ◌==◌, ◌≡◌, refl, sym, ap, ◌∙◌, subst, ◌≢◌, ◌⊎◌, if◌then◌else◌, true,
  false, Option, none, some, arith, Option-cases, inl, inr,
}
use want.Common.Result.{ok}
use want.WantDb.Tables.{pos, pred_ℤ, is_zero, Blob, Db, Tx, and_then, ◌>>=◌, give}
use want.WantDb.Blobs.{
  is_link, has_link, has_holder, without, recount, at_key, update_rc, drop_blob, decr_blob_rc,
  get_blob_rc, store_contains, delete_links, store_remove, delete_blob,
}
use want.WantDb.Links.{
  holders, held, has_link-held, holders-without_link, has_holder-holders, has_link-without,
}
use want.WantDb.Counted.{Counted, Right}

-- `s` with a link gone and the count of its blob reduced.
unlinked : ℕ → ℕ → Db → Db
unlinked sid id s = record s {
  links = without (is_link sid id) s.links;
  blobs = at_key s.blobs id (recount pred_ℤ (s.blobs id));
}

store_remove_lem :
    (sid id : ℕ) (s : Db)
    → sid ≢ 0
    → has_link sid id s.links ≡ true
    → store_remove sid id s ≡ (ok tt, unlinked sid id s)
unfolding store_remove store_contains delete_links decr_blob_rc update_rc unlinked
store_remove_lem sid id s ne h = let real : (sid == 0) ≡ false = ground arith in rw (real, h) refl

-- What `DeleteBlob` does after `storeRemove`.
finish : ℕ → Tx Unit
unfolding get_blob_rc drop_blob
finish id = get_blob_rc id >>= λ rc. if is_zero rc then drop_blob id else give tt

delete_blob-finish :
    (sid id : ℕ) (s : Db) → delete_blob sid id s ≡ and_then (store_remove sid id s) (λ _. finish id)
unfolding delete_blob finish
delete_blob-finish sid id s = refl

get_blob_rc-some :
    (id : ℕ) (b : Blob) (s : Db) → s.blobs id ≡ some b → get_blob_rc id s ≡ (ok b.rc, s)
unfolding get_blob_rc
get_blob_rc-some id b s at = ground arith

finish-rc :
    (id : ℕ) (b : Blob) (s : Db)
    → s.blobs id ≡ some b
    → finish id s ≡ (if is_zero b.rc then drop_blob id else give tt) s
unfolding finish
finish-rc id b s at =
    ap (λ r. and_then r (λ rc. if is_zero rc then drop_blob id else give tt))
      (get_blob_rc-some id b s at)

drop_blob-free :
    (id : ℕ) (s : Db)
    → has_holder id s.links ≡ false
    → drop_blob id s ≡ (ok tt, record s { blobs = at_key s.blobs id none })
unfolding drop_blob
drop_blob-free id s h = rw h refl

at_key_self : (blobs : ℕ → Option Blob) (id : ℕ) → at_key blobs id none id ≡ none
at_key_self blobs id = ground arith

finish_lem :
    (id n : ℕ) (b : Blob) (s : Db)
    → s.blobs id ≡ some b
    → b.rc ≡ pos n
    → n ≡ holders id s.links
    → ((finish id s).0 ≡ ok tt)
      × ((finish id s).1.links ≡ s.links)
      × (((n ≡ 0) × ((finish id s).1.blobs id ≡ none))
          ⊎ ((0 < n) × ((finish id s).1.blobs id ≡ some b)))
finish_lem id zero b s at rc count =
    let free = has_holder-holders id s.links (sym count) in
    let whole : finish id s ≡ (ok tt, record s { blobs = at_key s.blobs id none }) =
      finish-rc id b s at ∙ rw rc (drop_blob-free id s free) in
    rw whole (refl, refl, inl (refl, at_key_self s.blobs id))
finish_lem id (suc n) b s at rc count =
    let whole : finish id s ≡ (ok tt, s) = finish-rc id b s at ∙ rw rc refl in
    rw whole (refl, refl, inr (omega arith, at))

Counted-some :
    (id n : ℕ) (s : Db)
    → Counted s
    → suc n ≡ holders id s.links
    → (b : Blob) × (s.blobs id ≡ some b) × (b.rc ≡ pos (holders id s.links))
Counted-some id n s c h = elim (Option-cases (s.blobs id)) [
  | inl e ↦
      let nobody = subst (λ o. Right o (holders id s.links)) e (c.right id) in absurd (omega arith)
  | inr (b, e) ↦ (b, e, subst (λ o. Right o (holders id s.links)) e (c.right id))
]

unlinked-blob :
    (sid id n : ℕ) (b : Blob) (s : Db)
    → s.blobs id ≡ some b
    → b.rc ≡ pos (suc n)
    → (unlinked sid id s).blobs id ≡ some (record b { rc = pos n })
unfolding unlinked
unlinked-blob sid id n b s at rc =
    let self : (id == id) ≡ true = ground arith in rw (self, at, rc) refl

unlinked-holders :
    (sid id : ℕ) (s : Db)
    → holders id (without (is_link sid id) s.links) ≡ holders id (unlinked sid id s).links
unfolding unlinked
unlinked-holders sid id s = refl

unlinked-has_link : (sid id : ℕ) (s : Db) → has_link sid id (unlinked sid id s).links ≡ false
unfolding unlinked
unlinked-has_link sid id s = has_link-without sid id s.links

-- `DeleteBlob` of a blob from a store that holds it, with right counts and a store id other than 0,
-- succeeds, and the store does not hold the blob any more; the blob is gone when no other store holds
-- it, and is there with its content when another one does.
pub delete_blob_lem :
    (sid id : ℕ) (s : Db)
    → sid ≢ 0
    → Counted s
    → has_link sid id s.links ≡ true
    → ((delete_blob sid id s).0 ≡ ok tt)
      × (has_link sid id (delete_blob sid id s).1.links ≡ false)
      × (((holders id s.links ≡ 1) × ((delete_blob sid id s).1.blobs id ≡ none))
          ⊎ ((1 < holders id s.links)
              × ((b : Blob) × (s.blobs id ≡ some b)
                  × ((delete_blob sid id s).1.blobs id
                      ≡ some (record b { rc = pos (holders id s.links - 1) })))))
delete_blob_lem sid id s ne c h =
    let ls = without (is_link sid id) s.links in
    let one : held sid id s.links ≡ 1 =
      omega (arith, c.unique sid id, has_link-held sid id s.links h) in
    let less : suc (holders id ls) ≡ holders id s.links =
      ground (arith, holders-without_link sid id id s.links) in
    let (b, at, rc) = Counted-some id (holders id ls) s c less in
    let n = holders id ls in
    let b' : Blob = record b { rc = pos n } in
    let at' : (unlinked sid id s).blobs id ≡ some b' =
      unlinked-blob sid id n b s at (rc ∙ ap pos (sym less)) in
    let (fine, links, fate) =
      finish_lem id n b' (unlinked sid id s) at' refl (unlinked-holders sid id s) in
    let whole : delete_blob sid id s ≡ finish id (unlinked sid id s) =
      delete_blob-finish sid id s
      ∙ ap (λ r. and_then r (λ _. finish id)) (store_remove_lem sid id s ne h) in
    let gone : has_link sid id (unlinked sid id s).links ≡ false = unlinked-has_link sid id s in
    rw whole (
      fine,
      rw links gone,
      elim fate [
        | inl (z, none_left) ↦ inl (omega arith, none_left)
        | inr (more, kept) ↦
            let m : n ≡ holders id s.links - 1 = omega arith in
            inr (
              omega arith,
              (
                b,
                at,
                subst
                    (λ k.
                      (finish id (unlinked sid id s)).1.blobs id ≡ some (record b { rc = pos k }))
                    m kept,
              ),
            )
      ],
    )
