-- ===== src/WantDb/Counted.antt =====
-- store.go: reference counts, and the stores that hold a blob.
use want.Common.{
  ℕ, suc, ◌≤◌, ◌==◌, ltb, ◌≡◌, refl, sym, ap, subst, ◌≢◌, if◌then◌else◌, Bool, true, false, ◌&&◌,
  Option, none, some, ◌∷◌, length, arith, Bool-cases, Option-cases, inl, inr, if_both,
}
use want.Common.Text.{Str}
use want.Common.Result.{Result, ok, err}
use want.Stores.Getters.{max_blob_size}
use want.WantDb.Tables.{ℤ, pos, pred_ℤ, is_zero, Blob, Db, DbError, Tx, and_then, ◌>>=◌, give}
use want.WantDb.Blobs.{
  is_link, has_link, has_holder, link, without, present, recount, at_key, insert_link, add_changes,
  update_rc, add_blob, blob_exists, insert_blob, drop_blob, decr_blob_rc, get_blob_rc,
  store_contains, delete_links, store_remove, delete_blob, create_store, release, delete_store,
  drop_store, post_blob,
}
use want.WantDb.Links.{
  holders, held, held-has_link, has_link-held, held-without_link, holders-without_link,
  held-without_store, holders-without_store, holders-has_holder,
}

-- A count is right.
abbrev pub Right : Option Blob → ℕ → Type 0
Right none n = n ≡ 0
Right (some b) n = b.rc ≡ pos n

pub record Counted (s : Db) : Type 0 where
  pub right : (id : ℕ) → Right (s.blobs id) (holders id s.links)
  pub unique : (sid id : ℕ) → held sid id s.links ≤ 1

Right-at_key :
    (blobs : ℕ → Option Blob) (id : ℕ) (o : Option Blob) (h h' : ℕ → ℕ)
    → Right o (h' id)
    → ((j : ℕ) → j ≢ id → h' j ≡ h j)
    → ((j : ℕ) → Right (blobs j) (h j))
    → (j : ℕ) → Right (at_key blobs id o j) (h' j)
Right-at_key blobs id o h h' here others right j = elim (Bool-cases (j == id)) [
  | inl e ↦ let same : j ≡ id = ground arith in rw e (subst (λ k. Right o (h' k)) (sym same) here)
  | inr e ↦
      let apart : j ≢ id = ground arith in
      rw e (subst (λ n. Right (blobs j) n) (sym (others j apart)) (right j))
]

Right-more :
    (o : Option Blob) (n : ℕ)
    → present o ≡ true
    → Right o n
    → Right (recount (add_changes 1) o) (suc n)
Right-more none n p r = cc
Right-more (some b) n p r = rw r refl

Right-less : (o : Option Blob) (n : ℕ) → Right o (suc n) → Right (recount pred_ℤ o) n
Right-less none n r = cc
Right-less (some b) n r = rw r refl

Right-same : (o : Option Blob) (n : ℕ) → Right o n → Right (recount (add_changes 0) o) n
Right-same none n r = r
Right-same (some b) n r = r

pub add_blob-Counted : (sid id : ℕ) (s : Db) → Counted s → Counted (add_blob sid id s).1
unfolding add_blob insert_link update_rc
add_blob-Counted sid id s c = elim (Bool-cases (has_link sid id s.links)) [
  | inl found ↦ rw found (record {
    right =
        Right-at_key s.blobs id _ (λ j. holders j s.links) (λ j. holders j s.links)
          (Right-same (s.blobs id) _ (c.right id)) (λ j ne. refl) c.right;
    unique = c.unique;
  })
  | inr absent ↦ elim (Bool-cases (s.stores sid && present (s.blobs id))) [
    | inr bad ↦ rw (absent, bad) c
    | inl good ↦
        let there : present (s.blobs id) ≡ true = ground arith in
        rw (absent, good)
          (record {
            right =
                Right-at_key s.blobs id _ (λ j. holders j s.links)
                  (λ j. holders j (link sid id ∷ s.links))
                  (subst (λ n. Right (recount (add_changes 1) (s.blobs id)) n) (ground arith)
                    (Right-more (s.blobs id) _ there (c.right id)))
                  (λ j ne. ground arith) c.right;
            unique = λ t j. ground (arith, c.unique t j, held-has_link sid id s.links absent);
          })
  ]
]

-- A transaction keeps the counts right, whether it returns an error or not.
abbrev pub Keeps : {A : Type 0} → Tx A → Type 0
Keeps m = (s : Db) → Counted s → Counted (m s).1

and_then-Counted :
    {A B : Type 0} (r : Result DbError A × Db) (f : A → Tx B)
    → Counted r.1
    → ((a : A) → Keeps (f a))
    → Counted (and_then r f).1
and_then-Counted (err e, s) f h k = h
and_then-Counted (ok a, s) f h k = k a s h

bind-Keeps :
    {A B : Type 0} (m : Tx A) (f : A → Tx B) → Keeps m → ((a : A) → Keeps (f a)) → Keeps (m >>= f)
bind-Keeps m f h k s c = and_then-Counted (m s) f (h s c) k

insert_blob-Counted : (id : ℕ) (x : Str) (s : Db) → Counted s → Counted (insert_blob id x s).1
unfolding insert_blob
insert_blob-Counted id x s c = elim (Option-cases (s.blobs id)) [
  | inr (b, e) ↦ rw e c
  | inl e ↦
      let nobody : holders id s.links ≡ 0 =
        subst (λ o. Right o (holders id s.links)) e (c.right id) in
      rw e (record {
        right =
            Right-at_key s.blobs id _ (λ j. holders j s.links) (λ j. holders j s.links)
              (ap pos (sym nobody)) (λ j ne. refl) c.right;
        unique = c.unique;
      })
]

pub post_blob-Counted : (hash : Str → ℕ) (sid : ℕ) (x : Str) → Keeps (post_blob hash sid x)
unfolding post_blob blob_exists
post_blob-Counted hash sid x =
    let id = hash x in
    let insert : Bool → Tx Unit = λ found. if found then give tt else insert_blob id x in
    let finish : Tx ℕ = add_blob sid id >>= λ _. give id in
    let insert-keeps : (b : Bool) → Keeps (insert b) =
      λ b. if_both {A = Tx Unit} Keeps b (λ s c. c) (insert_blob-Counted id x) in
    let finish-keeps =
      bind-Keeps (add_blob sid id) (λ _. give id) (add_blob-Counted sid id) (λ _ s c. c) in
    if_both {A = Tx ℕ} Keeps (ltb max_blob_size (length x)) (λ s c. c)
      (bind-Keeps (blob_exists id) (λ found. insert found >>= λ _. finish) (λ s c. c)
        (λ b. bind-Keeps (insert b) (λ _. finish) (insert-keeps b) (λ _. finish-keeps)))

store_remove-Counted :
    (sid id : ℕ) (s : Db) → sid ≢ 0 → Counted s → Counted (store_remove sid id s).1
unfolding store_remove store_contains delete_links decr_blob_rc update_rc
store_remove-Counted sid id s ne c =
    let real : (sid == 0) ≡ false = ground arith in
    elim (Bool-cases (has_link sid id s.links)) [
      | inr absent ↦ rw (real, absent) c
      | inl found ↦
          let one : held sid id s.links ≡ 1 =
            omega (arith, c.unique sid id, has_link-held sid id s.links found) in
          let less : suc (holders id (without (is_link sid id) s.links)) ≡ holders id s.links =
            ground (arith, holders-without_link sid id id s.links) in
          rw (real, found)
            (record {
              right =
                  Right-at_key s.blobs id _ (λ j. holders j s.links)
                    (λ j. holders j (without (is_link sid id) s.links))
                    (Right-less (s.blobs id) _
                      (subst (λ n. Right (s.blobs id) n) (sym less) (c.right id)))
                    (λ j apart. ground (arith, holders-without_link sid id j s.links)) c.right;
              unique = λ t j. omega (arith, c.unique t j, held-without_link sid id t j s.links);
            })
    ]

drop_blob-Counted : (id : ℕ) (s : Db) → Counted s → Counted (drop_blob id s).1
unfolding drop_blob
drop_blob-Counted id s c = elim (Bool-cases (has_holder id s.links)) [
  | inl e ↦ rw e c
  | inr e ↦ rw e (record {
    right =
        Right-at_key s.blobs id none (λ j. holders j s.links) (λ j. holders j s.links)
          (holders-has_holder id s.links e) (λ j ne. refl) c.right;
    unique = c.unique;
  })
]

get_blob_rc-same : (id : ℕ) (s : Db) → (get_blob_rc id s).1 ≡ s
unfolding get_blob_rc
get_blob_rc-same id s = elim (Option-cases (s.blobs id)) [
  | inl e ↦ ground arith
  | inr (b, e) ↦ ground arith
]

pub delete_blob-Counted : (sid id : ℕ) → sid ≢ 0 → Keeps (delete_blob sid id)
unfolding delete_blob
delete_blob-Counted sid id ne =
    let finish : ℤ → Tx Unit = λ rc. if is_zero rc then drop_blob id else give tt in
    bind-Keeps (store_remove sid id) (λ _. get_blob_rc id >>= finish)
      (λ s c. store_remove-Counted sid id s ne c)
      (λ _.
        bind-Keeps (get_blob_rc id) finish (λ s c. subst Counted (sym (get_blob_rc-same id s)) c)
          (λ z. if_both {A = Tx Unit} Keeps (is_zero z) (drop_blob-Counted id) (λ s c. c)))

delete_store-Counted : (sid : ℕ) (s : Db) → Counted s → Counted (delete_store sid s).1
unfolding delete_store
delete_store-Counted sid s c =
    if_both {A = Result DbError Unit × Db} (λ r. Counted r.1) (s.in_use sid) c
      (record { right = c.right; unique = c.unique })

-- After the first two statements of `DropStore`.
emptied : ℕ → Db → Db
emptied sid s = record s {
  blobs = λ id. if has_link sid id s.links then recount pred_ℤ (s.blobs id) else s.blobs id;
  links = without (λ l. l.store == sid) s.links;
}

emptied-Counted : (sid : ℕ) (s : Db) → Counted s → Counted (emptied sid s)
unfolding emptied
emptied-Counted sid s c = record {
  right = λ j. elim (Bool-cases (has_link sid j s.links)) [
    | inl found ↦
        let one : suc (holders j (without (λ l. l.store == sid) s.links)) ≡ holders j s.links =
          omega (
            arith,
            holders-without_store sid j s.links,
            c.unique sid j,
            has_link-held sid j s.links found,
          ) in
        rw found (Right-less (s.blobs j) _ (subst (λ n. Right (s.blobs j) n) (sym one) (c.right j)))
    | inr absent ↦
        let same : holders j s.links ≡ holders j (without (λ l. l.store == sid) s.links) =
          omega (arith, holders-without_store sid j s.links, held-has_link sid j s.links absent) in
        rw absent (subst (λ n. Right (s.blobs j) n) same (c.right j))
  ];
  unique = λ t j. omega (arith, c.unique t j, held-without_store sid t j s.links);
}

pub drop_store-Counted : (sid : ℕ) (s : Db) → Counted s → Counted (drop_store sid s).1
unfolding drop_store release delete_links emptied
drop_store-Counted sid s c = delete_store-Counted sid (emptied sid s) (emptied-Counted sid s c)

pub create_store-Counted : (s : Db) → Counted s → Counted (create_store s).1
unfolding create_store
create_store-Counted s c = record { right = c.right; unique = c.unique }
