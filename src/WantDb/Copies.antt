-- ===== src/WantDb/Copies.antt =====
-- store.go: `CopyAll`, and what it means for reference counts.
use want.Common.{
  ℕ, suc, ◌+◌, ◌==◌, ◌≡◌, sym, ap, ◌∙◌, subst, if◌then◌else◌, Bool, true, false, ◌&&◌, bnot, some,
  List, [], ◌∷◌, ◌++◌, arith, Bool-cases, inl, inr,
}
use want.Common.Result.{ok, err}
use want.WantDb.Tables.{ℤ, pos, negsuc, Blob, Link, Db, foreign_key, Tx}
use want.WantDb.Blobs.{has_link, link, present}
use want.WantDb.Links.{holders, held, has_link-held}
use want.WantDb.Counted.{Counted, Right}

-- The rows that the INSERT adds: those that are there are ignored.
unfoldable pub copied : ℕ → ℕ → List Link → List Link → List Link
copied src dst old [] = []
copied src dst old (l ∷ ls) =
    let rest = copied src dst old ls in
    if (l.store == src) && bnot (has_link dst l.blob old) then link dst l.blob ∷ rest else rest

-- Whether the foreign keys of new rows are there.
abbrev pub allowed : Db → List Link → Bool
allowed s [] = true
allowed s (l ∷ ls) = (s.stores l.store && present (s.blobs l.blob)) && allowed s ls

unfoldable pub copy_all : ℕ → ℕ → Tx Unit
unfolding copied
copy_all src dst s =
    let new = copied src dst s.links s.links in
    if allowed s new then (ok tt, record s { links = new ++ s.links }) else (err foreign_key, s)

holders-append :
    (id : ℕ) (xs ys : List Link) → holders id (xs ++ ys) ≡ holders id xs + holders id ys
holders-append id [] ys = omega arith
holders-append id (x ∷ xs) ys = omega (arith, holders-append id xs ys)

holders-copied :
    (src dst id : ℕ) (old ls : List Link)
    → holders id (copied src dst old ls) ≡ (if has_link dst id old then 0 else held src id ls)
unfolding copied
holders-copied src dst id old [] = ground arith
holders-copied src dst id old (l ∷ ls) = elim (Bool-cases (l.blob == id)) [
  | inl e ↦
      let same : l.blob ≡ id = ground arith in
      let seen : has_link dst l.blob old ≡ has_link dst id old =
        ap (λ j. has_link dst j old) same in
      ground (arith, holders-copied src dst id old ls)
  | inr e ↦ ground (arith, holders-copied src dst id old ls)
]

copy_all-ok :
    (src dst : ℕ) (s : Db)
    → (copy_all src dst s).0 ≡ ok tt
    → copy_all src dst s ≡ (ok tt, record s { links = copied src dst s.links s.links ++ s.links })
unfolding copy_all
copy_all-ok src dst s h = ground arith

abbrev abs : ℤ → ℕ
abs (pos n) = n
abs (negsuc n) = suc n

-- When `CopyAll` returns without error and copies a blob to a store that does not hold it, from right
-- counts, the reference count of the blob is one less than the number of stores that hold it.
pub copy_all-count :
    (src dst id n : ℕ) (b : Blob) (s : Db)
    → Counted s
    → has_link src id s.links ≡ true
    → has_link dst id s.links ≡ false
    → (copy_all src dst s).0 ≡ ok tt
    → (copy_all src dst s).1.blobs id ≡ some b
    → b.rc ≡ pos n
    → suc n ≡ holders id (copy_all src dst s).1.links
copy_all-count src dst id n b s c from to fine at rc =
    let whole = copy_all-ok src dst s fine in
    let state = ap (λ r. r.1) whole in
    let one : held src id s.links ≡ 1 =
      omega (arith, c.unique src id, has_link-held src id s.links from) in
    let before : s.blobs id ≡ some b = subst (λ t. t.blobs id ≡ some b) state at in
    let right : b.rc ≡ pos (holders id s.links) =
      subst (λ o. Right o (holders id s.links)) before (c.right id) in
    let count : n ≡ holders id s.links = ap abs (sym rc ∙ right) in
    let new = holders-copied src dst id s.links s.links in
    let added = holders-append id (copied src dst s.links s.links) s.links in
    rw state (ground arith)
