-- ===== src/WantDb/Links.antt =====
-- Counting the rows of `store_blobs`: store.go.
use want.Common.{
  ℕ, ◌+◌, ◌≤◌, ◌<◌, ◌==◌, ◌≡◌, refl, if◌then◌else◌, true, false, List, [], ◌∷◌, arith,
}
use want.WantDb.Tables.{Link}
use want.WantDb.Blobs.{is_link, has_link, has_holder, without}

-- How many stores hold a blob.
abbrev pub holders : ℕ → List Link → ℕ
holders id [] = 0
holders id (l ∷ ls) = (if l.blob == id then 1 else 0) + holders id ls

-- How often a store holds a blob.
abbrev pub held : ℕ → ℕ → List Link → ℕ
held sid id [] = 0
held sid id (l ∷ ls) = (if is_link sid id l then 1 else 0) + held sid id ls

pub held-has_link : (sid id : ℕ) (ls : List Link) → has_link sid id ls ≡ false → held sid id ls ≡ 0
held-has_link sid id [] h = refl
held-has_link sid id (l ∷ ls) h = ground (arith, held-has_link sid id ls)

pub has_link-held : (sid id : ℕ) (ls : List Link) → has_link sid id ls ≡ true → 0 < held sid id ls
has_link-held sid id [] h = cc
has_link-held sid id (l ∷ ls) h = ground (arith, has_link-held sid id ls)

-- Without a link of its own, a store holds nothing; the others hold what they held.
pub held-without_link :
    (sid id t j : ℕ) (ls : List Link) → held t j (without (is_link sid id) ls) ≤ held t j ls
held-without_link sid id t j [] = omega arith
held-without_link sid id t j (l ∷ ls) = ground (arith, held-without_link sid id t j ls)

pub holders-without_link :
    (sid id j : ℕ) (ls : List Link)
    → holders j (without (is_link sid id) ls) + (if j == id then held sid id ls else 0)
      ≡ holders j ls
holders-without_link sid id j [] = ground arith
holders-without_link sid id j (l ∷ ls) = ground (arith, holders-without_link sid id j ls)

pub held-without_store :
    (sid t j : ℕ) (ls : List Link) → held t j (without (λ l. l.store == sid) ls) ≤ held t j ls
held-without_store sid t j [] = omega arith
held-without_store sid t j (l ∷ ls) = ground (arith, held-without_store sid t j ls)

pub holders-without_store :
    (sid j : ℕ) (ls : List Link)
    → holders j (without (λ l. l.store == sid) ls) + held sid j ls ≡ holders j ls
holders-without_store sid j [] = ground arith
holders-without_store sid j (l ∷ ls) = ground (arith, holders-without_store sid j ls)

pub holders-has_holder : (id : ℕ) (ls : List Link) → has_holder id ls ≡ false → holders id ls ≡ 0
holders-has_holder id [] h = refl
holders-has_holder id (l ∷ ls) h = ground (arith, holders-has_holder id ls)

pub has_holder-holders : (id : ℕ) (ls : List Link) → holders id ls ≡ 0 → has_holder id ls ≡ false
has_holder-holders id [] h = refl
has_holder-holders id (l ∷ ls) h = ground (arith, has_holder-holders id ls)

pub has_link-without :
    (sid id : ℕ) (ls : List Link) → has_link sid id (without (is_link sid id) ls) ≡ false
has_link-without sid id [] = refl
has_link-without sid id (l ∷ ls) = ground (arith, has_link-without sid id ls)
