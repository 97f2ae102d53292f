-- ===== src/Stores/Cached.antt =====
-- What `LRUCache` (lru_cache.go) answers over a store of fixed contents.
use want.Common.{
  map, ◌∙◌, ◌≢◌, ◌<◌, ℕ, zero, suc, ◌≤◌, Option, none, some, take, length, ◌≡◌, refl, inl, inr,
  Option-cases, List, [], ◌∷◌, arith, ap, subst, sym,
}
use mathlib.Core.Path.{ap₂}
use want.Common.Text.{Str}
use want.Common.Result.{Result, ok}
use want.Stores.Getters.{GetError}
use want.Stores.Contents.{read_of, holding}
use want.Stores.Cache.{Lru, IsLru, HasRoom, cached_get, answer, remember}

pub take_all : (n : ℕ) (x : Str) → length x ≤ n → take n x ≡ x
take_all zero [] h = refl
take_all zero (a ∷ x) h = absurd (omega (arith, h))
take_all (suc n) [] h = refl
take_all (suc n) (a ∷ x) h = ap (◌∷◌ a) (take_all n x (omega (arith, h)))

module _ {C : Type 0} (lru : Lru C) (held : C → ℕ → Option Str) (is_lru : IsLru lru held)
    (blobs : ℕ → Option Str) where
  -- Every entry of the cache is a whole blob of the store.
  abbrev pub Whole : C → Type 0
  Whole c = (j : ℕ) (y : Str) → held c j ≡ some y → blobs j ≡ some y

  abbrev Fits : ℕ → Type 0
  Fits n = (j : ℕ) (y : Str) → blobs j ≡ some y → length y ≤ n

  add-Whole : (c : C) (id : ℕ) (x : Str) → Whole c → blobs id ≡ some x → Whole (lru.add c id x)
  add-Whole c id x w e j y h = elim (is_lru.adds c id j x y h) [ inl (p, q) ↦ cc | inr k ↦ w j y k ]

  -- The answer of one read is the store's, and the entries stay whole.
  abbrev Right : ℕ → ℕ → Result GetError Str × C → Type 0
  Right id n r = (r.0 ≡ read_of id n (blobs id)) × Whole (r.1)

  remember-Right :
      (c : C) (id n : ℕ)
      → Whole c
      → Fits n
      → Right id n (remember lru (holding blobs) c id (read_of id n (blobs id)))
  remember-Right c id n w fits = elim (Option-cases (blobs id)) [
    | inl e ↦ rw e (refl, w)
    | inr (x, e) ↦
        subst (λ o. Right id n (remember lru (holding blobs) c id (read_of id n o))) (sym e)
          (
            ap (read_of id n) (sym e),
            subst (λ y. Whole (lru.add c id y)) (sym (take_all n x (fits id x e)))
                (add-Whole c id x w e),
          )
  ]

  answer-Right :
      (c : C) (id n : ℕ) (o : Option Str) (hit : (y : Str) → o ≡ some y → blobs id ≡ some y)
      → Whole c
      → Fits n
      → Right id n (answer lru (holding blobs) id n (o, c))
  answer-Right c id n none hit w fits = remember-Right c id n w fits
  answer-Right c id n (some x) hit w fits = (ap (read_of id n) (sym (hit x refl)), w)

  cached_get-Right :
      (c : C) (id n : ℕ) → Whole c → Fits n → Right id n (cached_get lru (holding blobs) c id n)
  unfolding cached_get
  cached_get-Right c id n w fits =
      answer-Right ((lru.lookup c id).1) id n ((lru.lookup c id).0)
        (λ y h. w id y (sym (is_lru.looks_up c id) ∙ h))
        (λ j y h. w j y (sym (is_lru.keeps c id j) ∙ h)) fits

  -- The answers of reads one after the other, each with a buffer of `n` bytes.
  abbrev pub cached_reads : C → ℕ → List ℕ → List (Result GetError Str)
  cached_reads c n [] = []
  cached_reads c n (id ∷ ids) =
      let r = cached_get lru (holding blobs) c id n in r.0 ∷ cached_reads (r.1) n ids

  -- Reads through the cache, one after the other, answer what the store behind it answers, when the
  -- buffer is no shorter than any blob of the store and the cache holds only whole blobs at first.
  pub cached_get-holding :
      (c : C) (n : ℕ) (ids : List ℕ)
      → Whole c
      → ((j : ℕ) (y : Str) → blobs j ≡ some y → length y ≤ n)
      → cached_reads c n ids ≡ map (λ id. read_of id n (blobs id)) ids
  cached_get-holding c n [] w fits = refl
  cached_get-holding c n (id ∷ ids) w fits =
      let right : Right id n (cached_get lru (holding blobs) c id n) =
        cached_get-Right c id n w fits in
      ap₂ ◌∷◌ (right.0)
        (cached_get-holding ((cached_get lru (holding blobs) c id n).1) n ids (right.1) fits)

answer-miss :
    {C : Type 0} (lru : Lru C) (blobs : ℕ → Option Str) (id n : ℕ) (x : Str) (p : Option Str × C)
    → p.0 ≡ none
    → blobs id ≡ some x
    → (answer lru (holding blobs) id n p).1 ≡ lru.add (p.1) id (take n x)
answer-miss lru blobs id n x (none, c) h e = rw e refl
answer-miss lru blobs id n x (some y, c) h e = cc

answer-hit :
    {C : Type 0} (lru : Lru C) (blobs : ℕ → Option Str) (id n : ℕ) (x : Str) (p : Option Str × C)
    → p.0 ≡ some x
    → (answer lru (holding blobs) id n p).0 ≡ ok (take n x)
answer-hit lru blobs id n x (none, c) h = cc
answer-hit lru blobs id n x (some y, c) h = ground arith

-- Cutting to a length and then to a longer one is cutting to the first.
take_longer : (n m : ℕ) (x : Str) → n < m → take m (take n x) ≡ take n x
take_longer n zero x h = absurd (omega (arith, h))
take_longer zero (suc m) x h = refl
take_longer (suc n) (suc m) [] h = refl
take_longer (suc n) (suc m) (a ∷ x) h = ap (◌∷◌ a) (take_longer n m x (omega (arith, h)))

-- What is cut is not the whole.
take_shorter : (n m : ℕ) (x : Str) → n < length x → n < m → take n x ≢ take m x
take_shorter n zero x h k e = omega (arith, k)
take_shorter n (suc m) [] h k e = omega (arith, h)
take_shorter zero (suc m) (a ∷ x) h k e = cc
take_shorter (suc n) (suc m) (a ∷ x) h k e =
    take_shorter n m x (omega (arith, h)) (omega (arith, k)) (cc)

ok_inj : {x y : Str} → ◌≡◌ {A = Result GetError Str} (ok x) (ok y) → x ≡ y
ok_inj e = cc

-- Over a store that fills a buffer as far as it goes and reports nothing when the blob is longer, as the
-- stores of the tables do: when a blob that is not in the cache is read with a buffer shorter than it,
-- the next read of it, with a longer buffer, answers with the part that fitted the first buffer, which is
-- not what the store answers. The cache has room for an entry.
pub cached_get_short :
    {C : Type 0} (lru : Lru C) (held : C → ℕ → Option Str)
    → IsLru lru held
    → HasRoom lru
    → (blobs : ℕ → Option Str) (c : C) (id n m : ℕ) (x : Str) → held c id ≡ none
    → blobs id ≡ some x
    → n < length x
    → n < m
    → let second =
        (cached_get lru (holding blobs) ((cached_get lru (holding blobs) c id n).1) id m).0 in
      (second ≡ ok (take n x)) × (second ≢ read_of id m (blobs id))
unfolding cached_get
cached_get_short lru held is_lru room blobs c id n m x miss e h k =
    let first : (cached_get lru (holding blobs) c id n).1
        ≡ lru.add ((lru.lookup c id).1) id (take n x) =
      answer-miss lru blobs id n x (lru.lookup c id) (is_lru.looks_up c id ∙ miss) e in
    let cut : (cached_get lru (holding blobs) (lru.add ((lru.lookup c id).1) id (take n x)) id m).0
        ≡ ok (take m (take n x)) =
      answer-hit lru blobs id m (take n x) _ (room ((lru.lookup c id).1) id (take n x)) in
    let second : (cached_get lru (holding blobs) ((cached_get lru (holding blobs) c id n).1) id m).0
        ≡ ok (take n x) =
      ap (λ d. (cached_get lru (holding blobs) d id m).0) first
      ∙ cut
      ∙ ap ok (take_longer n m x k) in
    (second, (λ r. take_shorter n m x h k (ok_inj (sym second ∙ r ∙ ap (read_of id m) e))))
