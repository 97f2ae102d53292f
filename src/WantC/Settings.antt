-- ===== src/WantC/Settings.antt =====
-- What surrounds the graph builder (graph.go): glfs and the hash, and the values that they give meaning to.
use want.Common.{
  ◌≤◌, ◌≡◌, refl, sym, ap, ◌∙◌, Bool, true, Option, some, List, [], ◌∷◌, ◌++◌, length,
}
use want.Common.Text.{Str, bytes}
use want.WantC.Merging.{named_values}

-- Layers merged from the first to the last, where `over u v` is the layer `v` put over `u`; no layers are
-- what the operation glfs.merge makes of them.
abbrev pub merge_of : {V : Type 0} → (Str → List (Str × V) → V) → (V → V → V) → List V → V
merge_of apply over [] = apply (bytes "glfs.merge") []
merge_of apply over (v ∷ []) = v
merge_of apply over (v ∷ w ∷ vs) = over v (merge_of apply over (w ∷ vs))

pub record Setting (Ref V : Type 0) : Type 1 where
  -- The CID of a reference, `blake3.Sum256`, and the texts that it is used on.
  pub cid : Ref → Str
  pub hash : Str → Str
  pub Used : Str → Type 0
  -- `glfstasks.FastSync` into the store, `glfs.PostBlob` and `glfs.CleanPath`.
  pub sync : Ref → Bool
  pub post_blob : Str → Option Ref
  pub clean : Str → Str
  -- The value of a fact by its CID, what an operation makes of named inputs, a layer put over another
  -- one, and the value of a blob by its contents; selections have the value `other`.
  pub fact_of : Str → V
  pub apply : Str → List (Str × V) → V
  pub over : V → V → V
  pub blob_of : Str → V
  pub other : V
  -- Hashes and CIDs have 32 bytes, and the hash tells the texts apart that it is used on.
  pub hash_32 : (x : Str) → Used x → length (hash x) ≡ 32
  pub cid_32 : (r : Ref) → length (cid r) ≡ 32
  pub apart : (x y : Str) → Used x → Used y → hash x ≡ hash y → x ≡ y
  -- The store takes what it is given, and a blob's reference has the value of the blob.
  pub syncs : (r : Ref) → sync r ≡ true
  pub posts : (p : Str) → (r : Ref) × (post_blob p ≡ some r) × (fact_of (cid r) ≡ blob_of p)
  -- The operation glfs.merge puts each layer over the ones before it, and it makes no difference which
  -- of three layers are put over one another first.
  pub merges :
      (v : V) (vs : List V)
      → length (v ∷ vs) ≤ 64
      → apply (bytes "glfs.merge") (named_values 0 (v ∷ vs)) ≡ merge_of apply over (v ∷ vs)
  pub over_assoc : (u v w : V) → over (over u v) w ≡ over u (over v w)

module _ {V : Type 0} (apply : Str → List (Str × V) → V) (over : V → V → V)
    (over_assoc : (u v w : V) → over (over u v) w ≡ over u (over v w)) where
  merge_front :
      (v : V) (vs : List V) (w : V) (ws : List V)
      → over (merge_of apply over (v ∷ vs)) (merge_of apply over (w ∷ ws))
        ≡ merge_of apply over ((v ∷ vs) ++ (w ∷ ws))
  merge_front v [] w ws = refl
  merge_front v (x ∷ vs) w ws =
      over_assoc v (merge_of apply over (x ∷ vs)) (merge_of apply over (w ∷ ws))
      ∙ ap (over v) (merge_front x vs w ws)

  nil_right : (vs : List V) → vs ++ [] ≡ vs
  nil_right [] = refl
  nil_right (v ∷ vs) = ap (◌∷◌ v) (nil_right vs)

  -- A merge among layers may be replaced by its layers.
  pub merge_nested :
      (us : List V) (x : V) (xs ws : List V)
      → merge_of apply over (us ++ merge_of apply over (x ∷ xs) ∷ ws)
        ≡ merge_of apply over (us ++ ((x ∷ xs) ++ ws))
  merge_nested [] x xs [] = sym (ap (merge_of apply over) (nil_right (x ∷ xs)))
  merge_nested [] x xs (w ∷ ws) = merge_front x xs w ws
  merge_nested (u ∷ []) x xs ws = ap (over u) (merge_nested [] x xs ws)
  merge_nested (u ∷ v ∷ us) x xs ws = ap (over u) (merge_nested (v ∷ us) x xs ws)

module _ {Ref V : Type 0} (t : Setting Ref V) where
  pub merges_all :
      (vs : List V)
      → length vs ≤ 64
      → t.apply (bytes "glfs.merge") (named_values 0 vs) ≡ merge_of t.apply t.over vs
  merges_all [] h = refl
  merges_all (v ∷ vs) h = t.merges v vs h
