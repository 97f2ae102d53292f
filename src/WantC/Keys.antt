-- ===== src/WantC/Keys.antt =====
-- `Key` (expr.go), by which the compiler and the graph builder know an expression again.
use want.Common.{
  ℕ, ◌/◌, ◌%◌, ◌^◌, ◌<◌, ◌≡◌, ◌≢◌, refl, sym, ◌∙◌, subst, [], ◌∷◌, ◌++◌, length, arith,
}
use want.Common.Text.{Str}
use want.Common.Outcome.{done_inj, done, bind_done}
use want.WantC.Exprs.{
  Expr, Inputs, compute, selection, value, no_inputs, input, be32, count_inputs, key, key_inputs,
}

be32_inj :
    (m n : ℕ) (s t : Str) → m < 2 ^ 32 → n < 2 ^ 32 → be32 m ++ s ≡ be32 n ++ t → (m ≡ n) × (s ≡ t)
unfolding be32
be32_inj m n s t h k e =
    let a : (m / 2 ^ 24) % 256 ≡ (n / 2 ^ 24) % 256 = cc in
    let b : (m / 2 ^ 16) % 256 ≡ (n / 2 ^ 16) % 256 = cc in
    let c : (m / 2 ^ 8) % 256 ≡ (n / 2 ^ 8) % 256 = cc in
    let d : m % 256 ≡ n % 256 = cc in (omega (arith, a, b, c, d, h, k), cc)

append_inj : (s t : Str) (u v : Str) → length s ≡ length t → s ++ u ≡ t ++ v → (s ≡ t) × (u ≡ v)
append_inj [] [] u v h e = (refl, e)
append_inj [] (b ∷ t) u v h e = absurd (omega (arith, h))
append_inj (a ∷ s) [] u v h e = absurd (omega (arith, h))
append_inj (a ∷ s) (b ∷ t) u v h e =
    let (p, q) = append_inj s t u v (omega (arith, h)) (cc) in let same : a ≡ b = cc in (cc, q)

-- A text under its length.
sized_inj :
    (s t u v : Str)
    → length s < 2 ^ 32
    → length t < 2 ^ 32
    → be32 (length s) ++ (s ++ u) ≡ be32 (length t) ++ (t ++ v)
    → (s ≡ t) × (u ≡ v)
sized_inj s t u v h k e =
    let (same, rest) = be32_inj (length s) (length t) (s ++ u) (t ++ v) h k e in
    append_inj s t u v same rest

abbrev pub compute_text : Str → ℕ → Str → Str
compute_text op n bs = be32 (length op) ++ (op ++ (be32 n ++ bs))

compute_text_inj :
    (s t : Str) (m n : ℕ) (u v : Str)
    → length s < 2 ^ 32
    → length t < 2 ^ 32
    → m < 2 ^ 32
    → n < 2 ^ 32
    → compute_text s m u ≡ compute_text t n v
    → (s ≡ t) × (m ≡ n) × (u ≡ v)
compute_text_inj s t m n u v hs ht hm hn e =
    let (op, rest) = sized_inj s t (be32 m ++ u) (be32 n ++ v) hs ht e in
    let (count, ins) = be32_inj m n u v hm hn rest in (op, count, ins)

module _ {Ref : Type 0} (cid : Ref → Str) where
  abbrev mutual
    -- Two expressions that differ at most in the modes of inputs and in references of one CID.
    pub Same : Expr Ref → Expr Ref → Type 0
    Same (compute op ins) (compute op2 ins2) = (op ≡ op2) × SameInputs ins ins2
    Same (value r) (value r2) = cid r ≡ cid r2
    Same _ _ = ⊥

    pub SameInputs : Inputs Ref → Inputs Ref → Type 0
    SameInputs no_inputs no_inputs = Unit
    SameInputs (input to from mode ins) (input to2 from2 mode2 ins2) =
        (to ≡ to2) × Same from from2 × SameInputs ins ins2
    SameInputs _ _ = ⊥

-- `Used` are the texts that are hashed.
module _ {Ref : Type 0} (cid : Ref → Str) (hash : Str → Str) (Used : Str → Type 0) where
  abbrev mutual
    -- An expression without selections, whose texts and lists are shorter than 2^32, and whose
    -- references have CIDs that are the hash of no used text.
    pub Plain : Expr Ref → Type 0
    Plain (compute op ins) =
        (length op < 2 ^ 32)
        × (count_inputs ins < 2 ^ 32)
        × ((bs : Str)
            → key_inputs cid hash ins ≡ done bs
            → Used (compute_text op (count_inputs ins) bs))
        × PlainInputs ins
    Plain (selection m d s) = ⊥
    Plain (value r) = (x : Str) → Used x → hash x ≢ cid r

    pub PlainInputs : Inputs Ref → Type 0
    PlainInputs no_inputs = Unit
    PlainInputs (input to from mode ins) = (length to < 2 ^ 32) × Plain from × PlainInputs ins

  module _ (hash_32 : (x : Str) → Used x → length (hash x) ≡ 32)
      (cid_32 : (r : Ref) → length (cid r) ≡ 32)
      (apart : (x y : Str) → Used x → Used y → hash x ≡ hash y → x ≡ y) where
    key_of_compute :
        (op : Str) (ins : Inputs Ref) (k : Str)
        → key cid hash (compute op ins) ≡ done k
        → (bs : Str) × (key_inputs cid hash ins ≡ done bs)
          × (hash (compute_text op (count_inputs ins) bs) ≡ k)
    unfolding key
    key_of_compute op ins k h =
        let (bs, e, r) = bind_done _ (key_inputs cid hash ins) h in (bs, e, done_inj r)

    key_of_input :
        (to : Str) (from : Expr Ref) (mode : ℕ) (ins : Inputs Ref) (bs : Str)
        → key_inputs cid hash (input to from mode ins) ≡ done bs
        → (k : Str) × (rest : Str) × (key cid hash from ≡ done k)
          × (key_inputs cid hash ins ≡ done rest)
          × (be32 (length to) ++ (to ++ (k ++ rest)) ≡ bs)
    unfolding key_inputs
    key_of_input to from mode ins bs h =
        let (k, e, r) = bind_done _ (key cid hash from) h in
        let (rest, e2, r2) = bind_done _ (key_inputs cid hash ins) r in
        (k, rest, e, e2, done_inj r2)

    key_of_value : (r : Ref) (k : Str) → key cid hash (value r) ≡ done k → cid r ≡ k
    unfolding key
    key_of_value r k h = done_inj h

    length-key : (e : Expr Ref) (k : Str) → Plain e → key cid hash e ≡ done k → length k ≡ 32
    length-key (compute op ins) k p h =
        let (bs, e, r) = key_of_compute op ins k h in
        subst (λ x. length x ≡ 32) r (hash_32 _ (p.2 bs e))
    length-key (selection m d s) k p h = absurd p
    length-key (value r) k p h = subst (λ x. length x ≡ 32) (key_of_value r k h) (cid_32 r)

    mutual
      keys_Same :
          (e e2 : Expr Ref) (k : Str)
          → Plain e
          → Plain e2
          → key cid hash e ≡ done k
          → key cid hash e2 ≡ done k
          → Same cid e e2
      keys_Same (compute op ins) (compute op2 ins2) k p p2 h h2 =
          let (bs, e, r) = key_of_compute op ins k h in
          let (bs2, e2, r2) = key_of_compute op2 ins2 k h2 in
          let same = apart _ _ (p.2 bs e) (p2.2 bs2 e2) (r ∙ sym r2) in
          let (ops, counts, rests) =
            compute_text_inj op op2 (count_inputs ins) (count_inputs ins2) bs bs2 p.0 p2.0 p.1 p2.1
              same in
          let e3 : key_inputs cid hash ins2 ≡ done bs =
            subst (λ b. key_inputs cid hash ins2 ≡ done b) (sym rests) e2 in
          (ops, key_SameInputs ins ins2 bs p.3 p2.3 counts e e3)
      keys_Same (compute op ins) (selection m d s) k p p2 h h2 = absurd p2
      keys_Same (compute op ins) (value r) k p p2 h h2 =
          let (bs, e, q) = key_of_compute op ins k h in
          absurd (p2 _ (p.2 bs e) (q ∙ sym (key_of_value r k h2)))
      keys_Same (selection m d s) e2 k p p2 h h2 = absurd p
      keys_Same (value r) (compute op2 ins2) k p p2 h h2 =
          let (bs, e, q) = key_of_compute op2 ins2 k h2 in
          absurd (p _ (p2.2 bs e) (q ∙ sym (key_of_value r k h)))
      keys_Same (value r) (selection m d s) k p p2 h h2 = absurd p2
      keys_Same (value r) (value r2) k p p2 h h2 = key_of_value r k h ∙ sym (key_of_value r2 k h2)

      key_SameInputs :
          (ins ins2 : Inputs Ref) (bs : Str)
          → PlainInputs ins
          → PlainInputs ins2
          → count_inputs ins ≡ count_inputs ins2
          → key_inputs cid hash ins ≡ done bs
          → key_inputs cid hash ins2 ≡ done bs
          → SameInputs cid ins ins2
      key_SameInputs no_inputs no_inputs bs p p2 c h h2 = tt
      key_SameInputs no_inputs (input to from mode ins) bs p p2 c h h2 = absurd (omega (arith, c))
      key_SameInputs (input to from mode ins) no_inputs bs p p2 c h h2 = absurd (omega (arith, c))
      key_SameInputs (input to from mode ins) (input to2 from2 mode2 ins2) bs p p2 c h h2 =
          let (k, rest, e, e1, q) = key_of_input to from mode ins bs h in
          let (k2, rest2, e2, e3, q2) = key_of_input to2 from2 mode2 ins2 bs h2 in
          let (tos, more) = sized_inj to to2 (k ++ rest) (k2 ++ rest2) p.0 p2.0 (q ∙ sym q2) in
          let lengths = length-key from k p.1 e ∙ sym (length-key from2 k2 p2.1 e2) in
          let (ks, rests) = append_inj k k2 rest rest2 lengths more in
          let e4 : key cid hash from2 ≡ done k =
            subst (λ b. key cid hash from2 ≡ done b) (sym ks) e2 in
          let e5 : key_inputs cid hash ins2 ≡ done rest =
            subst (λ b. key_inputs cid hash ins2 ≡ done b) (sym rests) e3 in
          (
            tos,
            keys_Same from from2 k p.1 p2.1 e e4,
            key_SameInputs ins ins2 rest p.2 p2.2 (omega (arith, c)) e1 e5,
          )

    -- Two expressions without selections that have one key are the same, up to the modes of inputs
    -- and to references of one CID. It takes that operations, names and lists of inputs are shorter than
    -- 2^32, that hashes and CIDs have 32 bytes, that the hash tells the texts apart that it is used
    -- on, and that it gives none of them the CID of a reference in the two expressions: the key of
    -- a value is its bare CID, and nothing marks it as such.
    pub key-Same :
        (e e2 : Expr Ref) (k : Str)
        → Plain e
        → Plain e2
        → key cid hash e ≡ done k
        → key cid hash e2 ≡ done k
        → Same cid e e2
    key-Same = keys_Same
