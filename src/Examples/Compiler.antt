-- ===== src/Examples/Compiler.antt =====
-- The graph builder and the keys of expressions at concrete inputs.
use want.Common.{
  ℕ, zero, suc, if◌then◌else◌, ◌+◌, ◌≤◌, ◌≡◌, ◌≢◌, ◌⊎◌, inl, inr, refl, ap, sym, ◌∙◌, true, some,
  List, [], ◌∷◌, ◌++◌, length, arith,
}
use want.Common.Text.{Str, bytes, str_eq}
use want.Common.Outcome.{done_inj}
use want.WantC.Exprs.{value, Expr, compute, no_inputs, input, be32, key, key_inputs}
use want.WantC.Keys.{compute_text, Plain, Same, key-Same}
use want.WantC.Merging.{named_values}
use want.WantC.Settings.{Setting, merge_of}
use want.WantC.Whole.{Whole}

abbrev zeros : Str
zeros =
    0 ∷ 0 ∷ 0 ∷ 0 ∷ 0 ∷ 0 ∷ 0 ∷ 0 ∷ 0 ∷ 0 ∷ 0 ∷ 0 ∷ 0 ∷ 0 ∷ 0 ∷ 0 ∷ 0 ∷ 0 ∷ 0 ∷ 0 ∷ 0 ∷ 0 ∷ 0 ∷ 0
    ∷ 0 ∷ 0 ∷ 0 ∷ 0 ∷ 0 ∷ 0 ∷ []

-- A hash that tells texts of different lengths apart.
abbrev toy_hash : Str → Str
toy_hash x = (1000 + length x) ∷ 0 ∷ zeros

abbrev toy_cid : ℕ → Str
toy_cid r = 0 ∷ r ∷ zeros

abbrev toy_one : Expr ℕ
toy_one = compute (bytes "o") no_inputs

-- One computation twice, at two places, and a reference.
abbrev toy_pair : ℕ → Expr ℕ
toy_pair mode = compute (bytes "m") (
    input (bytes "a") toy_one mode
      (input (bytes "b") toy_one mode (input (bytes "c") (value 9) mode no_inputs)))

abbrev text_one : Str
text_one = compute_text (bytes "o") 0 []

abbrev text_pair : Str
text_pair = compute_text (bytes "m") 3 (
    be32 1
    ++ (bytes "a"
        ++ (toy_hash text_one
            ++ (be32 1
                ++ (bytes "b"
                    ++ (toy_hash text_one ++ (be32 1 ++ (bytes "c" ++ (toy_cid 9 ++ [])))))))))

abbrev ToyUsed : Str → Type 0
ToyUsed x = (x ≡ text_one) ⊎ (x ≡ text_pair)

abbrev concat : List (Str × Str) → Str
concat [] = []
concat ((n, v) ∷ vs) = v ++ concat vs

abbrev concat_values : List Str → Str
concat_values [] = []
concat_values (v ∷ vs) = v ++ concat_values vs

abbrev toy_fact : Str → Str
toy_fact (a ∷ zero ∷ s) = []
toy_fact (a ∷ suc n ∷ s) = suc n ∷ []
toy_fact _ = []

abbrev toy_apply : Str → List (Str × Str) → Str
toy_apply op vs = if str_eq op (bytes "o") then bytes "o" else concat vs

abbrev head : Str → ℕ
head [] = 0
head (a ∷ s) = a

toy_apart : (x y : Str) → ToyUsed x → ToyUsed y → toy_hash x ≡ toy_hash y → x ≡ y
unfolding be32
toy_apart x y (inl p) (inl q) h = p ∙ sym q
toy_apart x y (inr p) (inr q) h = p ∙ sym q
toy_apart x y (inl p) (inr q) h = absurd (omega (arith, ap length p, ap length q, ap head h))
toy_apart x y (inr p) (inl q) h = absurd (omega (arith, ap length p, ap length q, ap head h))

toy_no_cid : (x : Str) (r : ℕ) → ToyUsed x → toy_hash x ≢ toy_cid r
toy_no_cid x r u h = omega (arith, ap head h)

concat-named : (i : ℕ) (vs : List Str) → concat (named_values i vs) ≡ concat_values vs
concat-named i [] = refl
concat-named i (v ∷ vs) = ap (λ s. v ++ s) (concat-named (suc i) vs)

nil_right : (xs : Str) → xs ++ [] ≡ xs
nil_right [] = refl
nil_right (x ∷ xs) = ap (◌∷◌ x) (nil_right xs)

append_assoc : (xs ys zs : Str) → (xs ++ ys) ++ zs ≡ xs ++ (ys ++ zs)
append_assoc [] ys zs = refl
append_assoc (x ∷ xs) ys zs = ap (◌∷◌ x) (append_assoc xs ys zs)

concat-merge :
    (v : Str) (vs : List Str) → concat_values (v ∷ vs) ≡ merge_of toy_apply (λ u w. u ++ w) (v ∷ vs)
concat-merge v [] = nil_right v
concat-merge v (w ∷ vs) = ap (λ s. v ++ s) (concat-merge w vs)

toy_merge :
    (v : Str) (vs : List Str)
    → length (v ∷ vs) ≤ 64
    → toy_apply (bytes "glfs.merge") (named_values 0 (v ∷ vs))
      ≡ merge_of toy_apply (λ u w. u ++ w) (v ∷ vs)
unfolding str_eq
toy_merge v vs h = concat-named 0 (v ∷ vs) ∙ concat-merge v vs

toy_hash_32 : (x : Str) → ToyUsed x → length (toy_hash x) ≡ 32
toy_hash_32 x u = refl

toy_cid_32 : (r : ℕ) → length (toy_cid r) ≡ 32
toy_cid_32 r = refl

abbrev toy : Setting ℕ Str
toy = record {
  cid = toy_cid;
  hash = toy_hash;
  Used = ToyUsed;
  sync = λ r. true;
  post_blob = λ x. some 0;
  clean = λ p. p;
  fact_of = toy_fact;
  apply = toy_apply;
  over = λ u v. u ++ v;
  blob_of = λ p. [];
  other = [];
  hash_32 = toy_hash_32;
  cid_32 = toy_cid_32;
  apart = toy_apart;
  syncs = λ r. refl;
  posts = λ p. (0, refl, refl);
  merges = toy_merge;
  over_assoc = append_assoc;
}

toy_one-Plain : Plain toy_cid toy_hash ToyUsed toy_one
unfolding key_inputs
toy_one-Plain = (
  omega arith,
  omega arith,
  (λ bs h. inl (ap (compute_text (bytes "o") 0) (sym (done_inj h)))),
  tt,
)

toy_pair-Plain : (mode : ℕ) → Plain toy_cid toy_hash ToyUsed (toy_pair mode)
unfolding key_inputs key be32
toy_pair-Plain mode = (
  omega arith,
  omega arith,
  (λ bs h. inr (ap (compute_text (bytes "m") 3) (sym (done_inj h)))),
  (
    omega arith,
    toy_one-Plain,
    (omega arith, toy_one-Plain, (omega arith, (λ x u. toy_no_cid x 9 u), tt)),
  ),
)

key-Same_example : Same toy_cid (toy_pair 0) (toy_pair 7)
unfolding key key_inputs be32
key-Same_example =
    key-Same toy_cid toy_hash ToyUsed toy_hash_32 toy_cid_32 toy_apart (toy_pair 0) (toy_pair 7)
      (toy_hash text_pair) (toy_pair-Plain 0) (toy_pair-Plain 7) refl refl
