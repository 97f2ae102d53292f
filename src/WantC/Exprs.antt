-- ===== src/WantC/Exprs.antt =====
-- expr.go: the expressions of the compiler. `Ref` stands for `glfs.Ref`, `cid` for its field CID as
-- bytes, and `hash` for `blake3.Sum256`.
use want.Common.{
  ℕ, suc, ◌/◌, ◌%◌, ◌^◌, Bool, true, false, if◌then◌else◌, ltb, List, [], ◌∷◌, ◌++◌, length,
}
use want.Common.Text.{Str}
use want.Common.Outcome.{Outcome, done, ◌>>=◌}
use want.StringSets.Sets.{Set, empty}
use want.StringSets.Combine.{union}
use want.StringSets.Print.{set_string}

mutual
  -- `Expr`, with the types `compute`, `selection` and `value` that implement it.
  pub data Expr (Ref : Type 0) : Type 0 where
    compute : Str → Inputs Ref → Expr Ref
    selection : Str → Bool → Set → Expr Ref
    value : Ref → Expr Ref

  -- `[]computeInput`, each with To, From and Mode.
  pub data Inputs (Ref : Type 0) : Type 0 where
    no_inputs : Inputs Ref
    input : Str → Expr Ref → ℕ → Inputs Ref → Inputs Ref

-- `binary.BigEndian.AppendUint32`, of `uint32(n)`.
unfoldable pub be32 : ℕ → Str
be32 n = (n / 2 ^ 24) % 256 ∷ (n / 2 ^ 16) % 256 ∷ (n / 2 ^ 8) % 256 ∷ n % 256 ∷ []

module _ {Ref : Type 0} where
  abbrev pub count_inputs : Inputs Ref → ℕ
  count_inputs no_inputs = 0
  count_inputs (input to from mode ins) = suc (count_inputs ins)

  -- `newSelection`.
  unfoldable pub new_selection : Str → Bool → Set → Expr Ref
  new_selection = selection

  unfoldable mutual
    unfolding union

    -- `Needs`.
    pub needs : Expr Ref → Set
    needs (compute op ins) = union (input_needs ins)
    needs (selection m d s) = s
    needs (value r) = empty

    pub input_needs : Inputs Ref → List Set
    input_needs no_inputs = []
    input_needs (input to from mode ins) = needs from ∷ input_needs ins

  -- `maxToLen`, with the greatest length so far.
  unfoldable pub max_to_len_from : ℕ → Inputs Ref → ℕ
  max_to_len_from max no_inputs = max
  max_to_len_from max (input to from mode ins) =
      max_to_len_from (if ltb max (length to) then length to else max) ins

  unfoldable pub max_to_len : Inputs Ref → ℕ
  unfolding max_to_len_from
  max_to_len ins = max_to_len_from 0 ins

  -- `IsContextDependent`.
  unfoldable pub is_context_dependent : Expr Ref → Bool
  is_context_dependent (compute op ins) = true
  is_context_dependent (selection m d s) = false
  is_context_dependent (value r) = true

  module _ (cid : Ref → Str) (hash : Str → Str) where
    unfoldable mutual
      unfolding be32 set_string

      -- `Key`.
      pub key : Expr Ref → Outcome Str
      key (compute op ins) = do
        bs ← key_inputs ins
        done (hash (be32 (length op) ++ (op ++ (be32 (count_inputs ins) ++ bs))))
      key (selection m d s) = do x ← set_string s; done (hash x)
      key (value r) = done (cid r)

      -- What the loop of `compute.Key` appends.
      pub key_inputs : Inputs Ref → Outcome Str
      key_inputs no_inputs = done []
      key_inputs (input to from mode ins) = do
        k ← key from
        bs ← key_inputs ins
        done (be32 (length to) ++ (to ++ (k ++ bs)))
