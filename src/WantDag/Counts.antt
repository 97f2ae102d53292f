-- ===== src/WantDag/Counts.antt =====
-- Counting what a pool of goroutines has yet to do.
use want.Common.{
  ℕ, zero, suc, ◌+◌, ◌<◌, ◌==◌, ◌≡◌, refl, if◌then◌else◌, Bool, true, false, List, [], ◌∷◌, ◌++◌,
  length, arith, Bool-cases, inl, inr, subst, ◌≢◌, ◌⊎◌, ap,
}
use want.WantDag.Nodes.{NodeInput, Node}
use want.WantDag.Builder.{InputsBefore}
use want.WantDag.Parallel.{targets, unblocks, inputs_at}

-- How often `t` occurs.
abbrev pub occurs : ℕ → List ℕ → ℕ
occurs t [] = 0
occurs t (x ∷ xs) = (if x == t then 1 else 0) + occurs t xs

-- How often `t` has still to be told.
abbrev pub told : ℕ → List (List ℕ) → ℕ
told t [] = 0
told t (xs ∷ xss) = occurs t xs + told t xss

-- How many inputs come from `id`.
abbrev pub from_node : ℕ → List NodeInput → ℕ
from_node id [] = 0
from_node id (i ∷ ins) = (if i.node == id then 1 else 0) + from_node id ins

-- How many inputs are not finished.
abbrev pub pending : (ℕ → Bool) → List NodeInput → ℕ
pending fin [] = 0
pending fin (i ∷ ins) = (if fin i.node then 0 else 1) + pending fin ins

abbrev pub mark : (ℕ → Bool) → ℕ → ℕ → Bool
mark fin id j = if id == j then true else fin j

pub occurs-append : (t : ℕ) (xs ys : List ℕ) → occurs t (xs ++ ys) ≡ occurs t xs + occurs t ys
occurs-append t [] ys = omega arith
occurs-append t (x ∷ xs) ys = omega (arith, occurs-append t xs ys)

pub told-append : (t : ℕ) (xs ys : List (List ℕ)) → told t (xs ++ ys) ≡ told t xs + told t ys
told-append t [] ys = omega arith
told-append t (x ∷ xs) ys = omega (arith, told-append t xs ys)

pub pending-mark :
    (fin : ℕ → Bool) (id : ℕ) (ins : List NodeInput)
    → fin id ≡ false
    → pending (mark fin id) ins + from_node id ins ≡ pending fin ins
pending-mark fin id [] h = omega arith
pending-mark fin id (i ∷ ins) h = ground (arith, pending-mark fin id ins h)

targets_self : (id t : ℕ) (ins : List NodeInput) → occurs t (targets id t ins) ≡ from_node id ins
unfolding targets
targets_self id t [] = refl
targets_self id t (i ∷ ins) = ground (arith, targets_self id t ins)

targets_other : (id t s : ℕ) (ins : List NodeInput) → t < s → occurs t (targets id s ins) ≡ 0
unfolding targets
targets_other id t s [] h = refl
targets_other id t s (i ∷ ins) h = ground (arith, targets_other id t s ins h)

targets_later : (id t s : ℕ) (ins : List NodeInput) → t < s → occurs s (targets id t ins) ≡ 0
unfolding targets
targets_later id t s [] h = refl
targets_later id t s (i ∷ ins) h = ground (arith, targets_later id t s ins h)

module _ {Ref : Type 0} where
  unblocks_before : (id t s : ℕ) (xs : List (Node Ref)) → t < s → occurs t (unblocks id s xs) ≡ 0
  unfolding unblocks
  unblocks_before id t s [] h = refl
  unblocks_before id t s (x ∷ xs) h = ground (
    arith,
    occurs-append t (targets id s x.inputs) (unblocks id (suc s) xs),
    targets_other id t s x.inputs h,
    unblocks_before id t (suc s) xs (omega arith),
  )

  unblocks_from :
      (id s t m : ℕ) (xs : List (Node Ref))
      → m ≡ s + t
      → occurs m (unblocks id s xs) ≡ from_node id (inputs_at xs t)
  unfolding unblocks
  unblocks_from id s t m [] e = refl
  unblocks_from id s zero m (x ∷ xs) e =
      let same : m ≡ s = omega arith in
      rw same (
        omega (
          arith,
          occurs-append s (targets id s x.inputs) (unblocks id (suc s) xs),
          targets_self id s x.inputs,
          unblocks_before id s (suc s) xs (omega arith),
        ))
  unblocks_from id s (suc t) m (x ∷ xs) e = omega (
    arith,
    occurs-append m (targets id s x.inputs) (unblocks id (suc s) xs),
    targets_later id s m x.inputs (omega arith),
    unblocks_from id (suc s) t m xs (omega arith),
  )

  -- A finished node tells each node once for each of its inputs that it is.
  pub unblocks_lem :
      (id t : ℕ) (xs : List (Node Ref))
      → occurs t (unblocks id 0 xs) ≡ from_node id (inputs_at xs t)
  unblocks_lem id t xs = unblocks_from id 0 t t xs (omega arith)

  pub inputs_at_inside :
      (id : ℕ) (xs : List (Node Ref)) (t : ℕ) → 0 < from_node id (inputs_at xs t) → t < length xs
  inputs_at_inside id [] t h = omega arith
  inputs_at_inside id (x ∷ xs) zero h = omega arith
  inputs_at_inside id (x ∷ xs) (suc t) h = omega (arith, inputs_at_inside id xs t h)

-- The sum of `f` below `n`.
abbrev pub total : (ℕ → ℕ) → ℕ → ℕ
total f zero = 0
total f (suc n) = total f n + f n

pub total_same : (f g : ℕ → ℕ) (n : ℕ) → ((t : ℕ) → t < n → f t ≡ g t) → total f n ≡ total g n
total_same f g zero h = refl
total_same f g (suc n) h =
    omega (arith, total_same f g n (λ t lt. h t (omega arith)), h n (omega arith))

-- One summand is one less, the others are the same.
pub total_less :
    (f g : ℕ → ℕ) (n id : ℕ)
    → id < n
    → suc (g id) ≡ f id
    → ((t : ℕ) → id ≢ t → f t ≡ g t)
    → suc (total g n) ≡ total f n
total_less f g zero id lt e h = elim lt [ ]
total_less f g (suc n) id lt e h = elim (Bool-cases (id == n)) [
  | inl q ↦
      let same : id ≡ n = ground arith in
      let here : suc (g n) ≡ f n = subst (λ m. suc (g m) ≡ f m) same e in
      omega (arith, total_same f g n (λ t le. h t (omega arith)), here)
  | inr q ↦
      let apart : id ≢ n = ground arith in
      omega (arith, total_less f g n id (omega arith) e h, h n apart)
]

pub total_zero : (f : ℕ → ℕ) (n t : ℕ) → total f n ≡ 0 → t < n → f t ≡ 0
total_zero f zero t h lt = elim lt [ ]
total_zero f (suc n) t h lt = elim (Bool-cases (t == n)) [
  | inl q ↦ let same : n ≡ t = ground arith in subst (λ m. f m ≡ 0) same (omega arith)
  | inr q ↦ total_zero f n t (omega arith) (ground arith)
]

pub pending_none : (ins : List NodeInput) → pending (λ _. false) ins ≡ length ins
pending_none [] = refl
pending_none (i ∷ ins) = omega (arith, pending_none ins)

pub total_nothing : (f : ℕ → ℕ) (n : ℕ) → ((t : ℕ) → t < n → f t ≡ 0) → total f n ≡ 0
total_nothing f zero h = refl
total_nothing f (suc n) h =
    omega (arith, total_nothing f n (λ t lt. h t (omega arith)), h n (omega arith))

pub pending_zero :
    (fin : ℕ → Bool) (t : ℕ) (ins : List NodeInput)
    → InputsBefore t ins
    → ((j : ℕ) → j < t → fin j ≡ true)
    → pending fin ins ≡ 0
pending_zero fin t [] before h = refl
pending_zero fin t (i ∷ ins) before h =
    ground (arith, h i.node before.0, pending_zero fin t ins before.1 h)

-- Either nobody has still to be told, or somebody has.
pub find_note :
    (xss : List (List ℕ))
    → ((t : ℕ) → told t xss ≡ 0)
      ⊎ ((os : List (List ℕ)) × (ns : List (List ℕ)) × (t : ℕ) × (ts : List ℕ) × (xss
            ≡ os ++ ((t ∷ ts) ∷ ns)))
find_note [] = inl (λ t. refl)
find_note ([] ∷ xss) = elim (find_note xss) [
  | inl h ↦ inl (λ t. omega (arith, h t))
  | inr (os, ns, t, ts, e) ↦ inr ([] ∷ os, ns, t, ts, ap (λ zs. [] ∷ zs) e)
]
find_note ((t ∷ ts) ∷ xss) = inr ([], xss, t, ts, refl)

pub List-cases : (xs : List ℕ) → (xs ≡ []) ⊎ ((x : ℕ) × (ys : List ℕ) × (xs ≡ x ∷ ys))
List-cases [] = inl refl
List-cases (x ∷ ys) = inr (x, ys, refl)
