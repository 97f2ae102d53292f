-- ===== src/Common/Hex.antt =====
-- `fmt.Sprintf` with `%02x` and `%08x`: hexadecimal digits, padded with zeros to a width.
use Prim.Native.Nat.{ℕ, zero, suc, ◌+◌, ◌-◌, ◌/◌, ◌%◌, ◌^◌, ◌≤◌, ◌<◌}
use mathlib.Core.Path.{◌≡◌, refl, ap, sym, ◌∙◌}
use mathlib.Core.Bool.{true, ◌&&◌, ◌||◌}
use mathlib.Core.List.{[], ◌∷◌, ◌++◌}
use mathlib.Core.Logic.{◌⊎◌, inl, inr}
use native.Mathlib.Omega.{arith}
use want.Common.Tests.{ltb, if◌then◌else◌, Bool-cases}
use want.Common.Lists.{length, length-append}
use want.Common.Text.{Str, str_eq, str_eq_refl}
use want.Common.Order.{str_lt, str_lt_irrefl}

abbrev pub hex_digit : ℕ → ℕ
hex_digit d = if ltb d 10 then d + 48 else d + 87

-- The digits of `n` without padding, on fuel for their number.
unfoldable pub hex_digits : ℕ → ℕ → Str
hex_digits zero n = []
hex_digits (suc f) n =
    let rest = hex_digits f (n / 16) in
    if ltb n 16 then hex_digit n ∷ [] else rest ++ hex_digit (n % 16) ∷ []

abbrev pub zeros : ℕ → Str
zeros zero = []
zeros (suc n) = b'0' ∷ zeros n

unfoldable pub hex_padded : ℕ → ℕ → Str
unfolding hex_digits
hex_padded w n = let s = hex_digits (suc n) n in zeros (w - length s) ++ s

-- All `w` digits of `n`, for `n` below `16 ^ w`.
unfoldable pub hex_fixed : ℕ → ℕ → Str
hex_fixed zero n = []
hex_fixed (suc w) n = hex_fixed w (n / 16) ++ hex_digit (n % 16) ∷ []

zeros-last : (w : ℕ) → zeros w ++ b'0' ∷ [] ≡ zeros (suc w)
zeros-last zero = refl
zeros-last (suc w) = ap (◌∷◌ b'0') (zeros-last w)

hex_fixed-zero : (w : ℕ) → hex_fixed w 0 ≡ zeros w
unfolding hex_fixed
hex_fixed-zero zero = refl
hex_fixed-zero (suc w) = ap (λ s. s ++ b'0' ∷ []) (hex_fixed-zero w) ∙ zeros-last w

length-hex_fixed : (w n : ℕ) → length (hex_fixed w n) ≡ w
unfolding hex_fixed
length-hex_fixed zero n = refl
length-hex_fixed (suc w) n = omega (
  arith,
  length-append (hex_fixed w (n / 16)) (hex_digit (n % 16) ∷ []),
  length-hex_fixed w (n / 16),
)

-- Texts of one length are in order by their first bytes, and where these agree by the last.
str_lt-last :
    (s t : Str) (c d : ℕ)
    → length s ≡ length t
    → str_lt (s ++ c ∷ []) (t ++ d ∷ []) ≡ (str_lt s t || str_eq s t && ltb c d)
unfolding str_lt str_eq
str_lt-last [] [] c d h = ground arith
str_lt-last [] (b ∷ t) c d h = absurd (omega (arith, h))
str_lt-last (a ∷ s) [] c d h = absurd (omega (arith, h))
str_lt-last (a ∷ s) (b ∷ t) c d h = ground (arith, str_lt-last s t c d (omega (arith, h)))

hex_digit-lt : (c d : ℕ) → c < d → ltb (hex_digit c) (hex_digit d) ≡ true
hex_digit-lt c d h = ground (arith, h)

hex_fixed-lt_step :
    (w m n : ℕ) (s t : Str) (c d : ℕ)
    → length s ≡ length t
    → (str_lt s t ≡ true) ⊎ ((s ≡ t) × (c < d))
    → str_lt (s ++ hex_digit c ∷ []) (t ++ hex_digit d ∷ []) ≡ true
hex_fixed-lt_step w m n s t c d same (inl h) =
    str_lt-last s t (hex_digit c) (hex_digit d) same ∙ ground (arith, h)
hex_fixed-lt_step w m n s t c d same (inr (e, h)) =
    str_lt-last s t (hex_digit c) (hex_digit d) same
    ∙ rw e (ground (arith, str_eq_refl t, hex_digit-lt c d h, str_lt_irrefl t))

pub hex_fixed-lt : (w m n : ℕ) → m < n → n < 16 ^ w → str_lt (hex_fixed w m) (hex_fixed w n) ≡ true
unfolding hex_fixed
hex_fixed-lt zero m n h k = absurd (omega (arith, h, k))
hex_fixed-lt (suc w) m n h k =
    let k2 : n / 16 < 16 ^ w = omega (arith, k) in
    hex_fixed-lt_step w m n _ _ (m % 16) (n % 16)
      (length-hex_fixed w (m / 16) ∙ sym (length-hex_fixed w (n / 16)))
      (elim (Bool-cases (ltb (m / 16) (n / 16))) [
        | inl e ↦ inl (hex_fixed-lt w (m / 16) (n / 16) (ground (arith, e)) k2)
        | inr e ↦ inr (ap (hex_fixed w) (ground (arith, e, h)), ground (arith, e, h))
      ])

hex_digits_small : (f n : ℕ) → n < 16 → hex_digits (suc f) n ≡ hex_digit n ∷ []
unfolding hex_digits
hex_digits_small f n h = ground (arith, h)

hex_digits_large :
    (f n : ℕ) → 16 ≤ n → hex_digits (suc f) n ≡ hex_digits f (n / 16) ++ hex_digit (n % 16) ∷ []
unfolding hex_digits
hex_digits_large f n h = ground (arith, h)

abbrev pad : ℕ → Str → Str
pad w s = zeros (w - length s) ++ s

append_assoc : (s t u : Str) → (s ++ t) ++ u ≡ s ++ (t ++ u)
append_assoc [] t u = refl
append_assoc (a ∷ s) t u = ap (◌∷◌ a) (append_assoc s t u)

pad-last : (w : ℕ) (s : Str) (c : ℕ) → pad (suc w) (s ++ c ∷ []) ≡ pad w s ++ c ∷ []
pad-last w s c =
    let same : suc w - length (s ++ c ∷ []) ≡ w - length s =
      omega (arith, length-append s (c ∷ [])) in
    rw (same, append_assoc) refl

pad_small : (f w n : ℕ) → n < 16 → pad (suc w) (hex_digits (suc f) n) ≡ hex_fixed (suc w) n
unfolding hex_fixed
pad_small f w n small =
    let top : n / 16 ≡ 0 = omega (arith, small) in
    let low : n % 16 ≡ n = omega (arith, small) in
    let fill : suc w - 1 ≡ w = omega arith in
    rw (hex_digits_small f n small, top, low, fill, hex_fixed-zero w) refl

pad_large :
    (f w n : ℕ)
    → 16 ≤ n
    → pad w (hex_digits f (n / 16)) ≡ hex_fixed w (n / 16)
    → pad (suc w) (hex_digits (suc f) n) ≡ hex_fixed (suc w) n
unfolding hex_fixed
pad_large f w n large ih =
    rw (hex_digits_large f n large) (pad-last w _ _ ∙ ap (λ s. s ++ hex_digit (n % 16) ∷ []) ih)

pad_digits :
    (f w n : ℕ) → n < 16 ^ suc w → n < f → pad (suc w) (hex_digits f n) ≡ hex_fixed (suc w) n
pad_digits zero w n h k = absurd (omega (arith, k))
pad_digits (suc f) zero n h k = pad_small f 0 n (omega (arith, h))
pad_digits (suc f) (suc w) n h k = elim (Bool-cases (ltb n 16)) [
  | inl e ↦ pad_small f (suc w) n (ground (arith, e))
  | inr e ↦
      let large : 16 ≤ n = ground (arith, e) in
      pad_large f (suc w) n large
        (pad_digits f w (n / 16) (omega (arith, h)) (omega (arith, k, large)))
]

-- Below `16 ^ w` there are just `w` digits.
pub hex_padded_lem : (w n : ℕ) → n < 16 ^ suc w → hex_padded (suc w) n ≡ hex_fixed (suc w) n
unfolding hex_padded
hex_padded_lem w n h = pad_digits (suc n) w n h (omega arith)
