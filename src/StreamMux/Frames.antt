-- ===== src/StreamMux/Frames.antt =====
-- `write` and `readUint32` (streammux.go): a frame is a tag, a length and the bytes.
use want.Common.{ℕ, ◌+◌, ◌*◌, ◌/◌, ◌%◌, ◌^◌, ◌≡◌, Option, none, some, [], ◌∷◌, ◌++◌, length, arith}
use mathlib.Core.Path.{ap₂}
use want.Common.Text.{Str}

-- `binary.Write` of a `uint32` in little-endian order.
unfoldable pub le32 : ℕ → Str
le32 n = n % 256 ∷ (n / 2 ^ 8) % 256 ∷ (n / 2 ^ 16) % 256 ∷ (n / 2 ^ 24) % 256 ∷ []

-- `uint32(n)`.
abbrev pub uint32 : ℕ → ℕ
uint32 n = n % 2 ^ 32

-- `write`: what it writes to the connection.
unfoldable pub write : ℕ → Str → Str
unfolding le32
write tag p = le32 (uint32 tag) ++ (le32 (uint32 (length p)) ++ p)

-- `readUint32`; `none` where the connection ends.
unfoldable pub read_uint32 : Str → Option (ℕ × Str)
read_uint32 (a ∷ b ∷ c ∷ d ∷ s) = some (a + 2 ^ 8 * b + 2 ^ 16 * c + 2 ^ 24 * d, s)
read_uint32 _ = none

-- The start of `processHeader`.
unfoldable pub read_header : Str → Option (ℕ × ℕ × Str)
unfolding read_uint32
read_header s = elim (read_uint32 s) [
  | none ↦ none
  | some r ↦ elim (read_uint32 (r.1)) [ none ↦ none | some q ↦ some (r.0, q.0, q.1) ]
]

le32_value :
    (n : ℕ)
    → uint32 n % 256
        + 2 ^ 8 * ((uint32 n / 2 ^ 8) % 256)
        + 2 ^ 16 * ((uint32 n / 2 ^ 16) % 256)
        + 2 ^ 24 * ((uint32 n / 2 ^ 24) % 256)
      ≡ uint32 n
le32_value n = omega arith

-- The header of a frame reads as the tag and the length that `write` was given, both modulo 2^32,
-- in front of the bytes: from 4 GiB on the length wraps.
pub read_header-write :
    (tag : ℕ) (p s : Str)
    → read_header (write tag p ++ s) ≡ some (tag % 2 ^ 32, length p % 2 ^ 32, p ++ s)
unfolding read_header write
read_header-write tag p s =
    ap₂ (λ t l. some (t, l, p ++ s)) (le32_value tag) (le32_value (length p))
