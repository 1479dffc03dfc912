-- ===== src/Base/Word.antt =====
-- Machine words of the C code as natural numbers: casts to the fixed widths, shifts at a numeral,
-- and little-endian fields.
use Prim.Native.Nat.{ℕ, ◌+◌, ◌*◌, ◌/◌, ◌%◌, ◌^◌, ◌<◌}
use mathlib.Core.Path.{◌≡◌}
use mathlib.Core.List.{List, [], ◌∷◌}
use native.Mathlib.Omega.{arith}

abbrev pub u8 : ℕ → ℕ
u8 n = n % 2 ^ 8

abbrev pub u16 : ℕ → ℕ
u16 n = n % 2 ^ 16

abbrev pub u32 : ℕ → ℕ
u32 n = n % 2 ^ 32

abbrev pub u64 : ℕ → ℕ
u64 n = n % 2 ^ 64

infixl 75 ◌<<◌ ◌>>◌
abbrev pub ◌<<◌ : ℕ → ℕ → ℕ
x << k = x * 2 ^ k

abbrev pub ◌>>◌ : ℕ → ℕ → ℕ
x >> k = x / 2 ^ k

-- x & (2 ^ k - 1).
abbrev pub low_bits : ℕ → ℕ → ℕ
low_bits x k = x % 2 ^ k

-- The bytes of a `uint32_t` in memory, low byte first.
abbrev pub le32 : ℕ → List ℕ
le32 w = u8 w ∷ u8 (w >> 8) ∷ u8 (w >> 16) ∷ u8 (w >> 24) ∷ []

abbrev pub le16 : ℕ → List ℕ
le16 w = u8 w ∷ u8 (w >> 8) ∷ []

-- The `uint32_t` that four bytes in memory are.
abbrev pub of_le32 : ℕ → ℕ → ℕ → ℕ → ℕ
of_le32 a b c d = a + b * 2 ^ 8 + c * 2 ^ 16 + d * 2 ^ 24

abbrev pub of_le16 : ℕ → ℕ → ℕ
of_le16 a b = a + b * 2 ^ 8

-- Every element is a byte.
abbrev pub IsBytes : List ℕ → Type 0
IsBytes [] = Unit {0}
IsBytes (b ∷ bs) = (b < 2 ^ 8) × IsBytes bs

pub of_le32-le32 :
    (w : ℕ) → w < 2 ^ 32 → of_le32 (u8 w) (u8 (w >> 8)) (u8 (w >> 16)) (u8 (w >> 24)) ≡ w
of_le32-le32 w h = omega arith

pub of_le16-le16 : (w : ℕ) → w < 2 ^ 16 → of_le16 (u8 w) (u8 (w >> 8)) ≡ w
of_le16-le16 w h = omega arith
