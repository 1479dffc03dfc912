-- ===== src/Base/Or.antt =====
-- When `bit_or` is 0.
use Prim.Native.Nat.{ℕ, zero, suc, ◌/◌, ◌≤◌, max, bit_or, digits, bit_or-bitwise}
use mathlib.Core.Path.{◌≡◌, refl}
use native.Mathlib.Nat.{le_refl}
use native.Mathlib.Omega.{arith}

abbrev or_digits : ℕ → ℕ → ℕ → ℕ
or_digits n a b = digits (λ b. b) max n a b

-- No digit of the first number is lost.
or_digits-ge : (n a b : ℕ) → a ≤ n → a ≤ or_digits n a b
or_digits-ge zero zero b h = omega arith
or_digits-ge zero (suc a) b h = absurd (omega arith)
or_digits-ge (suc n) zero b h = omega arith
or_digits-ge (suc n) (suc a) b h = omega (arith, or_digits-ge n (suc a / 2) (b / 2) (omega arith))

bit_or-ge : (a b : ℕ) → a ≤ bit_or a b
bit_or-ge a b = omega (arith, bit_or-bitwise a b, or_digits-ge a a b (le_refl a))

zero-bit_or : (b : ℕ) → bit_or 0 b ≡ b
zero-bit_or b = bit_or-bitwise 0 b

-- An or is 0 only if both words are.
pub bit_or-eq-zero : (a b : ℕ) → bit_or a b ≡ 0 → (a ≡ 0) × (b ≡ 0)
bit_or-eq-zero zero b h = (refl, omega (arith, zero-bit_or b))
bit_or-eq-zero (suc a) b h = absurd (omega (arith, bit_or-ge (suc a) b))
