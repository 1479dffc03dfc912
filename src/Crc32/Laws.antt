-- ===== src/Crc32/Laws.antt =====
-- How the CRC state moves: it stays a 32-bit word, no step loses information, and a message may be
-- fed in pieces.
use secure_boot_loader_with.Base.{
  ℕ, zero, suc, ◌/◌, ◌%◌, ◌^◌, ◌<◌, ◌≤◌, ◌≡◌, refl, ◌∙◌, sym, List, [], ◌∷◌, ◌++◌, ◌⊎◌, inl, inr,
  bit_xor, arith, IsBytes,
}
use secure_boot_loader_with.Base.Xor.{
  bit_xor-zero, bit_xor-lt, bit_xor_top, bit_xor_injective, bit_xor_injective_right,
}
use secure_boot_loader_with.Crc32.{
  crc32_init, polynomial, bit_step, bit_steps, byte_step, crc32_update, crc32_finalize, crc32,
}

even_or_odd : (n : ℕ) → (n % 2 ≡ 0) ⊎ (n % 2 ≡ 1)
even_or_odd n = ground arith

bit_step_even : (c : ℕ) → c % 2 ≡ 0 → bit_step c ≡ c / 2
unfolding bit_step
bit_step_even c e = rw e (bit_xor-zero (c / 2))

bit_step_odd : (c : ℕ) → c % 2 ≡ 1 → bit_step c ≡ bit_xor (c / 2) polynomial
unfolding bit_step
bit_step_odd c e = rw e

bit_step-lt : (c : ℕ) → c < 2 ^ 32 → bit_step c < 2 ^ 32
bit_step-lt c h = elim (even_or_odd c) [
  | inl e ↦ omega (arith, bit_step_even c e)
  | inr e ↦
      omega (arith, bit_step_odd c e, bit_xor-lt 32 (c / 2) polynomial (omega arith) (omega arith))
]

-- The polynomial's top bit tells a shifted odd word from a shifted even one.
bit_step_odd_top : (c : ℕ) → c < 2 ^ 32 → c % 2 ≡ 1 → 2 ^ 31 ≤ bit_step c
bit_step_odd_top c h e =
    omega (arith, bit_step_odd c e, bit_xor_top 31 (c / 2) 0x6DB8_8320 (omega arith) (omega arith))

bit_step_injective : (c d : ℕ) → c < 2 ^ 32 → d < 2 ^ 32 → bit_step c ≡ bit_step d → c ≡ d
bit_step_injective c d p q h = elim (even_or_odd c) [
  | inl e ↦ elim (even_or_odd d) [
    | inl f ↦ omega (arith, bit_step_even c e, bit_step_even d f)
    | inr f ↦ absurd (omega (arith, bit_step_even c e, bit_step_odd_top d q f))
  ]
  | inr e ↦ elim (even_or_odd d) [
    | inl f ↦ absurd (omega (arith, bit_step_even d f, bit_step_odd_top c p e))
    | inr f ↦ omega (
      arith,
      bit_xor_injective (c / 2) (d / 2) polynomial (sym (bit_step_odd c e) ∙ h ∙ bit_step_odd d f),
    )
  ]
]

bit_steps-lt : (n c : ℕ) → c < 2 ^ 32 → bit_steps n c < 2 ^ 32
unfolding bit_steps
bit_steps-lt zero c h = h
bit_steps-lt (suc n) c h = bit_steps-lt n (bit_step c) (bit_step-lt c h)

bit_steps_injective : (n c d : ℕ) → c < 2 ^ 32 → d < 2 ^ 32 → bit_steps n c ≡ bit_steps n d → c ≡ d
unfolding bit_steps
bit_steps_injective zero c d p q h = h
bit_steps_injective (suc n) c d p q h =
    bit_step_injective c d p q
      (bit_steps_injective n (bit_step c) (bit_step d) (bit_step-lt c p) (bit_step-lt d q) h)

pub byte_step-lt : (c b : ℕ) → c < 2 ^ 32 → b < 2 ^ 8 → byte_step c b < 2 ^ 32
unfolding byte_step
byte_step-lt c b h k = bit_steps-lt 8 (bit_xor c b) (bit_xor-lt 32 c b h (omega arith))

pub byte_step_injective :
    (c d b : ℕ) → c < 2 ^ 32 → d < 2 ^ 32 → b < 2 ^ 8 → byte_step c b ≡ byte_step d b → c ≡ d
unfolding byte_step
byte_step_injective c d b p q k h = bit_xor_injective c d b (
    bit_steps_injective 8 (bit_xor c b) (bit_xor d b) (bit_xor-lt 32 c b p (omega arith))
      (bit_xor-lt 32 d b q (omega arith)) h)

pub byte_step_injective_byte :
    (c a b : ℕ) → c < 2 ^ 32 → a < 2 ^ 8 → b < 2 ^ 8 → byte_step c a ≡ byte_step c b → a ≡ b
unfolding byte_step
byte_step_injective_byte c a b p k l h = bit_xor_injective_right a b c (
    bit_steps_injective 8 (bit_xor c a) (bit_xor c b) (bit_xor-lt 32 c a p (omega arith))
      (bit_xor-lt 32 c b p (omega arith)) h)

pub crc32_update-lt : (c : ℕ) (bs : List ℕ) → c < 2 ^ 32 → IsBytes bs → crc32_update c bs < 2 ^ 32
unfolding crc32_update
crc32_update-lt c [] h k = h
crc32_update-lt c (b ∷ bs) h k = crc32_update-lt (byte_step c b) bs (byte_step-lt c b h k.0) k.1

pub crc32-lt : (bs : List ℕ) → IsBytes bs → crc32 bs < 2 ^ 32
unfolding crc32 crc32_finalize
crc32-lt bs k =
    bit_xor-lt 32 (crc32_update crc32_init bs) 0xFFFF_FFFF
      (crc32_update-lt crc32_init bs (omega arith) k) (omega arith)

-- Feeding a message in two pieces gives the state that feeding it whole does, so the chunked
-- loops over flash compute the CRC of the whole payload.
pub crc32_update-append :
    (c : ℕ) (xs ys : List ℕ) → crc32_update c (xs ++ ys) ≡ crc32_update (crc32_update c xs) ys
unfolding crc32_update
crc32_update-append c [] ys = refl
crc32_update-append c (x ∷ xs) ys = crc32_update-append (byte_step c x) xs ys
