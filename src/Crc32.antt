-- ===== src/Crc32.antt =====
-- bootloader/src/crc32.c and bootloader/include/crc32.h: the table-free CRC-32, bit by bit.
pub mod Laws
pub mod Detect
mod Tests
use secure_boot_loader_with.Base.{
  ℕ, zero, suc, ◌-◌, ◌^◌, List, [], ◌∷◌, bit_and, bit_xor, u32, low_bits, ◌>>◌,
}

abbrev pub crc32_init : ℕ
crc32_init = 0xFFFF_FFFF

abbrev pub polynomial : ℕ
polynomial = 0xEDB8_8320

-- One round of the inner loop. `-(int32_t)(crc & 1U)` is all zeros or all ones.
pub bit_step : ℕ → ℕ
bit_step crc =
    let mask = u32 (2 ^ 32 - low_bits crc 1) in bit_xor (crc >> 1) (bit_and polynomial mask)

-- The inner loop, by the rounds left.
pub bit_steps : ℕ → ℕ → ℕ
bit_steps zero crc = crc
bit_steps (suc n) crc = bit_steps n (bit_step crc)

pub byte_step : ℕ → ℕ → ℕ
unfolding bit_steps bit_step
byte_step crc b = bit_steps 8 (bit_xor crc b)

-- The outer loop, over the bytes.
unfoldable pub crc32_update : ℕ → List ℕ → ℕ
unfolding byte_step
crc32_update crc [] = crc
crc32_update crc (b ∷ bs) = crc32_update (byte_step crc b) bs

unfoldable pub crc32_finalize : ℕ → ℕ
crc32_finalize crc = bit_xor crc 0xFFFF_FFFF

unfoldable pub crc32 : List ℕ → ℕ
unfolding crc32_update crc32_finalize
crc32 bs = crc32_finalize (crc32_update crc32_init bs)
