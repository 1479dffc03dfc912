-- ===== src/Crc32/Detect.antt =====
-- What the CRC detects.
use secure_boot_loader_with.Base.{
  ℕ, ◌^◌, ◌<◌, ◌≡◌, ◌≢◌, ◌∙◌, sym, List, [], ◌∷◌, ◌++◌, arith, IsBytes,
}
use secure_boot_loader_with.Base.Xor.{bit_xor_injective}
use secure_boot_loader_with.Crc32.{crc32_init, byte_step, crc32_update, crc32_finalize, crc32}
use secure_boot_loader_with.Crc32.Laws.{
  byte_step-lt, byte_step_injective, byte_step_injective_byte, crc32_update-lt, crc32_update-append,
}

crc32_update_injective :
    (c d : ℕ) (bs : List ℕ)
    → c < 2 ^ 32
    → d < 2 ^ 32
    → IsBytes bs
    → crc32_update c bs ≡ crc32_update d bs
    → c ≡ d
unfolding crc32_update
crc32_update_injective c d [] p q k h = h
crc32_update_injective c d (b ∷ bs) p q k h = byte_step_injective c d b p q k.0 (
    crc32_update_injective (byte_step c b) (byte_step d b) bs (byte_step-lt c b p k.0)
      (byte_step-lt d b q k.0) k.1 h)

-- A change of any one byte, in any of its bits, changes the CRC-32 of a message of bytes,
-- whatever stands before and behind it.
pub crc32_detects_byte :
    (xs : List ℕ) (a b : ℕ) (ys : List ℕ)
    → IsBytes xs
    → a < 2 ^ 8
    → b < 2 ^ 8
    → IsBytes ys
    → a ≢ b
    → crc32 (xs ++ a ∷ ys) ≢ crc32 (xs ++ b ∷ ys)
unfolding crc32 crc32_finalize
crc32_detects_byte xs a b ys hx ha hb hy ne e = ne (
    byte_step_injective_byte s a b s-lt ha hb (
      crc32_update_injective (byte_step s a) (byte_step s b) ys (byte_step-lt s a s-lt ha)
        (byte_step-lt s b s-lt hb) hy rest))
  where
    s : ℕ
    s = crc32_update crc32_init xs

    s-lt : s < 2 ^ 32
    s-lt = crc32_update-lt crc32_init xs (omega arith) hx

    rest : crc32_update (byte_step s a) ys ≡ crc32_update (byte_step s b) ys
    rest =
        unfold crc32_update in
        sym (crc32_update-append crc32_init xs (a ∷ ys))
        ∙ bit_xor_injective (crc32_update crc32_init (xs ++ a ∷ ys))
            (crc32_update crc32_init (xs ++ b ∷ ys)) 0xFFFF_FFFF e
        ∙ crc32_update-append crc32_init xs (b ∷ ys)
