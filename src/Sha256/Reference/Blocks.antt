-- ===== src/Sha256/Reference/Blocks.antt =====
-- The reference definition, and how it takes one more block.
use secure_boot_loader_with.Base.{
  ℕ, zero, suc, ◌-◌, ◌*◌, ◌/◌, ◌%◌, ◌≡◌, ap, List, [], ◌∷◌, ◌++◌, u8, u64, ◌>>◌, length, take, drop,
  replicate, take-append_le, drop-append_le, take_all, length-drop, arith,
}
use secure_boot_loader_with.Sha256.{sha256_transform, initial_state, digest_bytes}

-- The first `n` blocks of 64 bytes, in order.
unfoldable pub compress : ℕ → List ℕ → List ℕ → List ℕ
compress zero state bs = state
compress (suc n) state bs = compress n (sha256_transform state (take 64 bs)) (drop 64 bs)

-- A 64-bit number, high byte first.
abbrev pub be64 : ℕ → List ℕ
be64 n =
    u8 (n >> 56)
    ∷ u8 (n >> 48)
    ∷ u8 (n >> 40)
    ∷ u8 (n >> 32)
    ∷ u8 (n >> 24)
    ∷ u8 (n >> 16)
    ∷ u8 (n >> 8)
    ∷ u8 n
    ∷ []

-- A one bit, zeros up to 8 bytes short of a block, and the message's length in bits.
abbrev pub padding : ℕ → List ℕ
padding len = 0x80 ∷ (replicate ((119 - len % 64) % 64) 0 ++ be64 (u64 (8 * len)))

abbrev pub pad : List ℕ → List ℕ
pad bs = bs ++ padding (length bs)

unfoldable pub reference_sha256 : List ℕ → List ℕ
unfolding compress
reference_sha256 bs = digest_bytes (compress (length (pad bs) / 64) initial_state (pad bs))

-- One more block behind `n` whole ones is compressed last.
pub compress-snoc :
    (n : ℕ) (state bs block : List ℕ)
    → length bs ≡ 64 * n
    → length block ≡ 64
    → compress (suc n) state (bs ++ block) ≡ sha256_transform (compress n state bs) block
unfolding compress
compress-snoc zero state [] block e f =
    ap (λ (t : List ℕ). sha256_transform state t) (take_all 64 block (omega arith))
compress-snoc zero state (x ∷ bs) block e f = absurd (omega arith)
compress-snoc (suc n) state bs block e f =
    rw (take-append_le 64 bs block (omega arith), drop-append_le 64 bs block (omega arith))
      (compress-snoc n (sha256_transform state (take 64 bs)) (drop 64 bs) block
        (omega (arith, length-drop 64 bs)) f)
