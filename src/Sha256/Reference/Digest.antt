-- ===== src/Sha256/Reference/Digest.antt =====
-- A digest is 32 bytes: the end of `sha256_final` in bootloader/src/sha256.c.
use secure_boot_loader_with.Base.{
  ℕ, zero, suc, ◌*◌, ◌≡◌, refl, ◌∙◌, List, [], ◌∷◌, take, drop, length, arith, IsBytes,
}
use secure_boot_loader_with.Sha256.{sha256_transform, initial_state, digest_bytes}
use secure_boot_loader_with.Sha256.Reference.Blocks.{compress, reference_sha256, pad}

digest_bytes-IsBytes : (ws : List ℕ) → IsBytes (digest_bytes ws)
digest_bytes-IsBytes [] = tt
digest_bytes-IsBytes (w ∷ ws) =
    (omega arith, (omega arith, (omega arith, (omega arith, digest_bytes-IsBytes ws))))

length-digest_bytes : (ws : List ℕ) → length (digest_bytes ws) ≡ 4 * length ws
length-digest_bytes [] = omega arith
length-digest_bytes (w ∷ ws) = omega (arith, length-digest_bytes ws)

length-sha256_transform : (state block : List ℕ) → length (sha256_transform state block) ≡ 8
unfolding sha256_transform
length-sha256_transform state block = refl

length-compress : (n : ℕ) (state bs : List ℕ) → length state ≡ 8 → length (compress n state bs) ≡ 8
unfolding compress
length-compress zero state bs h = h
length-compress (suc n) state bs h =
    length-compress n (sha256_transform state (take 64 bs)) (drop 64 bs)
      (length-sha256_transform state (take 64 bs))

pub reference_sha256-IsBytes : (bs : List ℕ) → IsBytes (reference_sha256 bs)
unfolding reference_sha256
reference_sha256-IsBytes bs = digest_bytes-IsBytes _

pub length-reference_sha256 : (bs : List ℕ) → length (reference_sha256 bs) ≡ 32
unfolding reference_sha256
length-reference_sha256 bs =
    length-digest_bytes _ ∙ omega (arith, length-compress _ initial_state (pad bs) refl)
