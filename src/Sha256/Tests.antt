-- ===== src/Sha256/Tests.antt =====
-- SHA-256 at the standard's test vectors.
use secure_boot_loader_with.Base.{◌≡◌, refl, [], ◌∷◌, replicate}
use secure_boot_loader_with.Sha256.Reference.{reference_sha256, sha256-eq-reference}
use secure_boot_loader_with.Sha256.{
  sha256, sha256_init, sha256_update, update_byte, sha256_final, zero_fill, put_bitlen,
  sha256_transform,
}

abc :
    sha256 (replicate 64 7) (0x61 ∷ 0x62 ∷ 0x63 ∷ [])
    ≡ 0xba ∷ 0x78 ∷ 0x16 ∷ 0xbf ∷ 0x8f ∷ 0x01 ∷ 0xcf ∷ 0xea ∷ 0x41 ∷ 0x41 ∷ 0x40 ∷ 0xde ∷ 0x5d
      ∷ 0xae ∷ 0x22 ∷ 0x23 ∷ 0xb0 ∷ 0x03 ∷ 0x61 ∷ 0xa3 ∷ 0x96 ∷ 0x17 ∷ 0x7a ∷ 0x9c ∷ 0xb4 ∷ 0x10
      ∷ 0xff ∷ 0x61 ∷ 0xf2 ∷ 0x00 ∷ 0x15 ∷ 0xad ∷ []
unfolding sha256 sha256_init sha256_update update_byte sha256_final zero_fill put_bitlen
    sha256_transform
abc = refl

sha256-eq-reference_example :
    sha256 (replicate 64 7) (0x61 ∷ 0x62 ∷ 0x63 ∷ []) ≡ reference_sha256 (0x61 ∷ 0x62 ∷ 0x63 ∷ [])
sha256-eq-reference_example = sha256-eq-reference (replicate 64 7) (0x61 ∷ 0x62 ∷ 0x63 ∷ []) refl
