-- ===== src/DeltaPatch/Base.antt =====
-- What the check of the base image accepts.
use secure_boot_loader_with.Base.{
  ℕ, suc, ◌+◌, ◌≤◌, ◌<◌, ◌^◌, ◌≡◌, ◌↔◌, refl, ap, ◌∙◌, List, Option, true, arith, u32, sym, length,
  IsBytes,
}
use secure_boot_loader_with.MemoryMap.{firmware_magic, firmware_header_size, slot_size}
use secure_boot_loader_with.Sha256.{Context, sha256, sha256_init, sha256_update}
use secure_boot_loader_with.Sha256.Stream.{sha256_update-append}
use secure_boot_loader_with.Sha256.Reference.{
  reference_sha256, sha256-eq-reference, reference_sha256-IsBytes, length-reference_sha256,
}
use secure_boot_loader_with.Flash.{FlashDriver, IsFlash, bytes_from}
use secure_boot_loader_with.FirmwareFormat.{header_of}
use secure_boot_loader_with.Crypto.{stack_bytes, read_chunks, crypto_constant_time_equal}
use secure_boot_loader_with.Crypto.Compare.{constant_time_equal_iff}
use secure_boot_loader_with.Crypto.Chunks.{read_chunks_total}
use secure_boot_loader_with.DeltaPatch.{compare_digest, delta_verify_active_base_sha256}

module _ (D : FlashDriver) (F : IsFlash D) (base : ℕ) (m : D.Mem)
    (h : base + slot_size < 2 ^ 32) where
  -- The size of the image as the code computes it.
  abbrev pub base_total : ℕ
  base_total = u32 (
      firmware_header_size
      + (header_of (bytes_from (D.byte_at m) base firmware_header_size)).image_size)

  digest_lem :
      (expected : List ℕ)
      → base_total ≤ slot_size
      → compare_digest expected (
          read_chunks D 512 sha256_update m
            (suc base_total)
            base
            base_total
            (sha256_init stack_bytes))
        ≡ crypto_constant_time_equal
            (reference_sha256 (bytes_from (D.byte_at m) base base_total))
            expected
  unfolding compare_digest
  digest_lem expected fits =
      ap (λ (t : Option Context). compare_digest expected t)
        (read_chunks_total D F 512 (omega arith) sha256_update (λ acc. unfold sha256_update in refl)
          sha256_update-append m (suc base_total) base base_total (sha256_init stack_bytes)
          (omega arith) (omega arith))
      ∙ ap (λ (t : List ℕ). crypto_constant_time_equal t expected)
          (unfold sha256 in
            sha256-eq-reference stack_bytes (bytes_from (D.byte_at m) base base_total) refl)

  -- For a digest of 32 bytes, a delta update is allowed exactly on a base with the right magic and
  -- with a size, the header's added modulo 2 ^ 32 as the code does, that is at most the slot's, if
  -- that many bytes from its beginning have the digest as their SHA-256.
  pub base_check_iff :
      (expected : List ℕ)
      → IsBytes expected
      → length expected ≡ 32
      → (delta_verify_active_base_sha256 D base expected m ≡ true) ↔ (
          ((header_of (bytes_from (D.byte_at m) base firmware_header_size)).magic ≡ firmware_magic)
          × (base_total ≤ slot_size)
          × (reference_sha256 (bytes_from (D.byte_at m) base base_total) ≡ expected))
  unfolding delta_verify_active_base_sha256
  base_check_iff expected bytes len = (
    λ v. (
      ground (arith, F.read_lem base firmware_header_size m),
      ground (arith, F.read_lem base firmware_header_size m),
      same.0 (ground (arith, F.read_lem base firmware_header_size m, digest_lem expected)),
    ),
    λ (magic, fits, digest).
        let equal = same.1 digest in
        ground (arith, F.read_lem base firmware_header_size m, digest_lem expected),
  )
    where
      found : List ℕ
      found = reference_sha256 (bytes_from (D.byte_at m) base base_total)

      same : (crypto_constant_time_equal found expected ≡ true) ↔ (found ≡ expected)
      same =
          constant_time_equal_iff found expected (reference_sha256-IsBytes _) bytes
            (length-reference_sha256 _ ∙ sym len)
