-- ===== src/Crypto/Verify.antt =====
-- `crypto_verify_firmware` accepts exactly the genuine images.
use secure_boot_loader_with.Base.{
  ℕ, suc, ◌+◌, ◌^◌, ◌<◌, ◌≤◌, ◌≡◌, ◌≢◌, ◌↔◌, refl, ap, ◌∙◌, sym, List, ◌++◌, Option, some, Bool,
  true, false, arith, u32, ◌==◌, if◌then◌else◌, take, drop, replicate,
}
use secure_boot_loader_with.MemoryMap.{
  firmware_magic, firmware_header_size, firmware_max_payload_size, slot_size,
}
use secure_boot_loader_with.Crc32.{crc32, crc32_init, crc32_update}
use secure_boot_loader_with.Crc32.Laws.{crc32_update-append}
use secure_boot_loader_with.Sha256.{Context, sha256, sha256_init, sha256_update, sha256_final}
use secure_boot_loader_with.Sha256.Stream.{sha256_update-append}
use secure_boot_loader_with.Sha256.Reference.{reference_sha256, sha256-eq-reference}
use secure_boot_loader_with.Flash.{FlashDriver, IsFlash, bytes_from}
use secure_boot_loader_with.Flash.Bytes.{length-bytes_from, bytes_from-IsBytes}
use secure_boot_loader_with.FirmwareFormat.{FirmwareHeader, header_of, header_bytes}
use secure_boot_loader_with.FirmwareFormat.Layout.{header_bytes-header_of}
use secure_boot_loader_with.Crypto.{
  Ecc, verify_chunk_bytes, stack_bytes, is_canonical_low_s, crypto_constant_time_equal, read_chunks,
  crypto_validate_public_key, hash_signed_region, check_signature, check_crc, check_header,
  crypto_verify_firmware, finish_hash,
}
use secure_boot_loader_with.Crypto.Chunks.{read_chunks_total}

module _ (D : FlashDriver) (E : Ecc) where
  -- The image in a slot, read at once.
  abbrev pub header_region : ℕ → D.Mem → List ℕ
  header_region slot m = bytes_from (D.byte_at m) slot firmware_header_size

  abbrev pub header_at : ℕ → D.Mem → FirmwareHeader
  header_at slot m = header_of (header_region slot m)

  abbrev pub payload_at : ℕ → D.Mem → List ℕ
  payload_at slot m =
      bytes_from (D.byte_at m) (slot + firmware_header_size) (header_at slot m).image_size

  -- What the signer signed: the header with its signature zeroed, and the payload.
  abbrev pub signed_region : ℕ → D.Mem → List ℕ
  signed_region slot m =
      take 20 (header_region slot m)
      ++ (replicate 64 0 ++ (drop 84 (header_region slot m) ++ payload_at slot m))

  -- An image that the owner of the key signed, whole and in its one accepted form.
  pub record IsGenuine (slot : ℕ) (m : D.Mem) : Type 0 where
    pub key_on_curve : E.uecc_valid_public_key E.public_key_xy ≡ 1
    pub key_fingerprint :
        crypto_constant_time_equal (reference_sha256 E.public_key_xy) E.public_key_sha256 ≡ true
    pub magic : (header_at slot m).magic ≡ firmware_magic
    pub size_pos : (header_at slot m).image_size ≢ 0
    pub size_fits : (header_at slot m).image_size ≤ firmware_max_payload_size
    pub checksum : crc32 (payload_at slot m) ≡ (header_at slot m).crc32
    pub low_s : is_canonical_low_s (header_at slot m).signature ≡ true
    pub signed :
        E.uecc_verify E.public_key_xy
          (reference_sha256 (signed_region slot m))
          (header_at slot m).signature
        ≡ 1

  module _ (F : IsFlash D) where
    crc_loop :
        (n addr : ℕ) (m : D.Mem)
        → addr + n < 2 ^ 32
        → read_chunks D verify_chunk_bytes crc32_update m (suc n) addr n crc32_init
          ≡ some (crc32_update crc32_init (bytes_from (D.byte_at m) addr n))
    crc_loop n addr m h =
        read_chunks_total D F verify_chunk_bytes (omega arith) crc32_update
          (λ acc. unfold crc32_update in refl) crc32_update-append m (suc n) addr n crc32_init
          (omega arith) h

    sha_loop :
        (n addr : ℕ) (ctx : Context) (m : D.Mem)
        → addr + n < 2 ^ 32
        → read_chunks D verify_chunk_bytes sha256_update m (suc n) addr n ctx
          ≡ some (sha256_update ctx (bytes_from (D.byte_at m) addr n))
    sha_loop n addr ctx m h =
        read_chunks_total D F verify_chunk_bytes (omega arith) sha256_update
          (λ acc. unfold sha256_update in refl) sha256_update-append m (suc n) addr n ctx
          (omega arith) h

    -- Four updates are one.
    four_updates :
        (ws xs ys zs : List ℕ)
        → sha256_final (
            sha256_update
              (sha256_update (sha256_update (sha256_update (sha256_init stack_bytes) ws) xs) ys)
              zs)
          ≡ reference_sha256 (ws ++ (xs ++ (ys ++ zs)))
    four_updates ws xs ys zs =
        ap sha256_final (
          sym (
            sha256_update-append (sha256_update (sha256_update (sha256_init stack_bytes) ws) xs) ys
              zs)
          ∙ sym (sha256_update-append (sha256_update (sha256_init stack_bytes) ws) xs (ys ++ zs))
          ∙ sym (sha256_update-append (sha256_init stack_bytes) ws (xs ++ (ys ++ zs))))
        ∙ unfold sha256 in sha256-eq-reference stack_bytes (ws ++ (xs ++ (ys ++ zs))) refl

    hash_loop :
        (slot : ℕ) (hdr : FirmwareHeader) (m : D.Mem)
        → slot + slot_size < 2 ^ 32
        → hdr.image_size ≤ firmware_max_payload_size
        → hash_signed_region D E slot hdr m
          ≡ some (
              reference_sha256 (
                take 20 (header_bytes hdr)
                ++ (replicate 64 0
                    ++ (drop 84 (header_bytes hdr)
                        ++ bytes_from (D.byte_at m) (slot + firmware_header_size) hdr.image_size))))
    unfolding hash_signed_region
    hash_loop slot hdr m h fits =
        ap
          (λ (t : ℕ). finish_hash (
            read_chunks D verify_chunk_bytes sha256_update m (suc hdr.image_size) t hdr.image_size
              ctx))
          {y = slot + firmware_header_size} (omega arith)
        ∙ ap (λ (t : Option Context). finish_hash t)
            (sha_loop hdr.image_size (slot + firmware_header_size) ctx m (omega arith))
        ∙ ap (λ (t : List ℕ). some t)
            (four_updates (take 20 (header_bytes hdr)) (replicate 64 0) (drop 84 (header_bytes hdr))
              (bytes_from (D.byte_at m) (slot + firmware_header_size) hdr.image_size))
      where
        ctx : Context
        ctx =
            sha256_update
              (sha256_update (sha256_update (sha256_init stack_bytes) (take 20 (header_bytes hdr)))
                (replicate 64 0))
              (drop 84 (header_bytes hdr))

    hash_lem :
        (slot : ℕ) (m : D.Mem)
        → slot + slot_size < 2 ^ 32
        → (header_at slot m).image_size ≤ firmware_max_payload_size
        → hash_signed_region D E slot (header_at slot m) m
          ≡ some (reference_sha256 (signed_region slot m))
    hash_lem slot m h fits =
        hash_loop slot (header_at slot m) m h fits
        ∙ ap
            (λ (t : List ℕ). some (
              reference_sha256 (take 20 t ++ (replicate 64 0 ++ (drop 84 t ++ payload_at slot m)))))
            (header_bytes-header_of (header_region slot m)
              (bytes_from-IsBytes (D.byte_at m) (F.byte_at-lt m) slot firmware_header_size)
              (length-bytes_from (D.byte_at m) slot firmware_header_size))

    key_lem : crypto_validate_public_key D E ≡ (
        if E.uecc_valid_public_key E.public_key_xy == 1
        then crypto_constant_time_equal (reference_sha256 E.public_key_xy) E.public_key_sha256
        else false)
    unfolding crypto_validate_public_key
    key_lem =
        ap
          (λ (t : List ℕ).
            if E.uecc_valid_public_key E.public_key_xy == 1
            then crypto_constant_time_equal t E.public_key_sha256
            else false)
          (unfold sha256 in sha256-eq-reference stack_bytes E.public_key_xy refl)

    module _ (slot : ℕ) (m : D.Mem) (h : slot + slot_size < 2 ^ 32) where
      header_lem : crypto_verify_firmware D E slot m ≡ (
          if crypto_validate_public_key D E
          then check_header D E slot (header_at slot m) m
          else false)
      unfolding crypto_verify_firmware
      header_lem = rw (F.read_lem slot firmware_header_size m)

      -- The checks that follow the header's, on the image read at once.
      abbrev body_checks : Bool
      body_checks =
          if crc32 (payload_at slot m) == (header_at slot m).crc32
          then if is_canonical_low_s (header_at slot m).signature
            then E.uecc_verify E.public_key_xy (reference_sha256 (signed_region slot m))
                (header_at slot m).signature
              == 1
            else false
          else false

      body_lem :
          (header_at slot m).image_size ≤ firmware_max_payload_size
          → check_crc D E slot
              (header_at slot m)
              (read_chunks D verify_chunk_bytes crc32_update m
                (suc (header_at slot m).image_size)
                (u32 (slot + firmware_header_size))
                (header_at slot m).image_size
                crc32_init)
              m
            ≡ body_checks
      body_lem fits =
          ap
            (λ (t : ℕ).
              check_crc D E slot (header_at slot m)
                (read_chunks D verify_chunk_bytes crc32_update m (suc (header_at slot m).image_size)
                  t (header_at slot m).image_size crc32_init)
                m)
            {y = slot + firmware_header_size} (omega arith)
          ∙ ap (λ (t : Option ℕ). check_crc D E slot (header_at slot m) t m)
              (crc_loop (header_at slot m).image_size (slot + firmware_header_size) m (omega arith))
          ∙ unfold check_crc check_signature crc32 in
            ap
              (λ (t : Option (List ℕ)).
                if crc32 (payload_at slot m) == (header_at slot m).crc32
                then check_signature D E (header_at slot m) t
                else false)
              (hash_lem slot m h fits)

      -- The verifier accepts exactly the genuine images: it streams the payload twice and the header
      -- in parts, and decides what the one-shot definition says.
      pub verify_firmware_iff : (crypto_verify_firmware D E slot m ≡ true) ↔ IsGenuine slot m
      unfolding check_header
      verify_firmware_iff = (
        λ v. record {
          key_on_curve = ground (arith, header_lem, key_lem);
          key_fingerprint = ground (arith, header_lem, key_lem);
          magic = ground (arith, header_lem);
          size_pos = ground (arith, header_lem);
          size_fits = ground (arith, header_lem);
          checksum = ground (arith, header_lem, body_lem);
          low_s = ground (arith, header_lem, body_lem);
          signed = ground (arith, header_lem, body_lem);
        },
        λ g. ground (arith, header_lem, key_lem, body_lem),
      )
