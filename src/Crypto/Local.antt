-- ===== src/Crypto/Local.antt =====
-- The verdict of `crypto_verify_firmware` on a slot depends on the bytes of that slot alone.
use mathlib.Core.Path.{ap₂}
use secure_boot_loader_with.Base.{
  ℕ, ◌+◌, ◌^◌, ◌<◌, ◌≤◌, ◌≡◌, ◌≢◌, ap, sym, ◌∙◌, subst, List, true, Bool-cases, arith, inl, inr,
  take, drop, replicate, ◌++◌,
}
use secure_boot_loader_with.MemoryMap.{
  slot_size, firmware_magic, firmware_header_size, firmware_max_payload_size,
}
use secure_boot_loader_with.Flash.{FlashDriver, IsFlash, bytes_from}
use secure_boot_loader_with.Flash.Bytes.{bytes_from-eq}
use secure_boot_loader_with.FirmwareFormat.{header_of}
use secure_boot_loader_with.Crc32.{crc32}
use secure_boot_loader_with.Sha256.Reference.{reference_sha256}
use secure_boot_loader_with.Crypto.{Ecc, is_canonical_low_s, crypto_verify_firmware}
use secure_boot_loader_with.Crypto.Verify.{
  header_region, header_at, payload_at, IsGenuine, verify_firmware_iff,
}

module _ (D : FlashDriver) (E : Ecc) (F : IsFlash D) (slot : ℕ)
    (h : slot + slot_size < 2 ^ 32) where
  -- The same bytes in the slot.
  abbrev pub Agree : D.Mem → D.Mem → Type 0
  Agree m m' = (x : ℕ) → slot ≤ x → x < slot + slot_size → D.byte_at m x ≡ D.byte_at m' x

  header-same : (m m' : D.Mem) → Agree m m' → header_region D E slot m ≡ header_region D E slot m'
  header-same m m' same =
      bytes_from-eq (D.byte_at m) (D.byte_at m') slot firmware_header_size (omega arith)
        (λ x p q. same x p (omega arith))

  payload-same :
      (m m' : D.Mem)
      → Agree m m'
      → (header_at D E slot m).image_size ≤ firmware_max_payload_size
      → payload_at D E slot m ≡ payload_at D E slot m'
  payload-same m m' same fits =
      bytes_from-eq (D.byte_at m) (D.byte_at m') (slot + firmware_header_size)
        (header_at D E slot m).image_size (omega arith)
        (λ x p q. same x (omega arith) (omega arith))
      ∙ ap
          (λ (t : List ℕ).
            bytes_from (D.byte_at m') (slot + firmware_header_size) (header_of t).image_size)
          (header-same m m' same)

  -- A genuine image stays genuine where its header and its payload are the same.
  pub IsGenuine-regions :
      (m m' : D.Mem)
      → header_region D E slot m ≡ header_region D E slot m'
      → payload_at D E slot m ≡ payload_at D E slot m'
      → IsGenuine D E slot m
      → IsGenuine D E slot m'
  IsGenuine-regions m m' hdr pay g = record {
    key_on_curve = g.key_on_curve;
    key_fingerprint = g.key_fingerprint;
    magic = subst (λ (t : List ℕ). (header_of t).magic ≡ firmware_magic) hdr g.magic;
    size_pos = subst (λ (t : List ℕ). (header_of t).image_size ≢ 0) hdr g.size_pos;
    size_fits =
        subst (λ (t : List ℕ). (header_of t).image_size ≤ firmware_max_payload_size) hdr
          g.size_fits;
    checksum = ap crc32 (sym pay) ∙ g.checksum ∙ ap (λ (t : List ℕ). (header_of t).crc32) hdr;
    low_s = subst (λ (t : List ℕ). is_canonical_low_s (header_of t).signature ≡ true) hdr g.low_s;
    signed =
        ap₂
          (λ (t u : List ℕ).
            E.uecc_verify E.public_key_xy
              (reference_sha256 (take 20 t ++ (replicate 64 0 ++ (drop 84 t ++ u))))
              (header_of t).signature)
          (sym hdr) (sym pay)
        ∙ g.signed;
  }

  IsGenuine-same : (m m' : D.Mem) → Agree m m' → IsGenuine D E slot m → IsGenuine D E slot m'
  IsGenuine-same m m' same g =
      IsGenuine-regions m m' (header-same m m' same) (payload-same m m' same g.size_fits) g

  -- Two memories with the same bytes in a slot get the same verdict on it.
  pub verify-local :
      (m m' : D.Mem)
      → Agree m m'
      → crypto_verify_firmware D E slot m ≡ crypto_verify_firmware D E slot m'
  verify-local m m' same = elim (Bool-cases (crypto_verify_firmware D E slot m)) [
    | inl e ↦ e ∙ sym (carry m m' same e)
    | inr e ↦ elim (Bool-cases (crypto_verify_firmware D E slot m')) [
      | inr e' ↦ e ∙ sym e'
      | inl e' ↦ carry m' m (λ x p q. sym (same x p q)) e' ∙ sym e'
    ]
  ]
    where
      carry :
          (n n' : D.Mem)
          → Agree n n'
          → crypto_verify_firmware D E slot n ≡ true
          → crypto_verify_firmware D E slot n' ≡ true
      carry n n' s e =
          (verify_firmware_iff D E F slot n' h).1
            (IsGenuine-same n n' s ((verify_firmware_iff D E F slot n h).0 e))
