-- ===== src/Crypto.antt =====
-- bootloader/src/crypto.c: verification of a signed image in a slot. micro-ecc and the generated
-- public_key.h are parameters.
pub mod Compare
pub mod LowS
pub mod Chunks
pub mod Verify
pub mod Local
mod Tests
use secure_boot_loader_with.Base.{
  ℕ, zero, suc, ◌+◌, ◌-◌, ◌≡◌, List, [], ◌∷◌, ◌++◌, Option, none, some, Bool, true, false, ◌||◌,
  bit_or, bit_xor, u8, u32, length, take, drop, replicate, ltb, ◌==◌, if◌then◌else◌,
}
use secure_boot_loader_with.MemoryMap.{
  firmware_magic, firmware_header_size, firmware_signature_size, firmware_max_payload_size,
}
use secure_boot_loader_with.Crc32.{crc32_init, crc32_update, crc32_finalize}
use secure_boot_loader_with.Sha256.{Context, sha256_init, sha256_update, sha256_final}
use secure_boot_loader_with.Flash.{FlashDriver, Status, ok, is_ok}
use secure_boot_loader_with.FirmwareFormat.{FirmwareHeader, header_of, header_bytes}

-- The calls of micro-ecc, with their `int` results, and the arrays of public_key.h. The curve is
-- always secp256r1.
pub record Ecc : Type 0 where
  pub public_key_xy : List ℕ
  pub public_key_sha256 : List ℕ
  pub uecc_valid_public_key : List ℕ → ℕ
  pub uecc_verify : List ℕ → List ℕ → List ℕ → ℕ

abbrev pub verify_chunk_bytes : ℕ
verify_chunk_bytes = 1024

-- What an uninitialised context's buffer holds. The digest does not depend on it.
abbrev pub stack_bytes : List ℕ
stack_bytes = replicate 64 0

abbrev pub k_secp256r1_half_order : List ℕ
k_secp256r1_half_order =
    0x7F ∷ 0xFF ∷ 0xFF ∷ 0xFF ∷ 0x80 ∷ 0x00 ∷ 0x00 ∷ 0x00 ∷ 0x7F ∷ 0xFF ∷ 0xFF ∷ 0xFF ∷ 0xFF ∷ 0xFF
    ∷ 0xFF ∷ 0xFF ∷ 0xDE ∷ 0x73 ∷ 0x7D ∷ 0x56 ∷ 0xD3 ∷ 0x8B ∷ 0xCF ∷ 0x42 ∷ 0x79 ∷ 0xDC ∷ 0xE5
    ∷ 0x61 ∷ 0x7E ∷ 0x31 ∷ 0x92 ∷ 0xA8 ∷ []

-- The or of all bytes.
pub or_bytes : ℕ → List ℕ → ℕ
or_bytes acc [] = acc
or_bytes acc (b ∷ bs) = or_bytes (bit_or acc b) bs

-- The borrow of the subtraction of two big-endian numbers, from the last byte up: the difference
-- `half[i] - s[i] - borrow` is negative exactly if `half[i] < s[i] + borrow`.
pub borrow : List ℕ → List ℕ → ℕ
borrow (h ∷ hs) (s ∷ ss) = let b : ℕ = borrow hs ss in if ltb h (s + b) then 1 else 0
borrow _ _ = 0

unfoldable pub is_canonical_low_s : List ℕ → Bool
unfolding or_bytes borrow
is_canonical_low_s sig =
    let r : List ℕ = take 32 sig in
    let s : List ℕ = take 32 (drop 32 sig) in
    if or_bytes 0 r == 0 || or_bytes 0 s == 0 then false else borrow k_secp256r1_half_order s == 0

-- The loop of `crypto_constant_time_equal`, over two buffers of one length.
pub diff_bytes : ℕ → List ℕ → List ℕ → ℕ
diff_bytes diff (a ∷ xs) (b ∷ ys) = diff_bytes (bit_or diff (u8 (bit_xor a b))) xs ys
diff_bytes diff _ _ = diff

unfoldable pub crypto_constant_time_equal : List ℕ → List ℕ → Bool
unfolding diff_bytes
crypto_constant_time_equal a b = diff_bytes 0 a b == 0

-- `remaining > limit ? limit : remaining`
unfoldable pub chunk_size : ℕ → ℕ → ℕ
chunk_size limit remaining = if ltb limit remaining then limit else remaining

-- A loop that reads `remaining` bytes from flash in chunks of at most `limit` and feeds each to an
-- accumulator, by fuel; `none` is the early `return false`.
module _ {ℓ} {S : Type ℓ} (D : FlashDriver) (limit : ℕ) (feed : S → List ℕ → S) (m : D.Mem) where
  unfoldable pub read_chunks : ℕ → ℕ → ℕ → S → Option S
  read_chunks zero addr remaining acc = none
  read_chunks (suc fuel) addr remaining acc =
      let chunk : ℕ = chunk_size limit remaining in
      let (status, buf) = D.flash_read addr chunk m in
      let rest : Option S =
        read_chunks fuel (u32 (addr + chunk)) (remaining - chunk) (feed acc buf) in
      if ltb 0 remaining then if is_ok status then rest else none else some acc

abbrev pub finish_hash : Option Context → Option (List ℕ)
finish_hash none = none
finish_hash (some ctx) = some (sha256_final ctx)

module _ (D : FlashDriver) (E : Ecc) where
  unfoldable pub crypto_validate_public_key : Bool
  crypto_validate_public_key =
      if E.uecc_valid_public_key E.public_key_xy == 1
      then crypto_constant_time_equal
          (sha256_final (sha256_update (sha256_init stack_bytes) E.public_key_xy))
          E.public_key_sha256
      else false

  unfoldable pub hash_signed_region : ℕ → FirmwareHeader → D.Mem → Option (List ℕ)
  hash_signed_region slot_addr hdr m =
      let hdr_bytes : List ℕ = header_bytes hdr in
      let c0 : Context = sha256_init stack_bytes in
      let c1 : Context = sha256_update c0 (take 20 hdr_bytes) in
      let c2 : Context = sha256_update c1 (replicate firmware_signature_size 0) in
      let c3 : Context = sha256_update c2 (drop 84 hdr_bytes) in
      finish_hash (
        read_chunks D verify_chunk_bytes sha256_update m (suc hdr.image_size)
          (u32 (slot_addr + firmware_header_size)) hdr.image_size c3)

  -- What follows the hash.
  unfoldable pub check_signature : FirmwareHeader → Option (List ℕ) → Bool
  check_signature hdr none = false
  check_signature hdr (some hash) =
      if is_canonical_low_s hdr.signature
      then E.uecc_verify E.public_key_xy hash hdr.signature == 1
      else false

  -- What follows the checksum loop.
  unfoldable pub check_crc : ℕ → FirmwareHeader → Option ℕ → D.Mem → Bool
  check_crc slot_addr hdr none m = false
  check_crc slot_addr hdr (some crc_state) m =
      if crc32_finalize crc_state == hdr.crc32
      then check_signature hdr (hash_signed_region slot_addr hdr m)
      else false

  -- What follows the read of the header.
  unfoldable pub check_header : ℕ → FirmwareHeader → D.Mem → Bool
  check_header slot_addr hdr m =
      if hdr.magic == firmware_magic
      then if hdr.image_size == 0 || ltb firmware_max_payload_size hdr.image_size
        then false
        else check_crc slot_addr hdr
            (read_chunks D verify_chunk_bytes crc32_update m (suc hdr.image_size)
              (u32 (slot_addr + firmware_header_size)) hdr.image_size crc32_init)
            m
      else false

  unfoldable pub crypto_verify_firmware : ℕ → D.Mem → Bool
  crypto_verify_firmware slot_addr m =
      let (status, bytes) = D.flash_read slot_addr firmware_header_size m in
      if crypto_validate_public_key
      then if is_ok status then check_header slot_addr (header_of bytes) m else false
      else false
