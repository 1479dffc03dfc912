-- ===== src/DeltaPatch.antt =====
-- The check of the base image in bootloader/src/delta_patch.c.
use secure_boot_loader_with.Base.{
  ℕ, suc, ◌+◌, ◌≤◌, ◌<◌, ◌^◌, ◌≡◌, ◌↔◌, refl, ap, ◌∙◌, sym, List, Option, none, some, Bool, true,
  false, arith, ltb, leb, ◌==◌, if◌then◌else◌, u32, length, IsBytes,
}
use secure_boot_loader_with.MemoryMap.{firmware_magic, firmware_header_size, slot_size}
use secure_boot_loader_with.Sha256.{Context, sha256_init, sha256_update, sha256_final}
use secure_boot_loader_with.Flash.{FlashDriver, is_ok}
use secure_boot_loader_with.FirmwareFormat.{FirmwareHeader, header_of}
use secure_boot_loader_with.Crypto.{stack_bytes, read_chunks, crypto_constant_time_equal}
pub mod Base
pub mod Apply
pub mod Confined
pub mod Replay
pub mod Refine
pub mod Whole
pub mod Length
mod Tests

-- The end of the check, on the context after the loop; `none` is an early return of the loop.
unfoldable pub compare_digest : List ℕ → Option Context → Bool
compare_digest expected_digest none = false
compare_digest expected_digest (some ctx) =
    crypto_constant_time_equal (sha256_final ctx) expected_digest

-- The loop runs over `off`; the bytes that remain are `total - off`.
unfoldable pub delta_verify_active_base_sha256 : (D : FlashDriver) → ℕ → List ℕ → D.Mem → Bool
delta_verify_active_base_sha256 D active_slot_base expected_digest m =
    let (status, bytes) = D.flash_read active_slot_base firmware_header_size m in
    let hdr : FirmwareHeader = header_of bytes in
    let total : ℕ = u32 (firmware_header_size + hdr.image_size) in
    if is_ok status
    then if hdr.magic == firmware_magic
      then if ltb slot_size total
        then false
        else compare_digest expected_digest (
            read_chunks D 512 sha256_update m (suc total) active_slot_base total
              (sha256_init stack_bytes))
      else false
    else false
