-- ===== src/BootConfig/Store.antt =====
-- The parts of bootloader/src/boot_config.c that use the flash: load, save, and recovery from the
-- headers of the slots.
pub mod Save
pub mod Recover
pub mod Marked
pub mod Writes
pub mod Success
pub mod Cut
use secure_boot_loader_with.Base.{
  ℕ, ◌+◌, Bool, true, false, List, [], ◌∷◌, ◌&&◌, ltb, leb, ◌==◌, not, if◌then◌else◌,
}
use secure_boot_loader_with.MemoryMap.{
  boot_config_addr, slot_a_addr, slot_b_addr, slot_a, slot_b, firmware_magic, firmware_header_size,
  firmware_max_payload_size,
}
use secure_boot_loader_with.Flash.{FlashDriver, Status, is_ok}
use secure_boot_loader_with.FirmwareFormat.{FirmwareHeader, header_of}
use secure_boot_loader_with.Crypto.{Ecc, crypto_verify_firmware}
use secure_boot_loader_with.BootConfig.{
  BootConfig, body, bytes_of, of_bytes, boot_config_stamp_crc, boot_config_default,
  boot_config_validate, major_counter,
}

abbrev pub cfg_crc_offset : ℕ
cfg_crc_offset = 20

-- `memcmp(a, b, n) == 0`, on buffers of one length.
pub same_bytes : List ℕ → List ℕ → Bool
same_bytes [] [] = true
same_bytes (x ∷ xs) (y ∷ ys) = x == y && same_bytes xs ys
same_bytes _ _ = false

-- The end of the recovery: the newer of the valid slots becomes active and sets the floor.
unfoldable pub choose_active : Bool → Bool → BootConfig → BootConfig
choose_active a_valid b_valid cfg =
    let take_a : Bool = a_valid && ltb 0 cfg.slot_a_version in
    let floor_a : ℕ = if take_a then cfg.slot_a_version else 0 in
    let cfg_a : BootConfig = if take_a then record cfg { active_slot = slot_a } else cfg in
    let take_b : Bool = b_valid && ltb floor_a cfg.slot_b_version in
    let floor : ℕ = if take_b then cfg.slot_b_version else floor_a in
    let cfg_b : BootConfig = if take_b then record cfg_a { active_slot = slot_b } else cfg_a in
    if ltb 0 floor then record cfg_b { rollback_counter = major_counter floor } else cfg_b

-- The recovery, on what was found in the two slots.
unfoldable pub recover_found : Bool → Bool → ℕ → ℕ → BootConfig → BootConfig
unfolding choose_active boot_config_stamp_crc
recover_found a_valid b_valid a_version b_version cfg =
    let cfg_a : BootConfig = if a_valid then record cfg { slot_a_version = a_version } else cfg in
    let cfg_b : BootConfig =
      if b_valid then record cfg_a { slot_b_version = b_version } else cfg_a in
    boot_config_stamp_crc (choose_active a_valid b_valid cfg_b)

module _ (D : FlashDriver) (E : Ecc) where
  -- The nested tests on one slot, which set `a_valid` or `b_valid`.
  pub slot_valid : ℕ → D.Mem → Bool
  slot_valid slot_addr m =
      let (status, bytes) = D.flash_read slot_addr firmware_header_size m in
      let hdr : FirmwareHeader = header_of bytes in
      if is_ok status
      then if hdr.magic == firmware_magic
          && (ltb 0 hdr.image_size && leb hdr.image_size firmware_max_payload_size)
        then crypto_verify_firmware D E slot_addr m
        else false
      else false

  pub slot_version : ℕ → D.Mem → ℕ
  slot_version slot_addr m = (header_of (D.flash_read slot_addr firmware_header_size m).1).version

  unfoldable pub boot_config_recover_from_slots : BootConfig → D.Mem → BootConfig
  boot_config_recover_from_slots cfg m =
      recover_found (slot_valid slot_a_addr m) (slot_valid slot_b_addr m)
        (slot_version slot_a_addr m) (slot_version slot_b_addr m) cfg

  -- The result, and `*out`.
  unfoldable pub boot_config_load : D.Mem → Bool × BootConfig
  boot_config_load m =
      let out : BootConfig = of_bytes (D.flash_read boot_config_addr 24 m).1 in
      if boot_config_validate out
      then (true, out)
      else (false, boot_config_recover_from_slots boot_config_default m)

module _ (D : FlashDriver) where
  -- Step 4 of a save.
  pub save_readback : BootConfig → Bool → D.Mem → Bool × D.Mem
  save_readback buf false m = (false, m)
  save_readback buf true m = (same_bytes (D.flash_read boot_config_addr 24 m).1 (bytes_of buf), m)

  -- Step 3: the checksum, last.
  pub save_crc : BootConfig → Bool → D.Mem → Bool × D.Mem
  save_crc buf false m = (false, m)
  save_crc buf true m =
      let (s, m') = D.flash_program_word (boot_config_addr + cfg_crc_offset) buf.crc32 m in
      save_readback buf (is_ok s) m'

  -- Step 2: the body.
  pub save_body : BootConfig → Bool → D.Mem → Bool × D.Mem
  save_body buf false m = (false, m)
  save_body buf true m =
      let (s, m') = D.flash_program_bytes boot_config_addr (body buf) m in save_crc buf (is_ok s) m'

  -- Step 1: the erase.
  unfoldable pub boot_config_save : BootConfig → D.Mem → Bool × D.Mem
  boot_config_save cfg m =
      let buf : BootConfig = boot_config_stamp_crc cfg in
      let (s, m') = D.flash_erase_range boot_config_addr 24 m in save_body buf (is_ok s) m'
