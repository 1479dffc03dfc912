-- ===== src/BootConfig.antt =====
-- bootloader/include/config.h and the parts of bootloader/src/boot_config.c that need no flash: the
-- 24-byte record in memory, its checksum, and the anti-downgrade floor.
pub mod Bytes
pub mod Torn
pub mod Floor
pub mod Store
mod Tests
use secure_boot_loader_with.Base.{
  ℕ, ◌+◌, ◌*◌, ◌/◌, ◌^◌, Bool, true, false, List, [], ◌∷◌, ◌++◌, ◌<◌, u32, u8, le32, of_le32, ◌<<◌,
  ◌>>◌, low_bits, get_or, ltb, leb, ◌==◌, if◌then◌else◌,
}
use secure_boot_loader_with.Crc32
use secure_boot_loader_with.MemoryMap.{slot_a, boot_config_magic}

pub record BootConfig : Type 0 where
  pub slot_a_version : ℕ  -- uint32_t
  pub slot_b_version : ℕ  -- uint32_t
  pub active_slot : ℕ  -- uint8_t
  pub boot_attempts : ℕ  -- uint8_t
  pub rollback_counter : ℕ  -- uint8_t
  pub reserved : ℕ  -- uint8_t
  pub last_good_boot : ℕ  -- uint32_t
  pub magic : ℕ  -- uint32_t
  pub crc32 : ℕ  -- uint32_t

-- The fields hold values of their types.
pub record IsRecord (cfg : BootConfig) : Type 0 where
  pub a_word : cfg.slot_a_version < 2 ^ 32
  pub b_word : cfg.slot_b_version < 2 ^ 32
  pub active_byte : cfg.active_slot < 2 ^ 8
  pub attempts_byte : cfg.boot_attempts < 2 ^ 8
  pub rollback_byte : cfg.rollback_counter < 2 ^ 8
  pub reserved_byte : cfg.reserved < 2 ^ 8
  pub good_word : cfg.last_good_boot < 2 ^ 32
  pub magic_word : cfg.magic < 2 ^ 32
  pub crc_word : cfg.crc32 < 2 ^ 32

-- The bytes [0, 20) of the record in memory, which the checksum covers.
abbrev pub body : BootConfig → List ℕ
body cfg =
    le32 cfg.slot_a_version
    ++ (le32 cfg.slot_b_version
        ++ (cfg.active_slot
            ∷ cfg.boot_attempts
            ∷ cfg.rollback_counter
            ∷ cfg.reserved
            ∷ (le32 cfg.last_good_boot ++ le32 cfg.magic)))

-- The whole record in memory.
abbrev pub bytes_of : BootConfig → List ℕ
bytes_of cfg = body cfg ++ le32 cfg.crc32

-- Four bytes of a buffer, read as a little-endian word.
abbrev pub word_at : List ℕ → ℕ → ℕ
word_at bs i =
    of_le32 (get_or bs i 0) (get_or bs (i + 1) 0) (get_or bs (i + 2) 0) (get_or bs (i + 3) 0)

-- The record that 24 bytes of memory are.
abbrev pub of_bytes : List ℕ → BootConfig
of_bytes bs = record {
  slot_a_version = word_at bs 0;
  slot_b_version = word_at bs 4;
  active_slot = get_or bs 8 0;
  boot_attempts = get_or bs 9 0;
  rollback_counter = get_or bs 10 0;
  reserved = get_or bs 11 0;
  last_good_boot = word_at bs 12;
  magic = word_at bs 16;
  crc32 = word_at bs 20;
}

unfoldable pub boot_config_stamp_crc : BootConfig → BootConfig
boot_config_stamp_crc cfg = record cfg { crc32 = Crc32.crc32 (body cfg) }

unfoldable pub boot_config_default : BootConfig
unfolding boot_config_stamp_crc
boot_config_default = boot_config_stamp_crc (record {
  slot_a_version = 0;
  slot_b_version = 0;
  active_slot = slot_a;
  boot_attempts = 0;
  rollback_counter = 0;
  reserved = 0;
  last_good_boot = 0;
  magic = boot_config_magic;
  crc32 = 0;
})

unfoldable pub boot_config_validate : BootConfig → Bool
boot_config_validate cfg =
    if cfg.magic == boot_config_magic then Crc32.crc32 (body cfg) == cfg.crc32 else false

unfoldable pub boot_config_antidowngrade_floor : BootConfig → ℕ
boot_config_antidowngrade_floor cfg =
    let floor : ℕ = u32 (cfg.rollback_counter << 16) in
    let floor_a : ℕ = if ltb floor cfg.slot_a_version then cfg.slot_a_version else floor in
    if ltb floor_a cfg.slot_b_version then cfg.slot_b_version else floor_a

unfoldable pub boot_config_firmware_allowed : BootConfig → ℕ → Bool
unfolding boot_config_antidowngrade_floor
boot_config_firmware_allowed cfg fw_version = leb (boot_config_antidowngrade_floor cfg) fw_version

-- The major version byte, or 1 where that is 0.
abbrev pub major_counter : ℕ → ℕ
major_counter version =
    let major : ℕ = u8 (low_bits (version >> 16) 8) in if major == 0 then 1 else major

unfoldable pub boot_config_record_ota_to_slot : BootConfig → ℕ → ℕ → BootConfig
unfolding boot_config_antidowngrade_floor
boot_config_record_ota_to_slot cfg slot fw_version =
    let floor : ℕ = boot_config_antidowngrade_floor cfg in
    let recorded : BootConfig =
      if slot == slot_a
      then record cfg { slot_a_version = fw_version }
      else record cfg { slot_b_version = fw_version } in
    if ltb floor fw_version
    then record recorded { rollback_counter = major_counter fw_version }
    else recorded
