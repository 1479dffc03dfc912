-- ===== src/BootConfig/Floor.antt =====
-- The anti-downgrade floor: what it is, how recording an installed image moves it, and where a
-- version below 1.0.0 is shut out.
use secure_boot_loader_with.Base.{ℕ, ◌*◌, ◌^◌, ◌≤◌, ◌<◌, ◌≡◌, ◌⊎◌, true, false, arith, leb}
use secure_boot_loader_with.BootConfig.{
  BootConfig, IsRecord, boot_config_antidowngrade_floor, boot_config_firmware_allowed,
  boot_config_record_ota_to_slot,
}

-- The floor is the greatest of three numbers: the two recorded versions, and the rollback counter
-- as a major version.
pub floor_is_greatest :
    (cfg : BootConfig)
    → IsRecord cfg
    → let floor = boot_config_antidowngrade_floor cfg in
      (cfg.slot_a_version ≤ floor)
      × (cfg.slot_b_version ≤ floor)
      × (cfg.rollback_counter * 2 ^ 16 ≤ floor)
      × ((floor ≡ cfg.slot_a_version)
          ⊎ (floor ≡ cfg.slot_b_version)
          ⊎ (floor ≡ cfg.rollback_counter * 2 ^ 16))
unfolding boot_config_antidowngrade_floor
floor_is_greatest cfg h = (ground arith, ground arith, ground arith, ground arith)

-- Recording an image that the floor allows never lowers the floor, and the floor then covers the
-- image's own version.
pub record_ota_raises_floor :
    (cfg : BootConfig) (slot v : ℕ)
    → IsRecord cfg
    → v < 2 ^ 32
    → boot_config_firmware_allowed cfg v ≡ true
    → let after = boot_config_antidowngrade_floor (boot_config_record_ota_to_slot cfg slot v) in
      (boot_config_antidowngrade_floor cfg ≤ after) × (v ≤ after)
unfolding boot_config_firmware_allowed boot_config_record_ota_to_slot
record_ota_raises_floor cfg slot v h w allowed = (ground arith, ground arith)

-- For a three-byte version of 1.0.0 or later above the floor, the floor becomes that version, so
-- exactly the versions from it on are allowed from then on.
pub record_ota_floor :
    (cfg : BootConfig) (slot v w : ℕ)
    → IsRecord cfg
    → 2 ^ 16 ≤ v
    → v < 2 ^ 24
    → boot_config_antidowngrade_floor cfg < v
    → (boot_config_antidowngrade_floor (boot_config_record_ota_to_slot cfg slot v) ≡ v)
      × (boot_config_firmware_allowed (boot_config_record_ota_to_slot cfg slot v) w ≡ leb v w)
unfolding boot_config_firmware_allowed boot_config_record_ota_to_slot
record_ota_floor cfg slot v w h one three above = (ground arith, ground arith)

-- Recording a version below 1.0.0 that is above the floor puts the rollback counter at 1: from
-- then on no version below 1.0.0 is allowed, the one just recorded included.
pub record_ota_bars_zero_major :
    (cfg : BootConfig) (slot v w : ℕ)
    → IsRecord cfg
    → v < 2 ^ 16
    → boot_config_antidowngrade_floor cfg < v
    → w < 2 ^ 16
    → boot_config_firmware_allowed (boot_config_record_ota_to_slot cfg slot v) w ≡ false
unfolding boot_config_firmware_allowed boot_config_record_ota_to_slot
record_ota_bars_zero_major cfg slot v w h small above q = ground arith
