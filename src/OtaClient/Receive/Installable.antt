-- ===== src/OtaClient/Receive/Installable.antt =====
-- The image that the sessions at the example bring into slot B may be installed.
use secure_boot_loader_with.Base.{
  ℕ, ◌≡◌, ap, sym, ◌∙◌, ◌+◌, ◌≤◌, ◌<◌, refl, List, Bool, true, arith,
}
use secure_boot_loader_with.MemoryMap.{
  slot_a, slot_b_addr, memory_map_slot_addr, memory_map_other_slot,
}
use secure_boot_loader_with.Crc32.{crc32}
use secure_boot_loader_with.Flash.{bytes_from}
use secure_boot_loader_with.Flash.Sectors.{
  sector_index_for_addr, flash_sector_start, flash_sector_size,
}
use secure_boot_loader_with.Flash.Sim.{
  Shadow, shadow_byte, shadow_byte_ptr, load, flash_erase_range, erase_sectors, unless_failed,
  flash_erase_sector, flash_read, shadow_aware_read,
}
use secure_boot_loader_with.Flash.Sim.Driver.{sim_driver, sim_driver-IsFlash}
use secure_boot_loader_with.BootConfig.{
  BootConfig, boot_config_stamp_crc, boot_config_validate, boot_config_firmware_allowed,
  boot_config_antidowngrade_floor,
}
use secure_boot_loader_with.BootConfig.Store.{boot_config_load}
use secure_boot_loader_with.FirmwareFormat.{header_of}
use secure_boot_loader_with.Crypto.Verify.{
  IsGenuine, header_region, header_at, payload_at, verify_firmware_iff,
}
use secure_boot_loader_with.Crypto.Local.{IsGenuine-regions}
use secure_boot_loader_with.Flash.Bytes.{bytes_from-eq, bytes_from-pointwise}
use secure_boot_loader_with.Crypto.{crypto_verify_firmware}
use secure_boot_loader_with.OtaClient.Receive.Contained.{NotInB, load_local}
use secure_boot_loader_with.OtaClient.Session.{after_erase, handle_start}
use secure_boot_loader_with.OtaClient.Receive.{installable}
use secure_boot_loader_with.Example.{IsGenuine-b, example_ecc, image, cfg_with}
use secure_boot_loader_with.OtaClient.Receive.Example.{flash}

loads_a :
    boot_config_load sim_driver example_ecc flash
    ≡ (true, boot_config_stamp_crc (cfg_with slot_a 0x2_0000 0))
unfolding handle_start after_erase boot_config_load boot_config_validate flash_read
    shadow_aware_read bytes_from shadow_byte shadow_byte_ptr load boot_config_stamp_crc crc32
    memory_map_slot_addr memory_map_other_slot flash_erase_range erase_sectors unless_failed
    flash_erase_sector sector_index_for_addr flash_sector_start flash_sector_size
loads_a = refl

pub valid_record : (boot_config_load sim_driver example_ecc flash).0 ≡ true
valid_record = ap (λ (t : Bool × BootConfig). t.0) loads_a

pub in_a : (boot_config_load sim_driver example_ecc flash).1.active_slot ≡ slot_a
unfolding boot_config_stamp_crc
in_a = ap (λ (t : Bool × BootConfig). t.1.active_slot) loads_a

module _ (n : Shadow) (holds : bytes_from (shadow_byte n) slot_b_addr 513 ≡ image 3)
    (same : (x : ℕ) → NotInB x → shadow_byte n x ≡ shadow_byte flash x) where
  same_byte :
      (x : ℕ) → slot_b_addr ≤ x → x < slot_b_addr + 513 → shadow_byte flash x ≡ shadow_byte n x
  unfolding bytes_from shadow_byte shadow_byte_ptr load
  same_byte x lo hi =
      bytes_from-pointwise (shadow_byte flash) (shadow_byte n) slot_b_addr 513 x (omega arith)
        (flash_b ∙ sym holds) lo hi
    where
      flash_b : bytes_from (shadow_byte flash) slot_b_addr 513 ≡ image 3
      flash_b = refl

  header_same :
      header_region sim_driver example_ecc slot_b_addr flash
      ≡ header_region sim_driver example_ecc slot_b_addr n
  header_same =
      bytes_from-eq (shadow_byte flash) (shadow_byte n) slot_b_addr 512 (omega arith)
        (λ x p q. same_byte x p (omega arith))

  one_byte : (header_at sim_driver example_ecc slot_b_addr flash).image_size ≡ 1
  unfolding bytes_from shadow_byte shadow_byte_ptr load header_of
  one_byte = refl

  one_byte_n : (header_at sim_driver example_ecc slot_b_addr n).image_size ≡ 1
  one_byte_n = ap (λ (bs : List ℕ). (header_of bs).image_size) (sym header_same) ∙ one_byte

  payload_same :
      payload_at sim_driver example_ecc slot_b_addr flash
      ≡ payload_at sim_driver example_ecc slot_b_addr n
  payload_same =
      ap
        (λ (bs : List ℕ).
          bytes_from (shadow_byte flash) (slot_b_addr + 512) (header_of bs).image_size)
        header_same
      ∙ bytes_from-eq (shadow_byte flash) (shadow_byte n) (slot_b_addr + 512) _
          (omega (arith, one_byte_n))
          (λ x p q. same_byte x (omega arith) (omega (arith, one_byte_n)))

  IsGenuine-n : IsGenuine sim_driver example_ecc slot_b_addr n
  IsGenuine-n =
      IsGenuine-regions sim_driver example_ecc sim_driver-IsFlash slot_b_addr (omega arith) flash n
        header_same payload_same (IsGenuine-b (cfg_with slot_a 0x2_0000 0))

  config_kept :
      boot_config_load sim_driver example_ecc n ≡ boot_config_load sim_driver example_ecc flash
  config_kept = load_local sim_driver example_ecc sim_driver-IsFlash flash n valid_record same

  verified : crypto_verify_firmware sim_driver example_ecc slot_b_addr n ≡ true
  verified =
      (verify_firmware_iff sim_driver example_ecc sim_driver-IsFlash slot_b_addr n (omega arith)).1
        IsGenuine-n

  version_3 : (header_at sim_driver example_ecc slot_b_addr flash).version ≡ 0x3_0000
  unfolding bytes_from shadow_byte shadow_byte_ptr load header_of
  version_3 = refl

  version_n : (header_at sim_driver example_ecc slot_b_addr n).version ≡ 0x3_0000
  version_n = ap (λ (bs : List ℕ). (header_of bs).version) (sym header_same) ∙ version_3

  allowed :
      boot_config_firmware_allowed
        (boot_config_load sim_driver example_ecc n).1
        (header_at sim_driver example_ecc slot_b_addr n).version
      ≡ true
  unfolding boot_config_firmware_allowed boot_config_stamp_crc boot_config_antidowngrade_floor
  allowed = rw (config_kept ∙ loads_a, version_n) refl

  pub installable-image : installable sim_driver example_ecc slot_b_addr n ≡ true
  unfolding installable
  installable-image =
      rw (verified, sim_driver-IsFlash.read_lem slot_b_addr 512 n, IsGenuine-n.magic, allowed) refl
