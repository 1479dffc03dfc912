-- ===== src/BootConfig/Tests.antt =====
-- The theorems on the boot configuration at example records.
use secure_boot_loader_with.Base.{
  ℕ, ◌+◌, ◌<◌, ◌≤◌, ◌≡◌, ◌⊎◌, inl, refl, true, false, arith, List, IsBytes, length, le32,
}
use secure_boot_loader_with.MemoryMap.{slot_a, slot_a_addr, boot_config_addr}
use secure_boot_loader_with.Flash.{ok}
use secure_boot_loader_with.Flash.Sim.{
  Shadow, flash_program_bytes, flash_program_word, all_shadowed, shadow_byte_ptr,
}
use secure_boot_loader_with.Flash.Sim.Program.{program_loop-succeeds}
use secure_boot_loader_with.Flash.Sim.Driver.{sim_driver, sim_driver-IsFlash}
use secure_boot_loader_with.Crypto.{crypto_verify_firmware}
use secure_boot_loader_with.BootConfig.{
  BootConfig, boot_config_stamp_crc, boot_config_antidowngrade_floor, boot_config_firmware_allowed,
  boot_config_record_ota_to_slot,
}
use secure_boot_loader_with.BootConfig.Store.Cut.{cut_driver, cut_save_atomic}
use secure_boot_loader_with.BootConfig.Floor.{record_ota_bars_zero_major}
use secure_boot_loader_with.BootConfig.Store.{boot_config_load, boot_config_save}
use secure_boot_loader_with.BootConfig.Store.Save.{load-save, save_destroys_slot_a}
use secure_boot_loader_with.BootConfig.Store.Success.{erase_succeeds, sim_save_succeeds}
use secure_boot_loader_with.Example.{example_ecc, cfg_with, flash_with}

-- Version 2.0.0 in slot A, and a factory-fresh record.
abbrev cfg : BootConfig
cfg = cfg_with slot_a 0x2_0000 0

abbrev fresh : BootConfig
fresh = record cfg { slot_a_version = 0; rollback_counter = 0 }

abbrev flash : Shadow
flash = flash_with cfg

record_programs :
    (a : ℕ) (bs : List ℕ) (t : Shadow)
    → boot_config_addr ≤ a
    → a + length bs ≤ boot_config_addr + 24
    → IsBytes bs
    → (flash_program_bytes a bs t).0 ≡ ok
unfolding flash_program_bytes
record_programs a bs t lo hi b =
    program_loop-succeeds a bs t (omega arith) (λ x p q. inl (omega (arith, lo, hi, p, q))) b

word_programs : (w : ℕ) (t : Shadow) → (flash_program_word (boot_config_addr + 20) w t).0 ≡ ok
unfolding flash_program_word all_shadowed shadow_byte_ptr
word_programs w t =
    program_loop-succeeds (boot_config_addr + 20) (le32 w) t (omega arith)
      (λ x lo hi. inl (omega arith)) (omega arith)

-- The power goes after two of the four bytes of the checksum.
cut_save_atomic_example :
    let found =
      boot_config_load sim_driver example_ecc
        (boot_config_save (cut_driver sim_driver) cfg (flash, 22)).1.0 in
    ((22 < 24) × (found.0 ≡ false)) ⊎ (found ≡ (true, boot_config_stamp_crc cfg))
cut_save_atomic_example =
    cut_save_atomic sim_driver sim_driver-IsFlash example_ecc cfg flash 22 (omega arith) refl
      (erase_succeeds flash) record_programs
      (λ t. word_programs (boot_config_stamp_crc cfg).crc32 t)

record_ota_bars_zero_major_example :
    boot_config_firmware_allowed (boot_config_record_ota_to_slot fresh slot_a 0x900) 0x900 ≡ false
unfolding boot_config_antidowngrade_floor
record_ota_bars_zero_major_example =
    record_ota_bars_zero_major fresh slot_a 0x900 0x900 (omega arith) (omega arith) (omega arith)
      (omega arith)

load-save_example :
    boot_config_load sim_driver example_ecc (boot_config_save sim_driver cfg flash).1
    ≡ (true, boot_config_stamp_crc cfg)
load-save_example =
    load-save sim_driver example_ecc cfg flash (omega arith) refl
      (sim_save_succeeds cfg flash (omega arith))

save_destroys_slot_a_example :
    crypto_verify_firmware sim_driver example_ecc slot_a_addr
      (boot_config_save sim_driver cfg flash).1
    ≡ false
save_destroys_slot_a_example =
    save_destroys_slot_a sim_driver example_ecc cfg flash sim_driver-IsFlash
      (sim_save_succeeds cfg flash (omega arith))
