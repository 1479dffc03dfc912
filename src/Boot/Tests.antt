-- ===== src/Boot/Tests.antt =====
-- The theorems on the boot at a simulated flash with an image in each slot.
use secure_boot_loader_with.Base.{ℕ, ◌+◌, ◌≡◌, ◌≤◌, ◌↔◌, inl, refl, true, false, arith}
use secure_boot_loader_with.MemoryMap.{slot_a, slot_b}
use secure_boot_loader_with.MemoryMap.Layout.{IsSlot}
use secure_boot_loader_with.Flash.Sim.Driver.{sim_driver, sim_driver-IsFlash}
use secure_boot_loader_with.BootConfig.{boot_config_stamp_crc}
use secure_boot_loader_with.BootConfig.Store.{boot_config_load, boot_config_save}
use secure_boot_loader_with.Boot.{start, boot, pick_loop, pick_slot_to_boot, max_boot_attempts}
use secure_boot_loader_with.Boot.Pick.{verifies, pick_decision, pick_slot_decides}
use secure_boot_loader_with.Boot.Run.{boot_verified, boot_recovery_iff}
use secure_boot_loader_with.BootConfig.Store.{boot_config_load}
use secure_boot_loader_with.Boot.Persist.{boot_persists}
use secure_boot_loader_with.Example.{example_ecc, quiet_block}
use secure_boot_loader_with.Boot.Example.{flash_at, st_a, loads_a, boots_a}

pick_slot_decides_example :
    (pick_slot_to_boot sim_driver example_ecc st_a ≡ pick_decision sim_driver example_ecc st_a)
    × ((n : ℕ)
        → pick_loop sim_driver example_ecc (n + 2) st_a ≡ pick_decision sim_driver example_ecc st_a)
pick_slot_decides_example = pick_slot_decides sim_driver example_ecc st_a (inl refl)

boot_verified_example :
    let (slot, after) = boot sim_driver example_ecc quiet_block (flash_at slot_a) in
    let before = start sim_driver example_ecc quiet_block (flash_at slot_a) in
    IsSlot slot
    × (verifies sim_driver example_ecc slot before ≡ true)
    × (after.cfg.active_slot ≡ slot)
    × (after.cfg.boot_attempts ≤ max_boot_attempts)
    × (after.mem ≡ (boot_config_save sim_driver after.cfg before.mem).1)
boot_verified_example =
    boot_verified sim_driver example_ecc sim_driver-IsFlash quiet_block (flash_at slot_a) loads_a
      (omega (arith, boots_a))

boot_recovery_iff_example : ((boot sim_driver example_ecc quiet_block (flash_at slot_a)).0 ≡ 0) ↔ (
    (verifies sim_driver example_ecc slot_a
        (start sim_driver example_ecc quiet_block (flash_at slot_a))
      ≡ false)
    × (verifies sim_driver example_ecc slot_b
          (start sim_driver example_ecc quiet_block (flash_at slot_a))
        ≡ false))
boot_recovery_iff_example =
    boot_recovery_iff sim_driver example_ecc sim_driver-IsFlash quiet_block (flash_at slot_a)
      loads_a

boot_persists_example :
    let (slot, after) = boot sim_driver example_ecc quiet_block (flash_at slot_a) in
    let (valid, cfg) = boot_config_load sim_driver example_ecc after.mem in
    (valid ≡ true)
    × (cfg ≡ boot_config_stamp_crc after.cfg)
    × (cfg.active_slot ≡ slot)
    × IsSlot cfg.active_slot
    × (cfg.boot_attempts ≤ max_boot_attempts)
boot_persists_example =
    boot_persists example_ecc quiet_block (flash_at slot_a) loads_a (omega (arith, boots_a))
