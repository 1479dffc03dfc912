-- ===== src/Boot/Swap/Tests.antt =====
-- The theorems on a pending swap at a simulated flash with an image in each slot.
use secure_boot_loader_with.Base.{◌≡◌, ◌≤◌, refl, true, arith, if◌then◌else◌}
use secure_boot_loader_with.MemoryMap.{slot_a, slot_b, memory_map_slot_addr, memory_map_other_slot}
use secure_boot_loader_with.Flash.{bytes_from}
use secure_boot_loader_with.Flash.Sim.{shadow_byte, shadow_byte_ptr, load}
use secure_boot_loader_with.Flash.Sim.Driver.{sim_driver, sim_driver-IsFlash}
use secure_boot_loader_with.FirmwareFormat.{header_of}
use secure_boot_loader_with.BootConfig.{
  IsRecord, boot_config_antidowngrade_floor, boot_config_firmware_allowed,
  boot_config_record_ota_to_slot,
}
use secure_boot_loader_with.BootConfig.Store.Success.{sim_save_succeeds}
use secure_boot_loader_with.Boot.{BootState, commit_swap, process_ota_pending_swap}
use secure_boot_loader_with.Boot.Pick.{verifies}
use secure_boot_loader_with.Boot.Swap.{
  acceptable, inactive_of, offered_version, pending_cleared, swapped_cfg, swap_decides, raised,
}
use secure_boot_loader_with.Boot.Swap.Ends.{swap_into_b, swap_into_a_reverts, swap_no_downgrade}
use secure_boot_loader_with.Example.{
  example_ecc, cfg_with, pending_block, state_with, verified_a, verified_b,
}

abbrev to_b : BootState sim_driver
to_b = state_with slot_a pending_block

abbrev to_a : BootState sim_driver
to_a = state_with slot_b pending_block

acceptable_b : acceptable sim_driver example_ecc to_b ≡ true
unfolding memory_map_slot_addr memory_map_other_slot boot_config_firmware_allowed header_of
    bytes_from shadow_byte shadow_byte_ptr load
acceptable_b = rw (verified_b (cfg_with slot_a 0x2_0000 0)) refl

acceptable_a : acceptable sim_driver example_ecc to_a ≡ true
unfolding memory_map_slot_addr memory_map_other_slot boot_config_firmware_allowed header_of
    bytes_from shadow_byte shadow_byte_ptr load
acceptable_a = rw (verified_a (cfg_with slot_b 0x2_0000 0)) refl

IsRecord-b : IsRecord (cfg_with slot_a 0x2_0000 0)
IsRecord-b = omega arith

-- The record that the swap into slot A saves is well formed.
swapped-IsRecord : IsRecord (swapped_cfg sim_driver example_ecc to_a)
unfolding memory_map_slot_addr memory_map_other_slot boot_config_record_ota_to_slot header_of
    bytes_from shadow_byte shadow_byte_ptr load boot_config_antidowngrade_floor
swapped-IsRecord = omega arith

swap_decides_example : process_ota_pending_swap sim_driver example_ecc to_b ≡ (
    if acceptable sim_driver example_ecc to_b
    then commit_swap sim_driver example_ecc slot_b
        (offered_version sim_driver example_ecc to_b)
        (pending_cleared sim_driver example_ecc to_b)
    else pending_cleared sim_driver example_ecc to_b)
unfolding memory_map_other_slot
swap_decides_example = swap_decides sim_driver example_ecc sim_driver-IsFlash to_b

swap_into_a_reverts_example :
    let after = process_ota_pending_swap sim_driver example_ecc to_a in
    (after.cfg ≡ record (swapped_cfg sim_driver example_ecc to_a) { active_slot = slot_b })
    × (verifies sim_driver example_ecc slot_a to_a ≡ true)
    × (boot_config_antidowngrade_floor after.cfg
        ≡ raised sim_driver example_ecc sim_driver-IsFlash to_a)
    × (after.shared.ota_pending ≡ 0)
swap_into_a_reverts_example =
    swap_into_a_reverts sim_driver example_ecc sim_driver-IsFlash to_a refl (omega arith)
      acceptable_a
      (sim_save_succeeds (swapped_cfg sim_driver example_ecc to_a) to_a.mem swapped-IsRecord)

swap_no_downgrade_example :
    let after = process_ota_pending_swap sim_driver example_ecc to_b in
    (after.cfg.active_slot ≡ inactive_of sim_driver example_ecc to_b)
    × (verifies sim_driver example_ecc (inactive_of sim_driver example_ecc to_b) to_b ≡ true)
    × (verifies sim_driver example_ecc (inactive_of sim_driver example_ecc to_b) after ≡ true)
    × (boot_config_antidowngrade_floor to_b.cfg ≤ offered_version sim_driver example_ecc to_b)
    × (offered_version sim_driver example_ecc to_b ≤ boot_config_antidowngrade_floor after.cfg)
swap_no_downgrade_example =
    swap_no_downgrade sim_driver example_ecc sim_driver-IsFlash to_b IsRecord-b (
      omega (
        arith,
        (swap_into_b sim_driver example_ecc sim_driver-IsFlash to_b refl (omega arith)
            acceptable_b).1,
      ))
