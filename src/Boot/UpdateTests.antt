-- ===== src/Boot/UpdateTests.antt =====
-- An update from end to end at the example session.
use secure_boot_loader_with.Base.{◌≡◌, []}
use secure_boot_loader_with.MemoryMap.{slot_b, slot_b_addr}
use secure_boot_loader_with.Flash.Sim.Driver.{sim_driver, sim_driver-IsFlash}
use secure_boot_loader_with.Crypto.Verify.{IsGenuine}
use secure_boot_loader_with.OtaClient.Receive.Example.{example_patch_lib, flash}
use secure_boot_loader_with.OtaClient.Receive.Installable.{valid_record, in_a}
use secure_boot_loader_with.OtaClient.Receive.Installed.{
  session, at_end, session_resets, flash_kept,
}
use secure_boot_loader_with.Boot.{boot}
use secure_boot_loader_with.Boot.Update.{update_boots_b}
use secure_boot_loader_with.Example.{example_ecc, quiet_block}

update_boots_b_example :
    ((boot sim_driver example_ecc at_end.shared at_end.client.mem).0 ≡ slot_b)
    × IsGenuine sim_driver example_ecc slot_b_addr
        (boot sim_driver example_ecc at_end.shared at_end.client.mem).1.mem
update_boots_b_example =
    update_boots_b sim_driver example_ecc sim_driver-IsFlash example_patch_lib flash valid_record
      in_a session quiet_block at_end [] session_resets flash_kept
