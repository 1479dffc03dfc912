-- ===== src/Boot/Example.antt =====
-- A simulated flash with an image in each slot, and the boots from it.
use secure_boot_loader_with.Base.{
  ℕ, ◌≡◌, inl, inr, refl, ap, subst, ◌∙◌, sym, false, arith, if◌then◌else◌,
}
use secure_boot_loader_with.MemoryMap.{slot_a, slot_b, memory_map_slot_addr}
use secure_boot_loader_with.Crc32.{crc32}
use secure_boot_loader_with.Flash.{bytes_from}
use secure_boot_loader_with.Flash.Sim.{
  Shadow, flash_init, flash_read, shadow_aware_read, shadow_byte, shadow_byte_ptr, load,
}
use secure_boot_loader_with.Flash.Sim.Driver.{sim_driver, sim_driver-IsFlash}
use secure_boot_loader_with.BootConfig.{
  BootConfig, IsRecord, boot_config_stamp_crc, boot_config_validate,
}
use secure_boot_loader_with.BootConfig.Store.{boot_config_load}
use secure_boot_loader_with.Boot.{
  BootState, start, boot, check_app_confirmation, save_if_dirty, save_or_warn,
  process_ota_pending_swap, pick_slot_to_boot,
}
use secure_boot_loader_with.Boot.Pick.{pick_active}
use secure_boot_loader_with.Boot.Run.{LoadsSlot}
use secure_boot_loader_with.BootConfig.Store.{boot_config_load}
use secure_boot_loader_with.Example.{
  example_ecc, cfg_with, flash_with, quiet_block, state_with, verified_a, verified_b,
}

abbrev pub flash_at : ℕ → Shadow
flash_at active = flash_with (cfg_with active 0x2_0000 0)

abbrev pub started : ℕ → BootState sim_driver
started active = record {
  cfg = boot_config_stamp_crc (cfg_with active 0x2_0000 0);
  cfg_dirty = false;
  shared = quiet_block;
  mem = flash_at active;
}

abbrev pub st_a : BootState sim_driver
st_a = state_with slot_a quiet_block

pub loads_a : LoadsSlot sim_driver example_ecc sim_driver-IsFlash quiet_block (flash_at slot_a)
unfolding boot_config_load boot_config_validate flash_read shadow_aware_read bytes_from shadow_byte
    shadow_byte_ptr load boot_config_stamp_crc flash_init crc32
loads_a = inl refl

pub start_a : start sim_driver example_ecc quiet_block (flash_at slot_a) ≡ started slot_a
unfolding start save_if_dirty check_app_confirmation process_ota_pending_swap boot_config_load
    boot_config_validate flash_read shadow_aware_read bytes_from shadow_byte shadow_byte_ptr load
    boot_config_stamp_crc flash_init crc32
start_a = refl

pub boots_a : (boot sim_driver example_ecc quiet_block (flash_at slot_a)).0 ≡ slot_a
unfolding boot boot_config_stamp_crc memory_map_slot_addr
boots_a =
    ap (λ (st : BootState sim_driver). (pick_slot_to_boot sim_driver example_ecc st).0) start_a
    ∙ ap (λ (p : ℕ × BootState sim_driver). p.0)
        (pick_active sim_driver example_ecc (started slot_a) (inl refl)
          (verified_a (cfg_with slot_a 0x2_0000 0)) (omega arith))

pub loads_b : LoadsSlot sim_driver example_ecc sim_driver-IsFlash quiet_block (flash_at slot_b)
unfolding boot_config_load boot_config_validate flash_read shadow_aware_read bytes_from shadow_byte
    shadow_byte_ptr load boot_config_stamp_crc flash_init crc32
loads_b = inr refl

pub start_b : start sim_driver example_ecc quiet_block (flash_at slot_b) ≡ started slot_b
unfolding start save_if_dirty check_app_confirmation process_ota_pending_swap boot_config_load
    boot_config_validate flash_read shadow_aware_read bytes_from shadow_byte shadow_byte_ptr load
    boot_config_stamp_crc flash_init crc32
start_b = refl

pub boots_b : (boot sim_driver example_ecc quiet_block (flash_at slot_b)).0 ≡ slot_b
unfolding boot boot_config_stamp_crc memory_map_slot_addr
boots_b =
    ap (λ (st : BootState sim_driver). (pick_slot_to_boot sim_driver example_ecc st).0) start_b
    ∙ ap (λ (p : ℕ × BootState sim_driver). p.0)
        (pick_active sim_driver example_ecc (started slot_b) (inr refl)
          (verified_b (cfg_with slot_b 0x2_0000 0)) (omega arith))

pub booted_cfg :
    (boot sim_driver example_ecc quiet_block (flash_at slot_a)).1.cfg
    ≡ record (started slot_a).cfg { boot_attempts = 1 }
unfolding boot save_or_warn boot_config_stamp_crc memory_map_slot_addr
booted_cfg =
    ap (λ (st : BootState sim_driver). last_cfg (pick_slot_to_boot sim_driver example_ecc st))
      start_a
    ∙ ap last_cfg (
        pick_active sim_driver example_ecc (started slot_a) (inl refl)
          (verified_a (cfg_with slot_a 0x2_0000 0)) (omega arith))
  where
    last_cfg : ℕ × BootState sim_driver → BootConfig
    last_cfg p = (if p.1.cfg_dirty then save_or_warn sim_driver p.1 else p.1).cfg

pub booted-IsRecord : IsRecord (boot sim_driver example_ecc quiet_block (flash_at slot_a)).1.cfg
unfolding boot_config_stamp_crc crc32
booted-IsRecord = subst IsRecord (sym booted_cfg) (omega arith)
