-- ===== src/Boot.antt =====
-- bootloader/src/main.c: the boot state machine. The log is write-only and left out.
pub mod Pick
pub mod Swap
pub mod Run
pub mod Persist
pub mod Saves
pub mod Cycle
pub mod Working
pub mod Example
pub mod System
pub mod Update
mod UpdateTests
mod Tests
use secure_boot_loader_with.Base.{
  ℕ, zero, suc, ◌+◌, ◌≡◌, Bool, true, false, not, ◌&&◌, leb, ◌==◌, if◌then◌else◌, u8, u32, of_le32,
  low_bits, List, [], ◌∷◌,
}
use secure_boot_loader_with.MemoryMap.{
  memory_map_slot_addr, memory_map_other_slot, firmware_header_size, firmware_magic,
  shared_block_magic,
}
use secure_boot_loader_with.SharedMemory.{SharedBootBlock}
use secure_boot_loader_with.Flash.{FlashDriver, is_ok}
use secure_boot_loader_with.FirmwareFormat.{FirmwareHeader, header_of}
use secure_boot_loader_with.Crypto.{Ecc, crypto_verify_firmware}
use secure_boot_loader_with.BootConfig.{
  BootConfig, boot_config_firmware_allowed, boot_config_record_ota_to_slot,
}
use secure_boot_loader_with.BootConfig.Store.{boot_config_load, boot_config_save}

abbrev pub max_swap_retries : ℕ
max_swap_retries = 4

abbrev pub max_boot_attempts : ℕ
max_boot_attempts = 3

-- `cfg` and `cfg_dirty` of `main`, the shared block, and the flash.
pub record BootState (D : FlashDriver) : Type 0 where
  pub cfg : BootConfig
  pub cfg_dirty : Bool
  pub shared : SharedBootBlock
  pub mem : D.Mem

-- How a boot ends. `jump` has the values of VTOR, MSP and the program counter.
pub data Outcome : Type 0 where
  jump : ℕ → ℕ → ℕ → Outcome
  halted : Outcome
  recovery : Outcome

module _ (D : FlashDriver) where
  -- The result of the save is only logged.
  unfoldable pub save_or_warn : BootState D → BootState D
  save_or_warn st = record st { mem = (boot_config_save D st.cfg st.mem).1 }

  -- `if (cfg_dirty) { save_or_warn(&cfg, …); cfg_dirty = false; }`
  unfoldable pub save_if_dirty : BootState D → BootState D
  save_if_dirty st = if st.cfg_dirty then record (save_or_warn st) { cfg_dirty = false } else st

  unfoldable pub check_app_confirmation : BootState D → BootState D
  check_app_confirmation st =
      let cfg : BootConfig = st.cfg in
      let confirmed : Bool =
        st.shared.magic == shared_block_magic && not (st.shared.boot_confirmed == 0) in
      record st {
        cfg =
            if confirmed
            then record cfg { boot_attempts = 0; last_good_boot = u32 (cfg.last_good_boot + 1) }
            else cfg;
        cfg_dirty = if confirmed then true else st.cfg_dirty;
        shared = record (st.shared) { boot_confirmed = 0; magic = shared_block_magic };
      }

  -- A load by the processor, as `*(volatile uint32_t *)addr`.
  unfoldable pub bus_word : D.Mem → ℕ → ℕ
  bus_word m addr =
      of_le32 (D.bus_at m addr) (D.bus_at m (u32 (addr + 1))) (D.bus_at m (u32 (addr + 2)))
        (D.bus_at m (u32 (addr + 3)))

  unfoldable pub bootloader_jump_to_application : ℕ → D.Mem → Outcome
  bootloader_jump_to_application slot_addr m =
      let app_vt : ℕ = u32 (slot_addr + firmware_header_size) in
      if low_bits app_vt 9 == 0
      then jump app_vt (bus_word m app_vt) (bus_word m (u32 (app_vt + 4)))
      else halted

module _ (D : FlashDriver) (E : Ecc) where
  -- What follows the commit of a swap: verify again, and revert if that fails.
  pub confirm_swap : ℕ → BootState D → BootState D
  confirm_swap old_active st =
      if crypto_verify_firmware D E (memory_map_slot_addr st.cfg.active_slot) st.mem
      then st
      else save_or_warn D (record st { cfg = record (st.cfg) { active_slot = old_active } })

  -- What follows the checks: record the image, make its slot active, and save.
  pub commit_swap : ℕ → ℕ → BootState D → BootState D
  commit_swap inactive version st =
      let recorded : BootConfig = boot_config_record_ota_to_slot st.cfg inactive version in
      confirm_swap st.cfg.active_slot (
        save_or_warn D (record st {
          cfg = record recorded { active_slot = inactive; boot_attempts = 0 };
          cfg_dirty = true;
        }))

  -- What follows the clearing of the flag.
  pub try_swap : BootState D → BootState D
  try_swap st =
      let inactive : ℕ = memory_map_other_slot st.cfg.active_slot in
      let inactive_addr : ℕ = memory_map_slot_addr inactive in
      let (status, bytes) = D.flash_read inactive_addr firmware_header_size st.mem in
      let hdr : FirmwareHeader = header_of bytes in
      if crypto_verify_firmware D E inactive_addr st.mem
      then if is_ok status && hdr.magic == firmware_magic
        then if boot_config_firmware_allowed st.cfg hdr.version
          then commit_swap inactive hdr.version st
          else st
        else st
      else st

  unfoldable pub process_ota_pending_swap : BootState D → BootState D
  process_ota_pending_swap st =
      if st.shared.ota_pending == 0
      then st
      else try_swap (record st { shared = record (st.shared) { ota_pending = 0 } })

  -- The `for` loop of `pick_slot_to_boot`, by the rounds left. The slot is 0 for recovery.
  pub pick_loop : ℕ → BootState D → ℕ × BootState D
  pick_loop zero st = (0, st)
  pick_loop (suc n) st =
      let cfg : BootConfig = st.cfg in
      let other : ℕ = memory_map_other_slot cfg.active_slot in
      let switched : BootState D = record st {
        cfg = record cfg { active_slot = other; boot_attempts = 0 };
        cfg_dirty = true;
      } in
      let again : ℕ × BootState D = pick_loop n switched in
      if crypto_verify_firmware D E (memory_map_slot_addr cfg.active_slot) st.mem
      then if leb max_boot_attempts cfg.boot_attempts then again else (
        cfg.active_slot,
        record st {
          cfg = record cfg { boot_attempts = u8 (cfg.boot_attempts + 1) };
          cfg_dirty = true;
        },
      )
      else if crypto_verify_firmware D E (memory_map_slot_addr other) st.mem
      then (other, switched)
      else (0, st)

  unfoldable pub pick_slot_to_boot : BootState D → ℕ × BootState D
  pick_slot_to_boot st = pick_loop max_swap_retries st

  -- `main` up to the choice of the slot.
  unfoldable pub start : SharedBootBlock → D.Mem → BootState D
  start shared m =
      let mem : D.Mem = D.flash_init m in
      let (loaded, cfg) = boot_config_load D E mem in
      let st0 : BootState D = record {
        cfg = cfg;
        cfg_dirty = not loaded;
        shared = shared;
        mem = mem;
      } in
      let st1 : BootState D = save_if_dirty D (check_app_confirmation D st0) in
      save_if_dirty D (process_ota_pending_swap st1)

  -- `main` up to its last call: the slot that was picked, and the state that is left.
  unfoldable pub boot : SharedBootBlock → D.Mem → ℕ × BootState D
  boot shared m =
      let (slot, st) = pick_slot_to_boot (start shared m) in
      (slot, if st.cfg_dirty then save_or_warn D st else st)

  unfoldable pub main : SharedBootBlock → D.Mem → Outcome × BootState D
  main shared m =
      let (slot, st) = boot shared m in
      if slot == 0
      then (recovery, st)
      else (bootloader_jump_to_application D (memory_map_slot_addr slot) st.mem, st)
