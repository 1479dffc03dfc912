-- ===== src/Boot/Run.antt =====
-- `main` of bootloader/src/main.c from reset to the jump.
use secure_boot_loader_with.Base.{
  ℕ, ◌+◌, ◌≤◌, ◌≡◌, ◌≢◌, ◌↔◌, ap, ◌∙◌, sym, true, false, arith, ◌==◌, if◌then◌else◌, Bool-cases,
  inl, inr, not,
}
use secure_boot_loader_with.MemoryMap.{
  slot_a, slot_b, slot_a_addr, slot_b_addr, memory_map_slot_addr, firmware_header_size,
}
use secure_boot_loader_with.MemoryMap.Layout.{IsSlot}
use secure_boot_loader_with.SharedMemory.{SharedBootBlock}
use secure_boot_loader_with.Flash.{FlashDriver, IsFlash}
use secure_boot_loader_with.Crypto.{Ecc, crypto_verify_firmware}
use secure_boot_loader_with.BootConfig.Store.{boot_config_load, boot_config_save}
use secure_boot_loader_with.BootConfig.Store.Save.{save_destroys_slot_a}
use secure_boot_loader_with.Boot.{
  BootState, jump, recovery, save_or_warn, save_if_dirty, check_app_confirmation, bus_word,
  bootloader_jump_to_application, pick_slot_to_boot, start, boot, main, max_boot_attempts,
}
use secure_boot_loader_with.Boot.Pick.{
  verifies, pick_verified, pick_recovery_iff, pick-keeps, picked_attempts,
}
use secure_boot_loader_with.Boot.Swap.{save_keeps_b}
use secure_boot_loader_with.Boot.Swap.Ends.{swap-IsSlot}

module _ (D : FlashDriver) (E : Ecc) (F : IsFlash D) (shared : SharedBootBlock) (m : D.Mem) where
  -- The configuration that the boot loads names a slot.
  abbrev pub LoadsSlot : Type 0
  LoadsSlot = IsSlot (boot_config_load D E (D.flash_init m)).1.active_slot

  saved-IsSlot :
      (st : BootState D) → IsSlot st.cfg.active_slot → IsSlot (save_if_dirty D st).cfg.active_slot
  unfolding save_if_dirty save_or_warn
  saved-IsSlot st s = elim (Bool-cases st.cfg_dirty) [ inl d ↦ rw d s | inr d ↦ rw d s ]

  checked-IsSlot :
      (st : BootState D)
      → IsSlot st.cfg.active_slot
      → IsSlot (check_app_confirmation D st).cfg.active_slot
  unfolding check_app_confirmation
  checked-IsSlot st s = ground arith

  start-IsSlot : LoadsSlot → IsSlot (start D E shared m).cfg.active_slot
  unfolding start
  start-IsSlot s = saved-IsSlot _ (swap-IsSlot D E F _ (saved-IsSlot _ (checked-IsSlot st0 s)))
    where
      st0 : BootState D
      st0 = record {
        cfg = (boot_config_load D E (D.flash_init m)).1;
        cfg_dirty = not (boot_config_load D E (D.flash_init m)).0;
        shared = shared;
        mem = D.flash_init m;
      }

  -- A boot that picks a slot has verified it in the flash as it then was, makes it active, counts
  -- three attempts at most, and saves the configuration once more before the jump.
  pub boot_verified :
      LoadsSlot
      → (boot D E shared m).0 ≢ 0
      → let (slot, after) = boot D E shared m in
        let before = start D E shared m in
        IsSlot slot
        × (verifies D E slot before ≡ true)
        × (after.cfg.active_slot ≡ slot)
        × (after.cfg.boot_attempts ≤ max_boot_attempts)
        × (after.mem ≡ (boot_config_save D after.cfg before.mem).1)
  unfolding boot save_or_warn
  boot_verified s h =
      let before : BootState D = start D E shared m in
      let act : IsSlot before.cfg.active_slot = start-IsSlot s in
      let (picked, v, active) = pick_verified D E before act h in
      let (dirty, few) = picked_attempts D E before act h in
      let (mem, _) = pick-keeps D E before act in
      rw dirty (
        picked,
        ap
              (λ (t : D.Mem).
                crypto_verify_firmware D E (memory_map_slot_addr (pick_slot_to_boot D E before).0)
                  t)
              (sym mem)
            ∙ v,
        active,
        few,
        ap (λ (t : D.Mem). (boot_config_save D (pick_slot_to_boot D E before).1.cfg t).1) mem,
      )

  -- Slot B, when it is picked, still verifies when the bootloader jumps.
  pub boot_b_verified :
      LoadsSlot → (boot D E shared m).0 ≡ slot_b → verifies D E slot_b (boot D E shared m).1 ≡ true
  unfolding memory_map_slot_addr
  boot_b_verified s b =
      let (_, v, _, _, mem) = boot_verified s (omega (arith, b)) in
      ap (λ (t : D.Mem). crypto_verify_firmware D E slot_b_addr t) mem
      ∙ save_keeps_b D E F (boot D E shared m).1.cfg (start D E shared m).mem
      ∙ ap (λ (t : ℕ). verifies D E t (start D E shared m)) (sym b)
      ∙ v

  -- Slot A, when it is picked and the last save succeeds, does not verify any more when the
  -- bootloader jumps.
  pub boot_a_erased :
      LoadsSlot
      → (boot D E shared m).0 ≡ slot_a
      → (boot_config_save D (boot D E shared m).1.cfg (start D E shared m).mem).0 ≡ true
      → (verifies D E slot_a (start D E shared m) ≡ true)
        × (verifies D E slot_a (boot D E shared m).1 ≡ false)
  unfolding memory_map_slot_addr
  boot_a_erased s a done =
      let (_, v, _, _, mem) = boot_verified s (omega (arith, a)) in
      (
        ap (λ (t : ℕ). verifies D E t (start D E shared m)) (sym a) ∙ v,
        ap (λ (t : D.Mem). crypto_verify_firmware D E slot_a_addr t) mem
            ∙ save_destroys_slot_a D E (boot D E shared m).1.cfg (start D E shared m).mem F done,
      )

  -- If the configuration that is loaded or recovered names slot A or slot B, recovery is entered
  -- exactly when neither slot verifies after the pending swap.
  pub boot_recovery_iff :
      LoadsSlot
      → ((boot D E shared m).0 ≡ 0) ↔ (
          (verifies D E slot_a (start D E shared m) ≡ false)
          × (verifies D E slot_b (start D E shared m) ≡ false))
  unfolding boot
  boot_recovery_iff s = pick_recovery_iff D E (start D E shared m) (start-IsSlot s)

  jump_lem :
      (slot : ℕ) (mem : D.Mem)
      → let vt = memory_map_slot_addr slot + firmware_header_size in
        bootloader_jump_to_application D (memory_map_slot_addr slot) mem
        ≡ jump vt (bus_word D mem vt) (bus_word D mem (vt + 4))
  unfolding bootloader_jump_to_application memory_map_slot_addr
  jump_lem slot mem = elim (Bool-cases (slot == slot_b)) [ inl b ↦ rw b | inr o ↦ rw o ]

  -- The bootloader never halts: it enters recovery, or jumps behind the header of the slot it
  -- picked, with the stack pointer and the reset handler that the processor loads there.
  pub main_jumps :
      let (slot, after) = boot D E shared m in
      let vt = memory_map_slot_addr slot + firmware_header_size in
      main D E shared m ≡ (
        if slot == 0
            then recovery
            else jump vt (bus_word D after.mem vt) (bus_word D after.mem (vt + 4)),
        after,
      )
  unfolding main
  main_jumps = elim (Bool-cases ((boot D E shared m).0 == 0)) [
    | inl none_picked ↦ rw none_picked
    | inr picked ↦ rw (picked, jump_lem (boot D E shared m).0 (boot D E shared m).1.mem)
  ]
