-- ===== src/Boot/Persist.antt =====
-- What the boot state machine of bootloader/src/main.c keeps of the configuration over a reset.
use secure_boot_loader_with.Base.{
  ℕ, ◌<◌, ◌^◌, ◌≤◌, ◌≡◌, ◌≢◌, inl, inr, refl, ap, ◌∙◌, true, arith, ◌==◌, not, Bool-cases, zero,
  suc, leb,
}
use secure_boot_loader_with.MemoryMap.{memory_map_slot_addr, memory_map_other_slot}
use secure_boot_loader_with.MemoryMap.Layout.{IsSlot}
use secure_boot_loader_with.SharedMemory.{SharedBootBlock}
use secure_boot_loader_with.Flash.{FlashDriver, IsFlash}
use secure_boot_loader_with.Flash.Sim.{Shadow}
use secure_boot_loader_with.Flash.Sim.Driver.{sim_driver, sim_driver-IsFlash}
use secure_boot_loader_with.Crypto.{Ecc, crypto_verify_firmware}
use secure_boot_loader_with.BootConfig.{boot_config_stamp_crc}
use secure_boot_loader_with.BootConfig.Store.{boot_config_load, boot_config_save}
use secure_boot_loader_with.BootConfig.Store.Marked.{IsMarked, recorded-IsMarked, loaded-IsMarked}
use secure_boot_loader_with.BootConfig.Store.Save.{load-save}
use secure_boot_loader_with.BootConfig.Store.Success.{sim_save_succeeds}
use secure_boot_loader_with.Boot.{
  BootState, max_boot_attempts, save_or_warn, save_if_dirty, check_app_confirmation, confirm_swap,
  commit_swap, process_ota_pending_swap, pick_loop, pick_slot_to_boot, start, boot,
}
use secure_boot_loader_with.Boot.Swap.{
  inactive_of, offered_version, acceptable, swap_decides, offered_word,
}
use secure_boot_loader_with.Boot.Run.{LoadsSlot, boot_verified}

module _ (D : FlashDriver) (E : Ecc) (F : IsFlash D) where
  saved-IsMarked : (st : BootState D) → IsMarked st.cfg → IsMarked (save_if_dirty D st).cfg
  unfolding save_if_dirty save_or_warn
  saved-IsMarked st k = elim (Bool-cases st.cfg_dirty) [ inl d ↦ rw d k | inr d ↦ rw d k ]

  pub checked-IsMarked :
      (st : BootState D) → IsMarked st.cfg → IsMarked (check_app_confirmation D st).cfg
  unfolding check_app_confirmation
  checked-IsMarked st k = ground (arith, k.fits, k.named)

  other_byte : (s : ℕ) → memory_map_other_slot s < 2 ^ 8
  unfolding memory_map_other_slot
  other_byte s = ground arith

  confirmed-IsMarked :
      (old : ℕ) (st : BootState D)
      → old < 2 ^ 8
      → IsMarked st.cfg
      → IsMarked (confirm_swap D E old st).cfg
  unfolding confirm_swap save_or_warn
  confirmed-IsMarked old st o k =
      elim (Bool-cases
        (crypto_verify_firmware D E (memory_map_slot_addr st.cfg.active_slot) st.mem)) [
          | inl v ↦ rw v k
          | inr v ↦ rw v (ground (arith, k.fits, k.named))
        ]

  swap-IsMarked :
      (st : BootState D) → IsMarked st.cfg → IsMarked (process_ota_pending_swap D E st).cfg
  unfolding commit_swap save_or_warn
  swap-IsMarked st k = elim (Bool-cases (st.shared.ota_pending == 0)) [
    | inl idle ↦ rw (swap_decides D E F st, idle) k
    | inr pending ↦ elim (Bool-cases (acceptable D E st)) [
      | inr a ↦ rw (swap_decides D E F st, pending, a) k
      | inl a ↦
          let r =
            recorded-IsMarked st.cfg (inactive_of D E st) (offered_version D E st)
              (offered_word D E F st) k in
          rw (swap_decides D E F st, pending, a)
            (confirmed-IsMarked st.cfg.active_slot _ k.fits.active_byte
              (ground (arith, r.fits, r.named, other_byte st.cfg.active_slot)))
    ]
  ]

  pick-IsMarked : (n : ℕ) (st : BootState D) → IsMarked st.cfg → IsMarked (pick_loop D E n st).1.cfg
  unfolding pick_loop
  pick-IsMarked zero st k = k
  pick-IsMarked (suc n) st k =
      let other : ℕ = memory_map_other_slot st.cfg.active_slot in
      let byte = other_byte st.cfg.active_slot in
      let switched : BootState D = record st {
        cfg = record (st.cfg) { active_slot = other; boot_attempts = 0 };
        cfg_dirty = true;
      } in
      let moved : IsMarked switched.cfg = ground (arith, k.fits, k.named, byte) in
      let again = pick-IsMarked n switched moved in
      elim (Bool-cases
        (crypto_verify_firmware D E (memory_map_slot_addr st.cfg.active_slot) st.mem)) [
          | inl v ↦ elim (Bool-cases (leb max_boot_attempts st.cfg.boot_attempts)) [
            | inl many ↦ rw (v, many) again
            | inr few ↦ rw (v, few) (ground (arith, k.fits, k.named))
          ]
          | inr v ↦
              elim (Bool-cases (crypto_verify_firmware D E (memory_map_slot_addr other) st.mem)) [
                | inl w ↦ rw (v, w) moved
                | inr w ↦ rw (v, w) k
              ]
        ]

  -- From any flash that keeps its contract and any shared block, valid configuration or not, the
  -- configuration that a boot leaves has every field in the range of its C type, and the magic.
  pub boot-IsMarked : (shared : SharedBootBlock) (m : D.Mem) → IsMarked (boot D E shared m).1.cfg
  unfolding boot start pick_slot_to_boot save_or_warn
  boot-IsMarked shared m =
      let loaded = boot_config_load D E (D.flash_init m) in
      let st0 : BootState D = record {
        cfg = loaded.1;
        cfg_dirty = not loaded.0;
        shared = shared;
        mem = D.flash_init m;
      } in
      let k1 =
        saved-IsMarked (check_app_confirmation D st0)
          (checked-IsMarked st0 (loaded-IsMarked D E F (D.flash_init m))) in
      let k2 =
        saved-IsMarked _ (swap-IsMarked (save_if_dirty D (check_app_confirmation D st0)) k1) in
      let picked = pick-IsMarked 4 (start D E shared m) k2 in
      elim (Bool-cases (pick_slot_to_boot D E (start D E shared m)).1.cfg_dirty) [
        | inl d ↦ rw d picked
        | inr d ↦ rw d picked
      ]

  -- A boot that picks a slot and whose last save succeeds leaves the configuration in flash.
  pub boot_saved :
      (shared : SharedBootBlock) (m : D.Mem)
      → LoadsSlot D E F shared m
      → (boot D E shared m).0 ≢ 0
      → (boot_config_save D (boot D E shared m).1.cfg (start D E shared m).mem).0 ≡ true
      → let (slot, after) = boot D E shared m in
        let (valid, cfg) = boot_config_load D E after.mem in
        (valid ≡ true)
        × (cfg ≡ boot_config_stamp_crc after.cfg)
        × (cfg.active_slot ≡ slot)
        × IsSlot cfg.active_slot
        × (cfg.boot_attempts ≤ max_boot_attempts)
  unfolding boot_config_stamp_crc
  boot_saved shared m names picks saved =
      let after = (boot D E shared m).1 in
      let before = start D E shared m in
      let k = boot-IsMarked shared m in
      let (slot, _, active, few, mem) = boot_verified D E F shared m names picks in
      let found =
        ap (λ (t : D.Mem). boot_config_load D E t) mem
        ∙ load-save D E after.cfg before.mem k.fits k.named saved in
      rw found (refl, refl, active, rw active slot, few)

-- On the simulated flash, a boot whose configuration named a slot and that picks one leaves the
-- configuration in flash: the next load finds it valid, with the picked slot active and its attempts
-- counted. So the next boot's configuration names a slot again.
pub boot_persists :
    (E : Ecc) (shared : SharedBootBlock) (s : Shadow)
    → LoadsSlot sim_driver E sim_driver-IsFlash shared s
    → (boot sim_driver E shared s).0 ≢ 0
    → let (slot, after) = boot sim_driver E shared s in
      let (valid, cfg) = boot_config_load sim_driver E after.mem in
      (valid ≡ true)
      × (cfg ≡ boot_config_stamp_crc after.cfg)
      × (cfg.active_slot ≡ slot)
      × IsSlot cfg.active_slot
      × (cfg.boot_attempts ≤ max_boot_attempts)
boot_persists E shared s names picks =
    boot_saved sim_driver E sim_driver-IsFlash shared s names picks
      (sim_save_succeeds _ _ (boot-IsMarked sim_driver E sim_driver-IsFlash shared s).fits)
