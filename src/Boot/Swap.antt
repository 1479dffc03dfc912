-- ===== src/Boot/Swap.antt =====
-- `process_ota_pending_swap` of bootloader/src/main.c: when a pending swap is taken, what it leaves
-- in the configuration, and which slots it can end in.
pub mod Ends
mod Tests
use secure_boot_loader_with.Base.{
  ℕ, ◌+◌, ◌^◌, ◌≤◌, ◌<◌, ◌≡◌, ◌≢◌, ◌⊎◌, inl, inr, refl, ap, ◌∙◌, sym, subst, Bool, true, false,
  arith, ◌&&◌, ◌==◌, if◌then◌else◌, Bool-cases,
}
use secure_boot_loader_with.MemoryMap.{
  slot_a, slot_b, slot_a_addr, slot_b_addr, slot_size, firmware_magic, memory_map_slot_addr,
  memory_map_other_slot,
}
use secure_boot_loader_with.MemoryMap.Layout.{IsSlot, other-IsSlot}
use secure_boot_loader_with.SharedMemory.{SharedBootBlock}
use secure_boot_loader_with.Flash.{FlashDriver, IsFlash, is_ok}
use secure_boot_loader_with.Flash.Bytes.{bytes_from-IsBytes}
use secure_boot_loader_with.FirmwareFormat.Layout.{word_at-lt}
use secure_boot_loader_with.FirmwareFormat.{FirmwareHeader, header_of}
use secure_boot_loader_with.Crypto.{Ecc, crypto_verify_firmware}
use secure_boot_loader_with.Crypto.Verify.{header_region, header_at, verify_firmware_iff}
use secure_boot_loader_with.Crypto.Local.{verify-local}
use secure_boot_loader_with.BootConfig.{
  BootConfig, IsRecord, boot_config_antidowngrade_floor, boot_config_firmware_allowed,
  boot_config_record_ota_to_slot,
}
use secure_boot_loader_with.BootConfig.Floor.{record_ota_raises_floor}
use secure_boot_loader_with.BootConfig.Store.{boot_config_save}
use secure_boot_loader_with.BootConfig.Store.Save.{save-outside, save_destroys_slot_a}
use secure_boot_loader_with.Boot.{
  BootState, save_or_warn, confirm_swap, commit_swap, try_swap, process_ota_pending_swap,
}
use secure_boot_loader_with.Boot.Pick.{verifies}

module _ (D : FlashDriver) (E : Ecc) where
  abbrev pub inactive_of : BootState D → ℕ
  inactive_of st = memory_map_other_slot st.cfg.active_slot

  -- The version in the header of the inactive slot.
  abbrev pub offered_version : BootState D → ℕ
  offered_version st = (header_at D E (memory_map_slot_addr (inactive_of st)) st.mem).version

  -- The two conditions of a swap.
  abbrev pub acceptable : BootState D → Bool
  acceptable st =
      verifies D E (inactive_of st) st && boot_config_firmware_allowed st.cfg (offered_version st)

  abbrev pub pending_cleared : BootState D → BootState D
  pending_cleared st = record st { shared = record (st.shared) { ota_pending = 0 } }

  -- The configuration that a swap saves.
  abbrev pub swapped_cfg : BootState D → BootConfig
  swapped_cfg st =
      let recorded : BootConfig =
        boot_config_record_ota_to_slot st.cfg (inactive_of st) (offered_version st) in
      record recorded { active_slot = inactive_of st; boot_attempts = 0 }

  slot_in_range : (s : ℕ) → memory_map_slot_addr s + slot_size < 2 ^ 32
  unfolding memory_map_slot_addr
  slot_in_range s = ground arith

  module _ (F : IsFlash D) where
    verified_magic :
        (st : BootState D)
        → verifies D E (inactive_of st) st ≡ true
        → (header_at D E (memory_map_slot_addr (inactive_of st)) st.mem).magic ≡ firmware_magic
    verified_magic st v =
        ((verify_firmware_iff D E F (memory_map_slot_addr (inactive_of st)) st.mem
            (slot_in_range (inactive_of st))).0
          v).magic

    try_swap_lem :
        (st : BootState D)
        → try_swap D E st
          ≡ (if acceptable st then commit_swap D E (inactive_of st) (offered_version st) st else st)
    unfolding try_swap
    try_swap_lem st = elim (Bool-cases (verifies D E (inactive_of st) st)) [
      | inr v ↦ rw v
      | inl v ↦
          rw (v, F.read_lem (memory_map_slot_addr (inactive_of st)) 512 st.mem, verified_magic st v)
    ]

    -- A swap that is not pending does nothing. A pending one has its flag cleared, and is taken
    -- exactly when the inactive slot verifies and the floor allows its version; otherwise nothing
    -- else changes.
    pub swap_decides :
        (st : BootState D)
        → process_ota_pending_swap D E st ≡ (
            if st.shared.ota_pending == 0
            then st
            else if acceptable st
            then commit_swap D E (inactive_of st) (offered_version st) (pending_cleared st)
            else pending_cleared st)
    unfolding process_ota_pending_swap
    swap_decides st = elim (Bool-cases (st.shared.ota_pending == 0)) [
      | inl e ↦ rw e
      | inr e ↦ rw e (try_swap_lem (pending_cleared st))
    ]

    -- What a swap saves before it verifies again.
    abbrev pub saved : BootState D → BootState D
    saved st =
        save_or_warn D (record (pending_cleared st) { cfg = swapped_cfg st; cfg_dirty = true })

    -- The verdict of the second verification decides.
    pub taken_lem :
        (st : BootState D)
        → st.shared.ota_pending ≢ 0
        → acceptable st ≡ true
        → process_ota_pending_swap D E st ≡ confirm_swap D E st.cfg.active_slot (saved st)
    unfolding commit_swap
    taken_lem st p a = swap_decides st ∙ rw (not_zero, a)
      where
        not_zero : (st.shared.ota_pending == 0) ≡ false
        not_zero = ground arith

    pub save_keeps_b :
        (cfg : BootConfig) (m : D.Mem)
        → crypto_verify_firmware D E slot_b_addr (boot_config_save D cfg m).1
          ≡ crypto_verify_firmware D E slot_b_addr m
    save_keeps_b cfg m =
        verify-local D E F slot_b_addr (omega arith) _ _
          (λ x p q. save-outside D F x cfg m (inr (omega arith)))

    pub confirm_kept :
        (old : ℕ) (st : BootState D)
        → verifies D E st.cfg.active_slot st ≡ true
        → confirm_swap D E old st ≡ st
    unfolding confirm_swap
    confirm_kept old st v = rw v

    pub confirm_reverted :
        (old : ℕ) (st : BootState D)
        → verifies D E st.cfg.active_slot st ≡ false
        → confirm_swap D E old st
          ≡ save_or_warn D (record st { cfg = record (st.cfg) { active_slot = old } })
    unfolding confirm_swap
    confirm_reverted old st v = rw v

    pub offered_word : (st : BootState D) → offered_version st < 2 ^ 32
    unfolding header_of
    offered_word st =
        word_at-lt (header_region D E (memory_map_slot_addr (inactive_of st)) st.mem) 4 (
          bytes_from-IsBytes (D.byte_at st.mem) (F.byte_at-lt st.mem)
            (memory_map_slot_addr (inactive_of st)) 512)

    pub acceptable-verifies :
        (st : BootState D) → acceptable st ≡ true → verifies D E (inactive_of st) st ≡ true
    acceptable-verifies st a = ground arith

    -- The floor of the configuration that a swap saves.
    abbrev pub raised : BootState D → ℕ
    raised st = boot_config_antidowngrade_floor (swapped_cfg st)

    pub raised_lem :
        (st : BootState D)
        → IsRecord st.cfg
        → acceptable st ≡ true
        → (boot_config_antidowngrade_floor st.cfg ≤ offered_version st)
          × (boot_config_antidowngrade_floor st.cfg ≤ raised st)
          × (offered_version st ≤ raised st)
    unfolding boot_config_antidowngrade_floor boot_config_firmware_allowed
    raised_lem st r a =
        let up =
          record_ota_raises_floor st.cfg (inactive_of st) (offered_version st) r (offered_word st)
            allowed in
        (ground arith, up.0, up.1)
      where
        allowed : boot_config_firmware_allowed st.cfg (offered_version st) ≡ true
        allowed = ground arith
