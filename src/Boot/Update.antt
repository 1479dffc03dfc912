-- ===== src/Boot/Update.antt =====
-- An update from end to end: a session of bootloader/src/ota_client.c, and the boot of
-- bootloader/src/main.c that follows its reset.
use secure_boot_loader_with.Base.{
  ℕ, ◌≡◌, inl, inr, refl, ap, ◌∙◌, sym, subst, arith, some, Bool, true, false, ◌&&◌, Bool-cases,
}
use secure_boot_loader_with.MemoryMap.{
  slot_a, slot_b, slot_b_addr, memory_map_slot_addr, memory_map_other_slot,
}
use secure_boot_loader_with.SharedMemory.{SharedBootBlock}
use secure_boot_loader_with.Flash.{FlashDriver, IsFlash}
use secure_boot_loader_with.Crypto.{Ecc, crypto_verify_firmware}
use secure_boot_loader_with.Crypto.Verify.{IsGenuine, header_at, verify_firmware_iff}
use secure_boot_loader_with.Crypto.Local.{verify-local}
use secure_boot_loader_with.BootConfig.{BootConfig, boot_config_firmware_allowed}
use secure_boot_loader_with.BootConfig.Store.{boot_config_load}
use secure_boot_loader_with.DeltaPatch.Apply.{PatchLib}
use secure_boot_loader_with.OtaClient.{Input}
use secure_boot_loader_with.OtaClient.Receive.{Device, system_reset, pending, ota_client_receive}
use secure_boot_loader_with.OtaClient.Receive.Contained.{load_local}
use secure_boot_loader_with.OtaClient.Receive.Installs.{receive_installs}
use secure_boot_loader_with.OtaClient.Receive.Confined.{receive_confined}
use secure_boot_loader_with.Boot.{
  BootState, save_or_warn, save_if_dirty, check_app_confirmation, process_ota_pending_swap, start,
  boot, pick_slot_to_boot,
}
use secure_boot_loader_with.Boot.Pick.{verifies, pick_active}
use secure_boot_loader_with.Boot.Run.{boot_b_verified}
use secure_boot_loader_with.Flash.Bytes.{bytes_from-eq}
use secure_boot_loader_with.FirmwareFormat.{header_of}
use secure_boot_loader_with.MemoryMap.{firmware_header_size}
use secure_boot_loader_with.Boot.Swap.{save_keeps_b, acceptable, swapped_cfg}
use secure_boot_loader_with.Boot.Swap.Ends.{swap_into_b}

module _ (D : FlashDriver) (E : Ecc) (F : IsFlash D) where
  -- The state in which the boot after a session looks at the pending swap.
  abbrev pub after_reset : BootConfig → SharedBootBlock → D.Mem → BootState D
  after_reset cfg shared m = record {
    cfg = cfg;
    cfg_dirty = false;
    shared = pending shared;
    mem = m;
  }

  -- The start of a boot on a valid record, with a swap pending and nothing confirmed.
  first_steps :
      (shared : SharedBootBlock) (m : D.Mem)
      → (boot_config_load D E (D.flash_init m)).0 ≡ true
      → start D E (pending shared) m
        ≡ save_if_dirty D (
            process_ota_pending_swap D E
              (after_reset (boot_config_load D E (D.flash_init m)).1 shared (D.flash_init m)))
  unfolding start save_if_dirty check_app_confirmation
  first_steps shared m valid = rw valid refl

  save_keeps :
      (st : BootState D)
      → ((save_if_dirty D st).cfg ≡ st.cfg)
        × (verifies D E slot_b (save_if_dirty D st) ≡ verifies D E slot_b st)
  unfolding save_if_dirty save_or_warn memory_map_slot_addr
  save_keeps st = elim (Bool-cases st.cfg_dirty) [
    | inl d ↦ rw d (refl, save_keeps_b D E F st.cfg st.mem)
    | inr d ↦ rw d (refl, refl)
  ]

  -- An image in slot B that may be installed is what the boot starts.
  pending_boots_b :
      (shared : SharedBootBlock) (m : D.Mem)
      → (boot_config_load D E (D.flash_init m)).0 ≡ true
      → (boot_config_load D E (D.flash_init m)).1.active_slot ≡ slot_a
      → crypto_verify_firmware D E slot_b_addr (D.flash_init m) ≡ true
      → boot_config_firmware_allowed
          (boot_config_load D E (D.flash_init m)).1
          (header_at D E slot_b_addr (D.flash_init m)).version
        ≡ true
      → (boot D E (pending shared) m).0 ≡ slot_b
  unfolding boot memory_map_slot_addr memory_map_other_slot
  pending_boots_b shared m valid in_a verified allowed =
      ap (λ (t : BootState D). (pick_slot_to_boot D E t).0) (first_steps shared m valid)
      ∙ ap (λ (t : ℕ × BootState D). t.0)
          (pick_active D E (save_if_dirty D swapped) (inr active)
            (ap (λ (s : ℕ). verifies D E s (save_if_dirty D swapped)) active ∙ kept.1 ∙ into_b.2)
            (rw (kept.0, into_b.0) (omega arith)))
      ∙ active
    where
      before : BootState D
      before = after_reset (boot_config_load D E (D.flash_init m)).1 shared (D.flash_init m)

      at_b : memory_map_slot_addr (memory_map_other_slot before.cfg.active_slot) ≡ slot_b_addr
      at_b = ap (λ (t : ℕ). memory_map_slot_addr (memory_map_other_slot t)) in_a

      acceptable_b : acceptable D E before ≡ true
      acceptable_b =
          subst
            (λ (a : ℕ).
              (crypto_verify_firmware D E a before.mem
                && boot_config_firmware_allowed before.cfg (header_at D E a before.mem).version)
              ≡ true)
            (sym at_b) (rw (verified, allowed) refl)

      swapped : BootState D
      swapped = process_ota_pending_swap D E before

      into_b :
          (swapped.cfg ≡ swapped_cfg D E before)
          × (swapped.cfg.active_slot ≡ slot_b)
          × (verifies D E slot_b swapped ≡ true)
          × (swapped.shared.ota_pending ≡ 0)
      into_b = swap_into_b D E F before in_a (omega arith) acceptable_b

      kept :
          ((save_if_dirty D swapped).cfg ≡ swapped.cfg)
          × (verifies D E slot_b (save_if_dirty D swapped) ≡ verifies D E slot_b swapped)
      kept = save_keeps swapped

      active : (save_if_dirty D swapped).cfg.active_slot ≡ slot_b
      active = ap (λ (c : BootConfig). c.active_slot) kept.0 ∙ into_b.1

  module _ (P : PatchLib) (m0 : D.Mem) (valid : (boot_config_load D E m0).0 ≡ true)
      (in_a : (boot_config_load D E m0).1.active_slot ≡ slot_a) where
    -- A session with slot A active that ends with a reset installs its image: if the flash is kept
    -- over the reset, the next boot swaps and starts slot B, where a genuine image still stands when
    -- the bootloader jumps.
    pub update_boots_b :
        (input : Input) (shared : SharedBootBlock) (st : Device D) (rest : Input)
        → ota_client_receive D E P input shared m0 ≡ some (system_reset, st, rest)
        → ((x : ℕ) → D.byte_at (D.flash_init st.client.mem) x ≡ D.byte_at st.client.mem x)
        → ((boot D E st.shared st.client.mem).0 ≡ slot_b)
          × IsGenuine D E slot_b_addr (boot D E st.shared st.client.mem).1.mem
    unfolding memory_map_slot_addr
    update_boots_b input shared st rest h kept =
        let m : D.Mem = st.client.mem in
        let m1 : D.Mem = D.flash_init m in
        let load : boot_config_load D E m1 ≡ boot_config_load D E m0 =
          load_local D E F m0 m1 valid (λ x o.
            kept x
            ∙ (receive_confined D E P F m0 valid in_a input shared system_reset st rest h).same x
                o) in
        let named : (boot_config_load D E m1).1.active_slot ≡ slot_a =
          ap (λ (t : Bool × BootConfig). t.1.active_slot) load ∙ in_a in
        let headers : header_at D E slot_b_addr m1 ≡ header_at D E slot_b_addr m = ap header_of (
          bytes_from-eq (D.byte_at m1) (D.byte_at m) slot_b_addr firmware_header_size (omega arith)
            (λ x p q. kept x)) in
        elim (receive_installs D E P F m0 valid in_a shared input system_reset st rest h) [
          | inr (e, _) ↦ absurd cc
          | inl (e, asks, genuine, allowed) ↦
              let first : (boot D E (pending shared) m).0 ≡ slot_b =
                pending_boots_b shared m (ap (λ (t : Bool × BootConfig). t.0) load ∙ valid) named
                  (verify-local D E F slot_b_addr (omega arith) m1 m (λ x p q. kept x)
                    ∙ (verify_firmware_iff D E F slot_b_addr m (omega arith)).1 genuine)
                  (rw (load, headers) allowed) in
              rw asks (
                first,
                (verify_firmware_iff D E F slot_b_addr (boot D E (pending shared) m).1.mem
                      (omega arith)).0
                    (boot_b_verified D E F (pending shared) m (inl named) first),
              )
        ]
