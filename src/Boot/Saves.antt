-- ===== src/Boot/Saves.antt =====
-- The boot state machine of bootloader/src/main.c writes the flash only by saving the configuration.
use secure_boot_loader_with.Base.{
  ℕ, zero, suc, ◌≡◌, inl, inr, refl, ap, ◌∙◌, sym, subst, true, ◌==◌, not, leb, Bool-cases, ==_iff,
}
use secure_boot_loader_with.MemoryMap.{memory_map_slot_addr, memory_map_other_slot}
use secure_boot_loader_with.SharedMemory.{SharedBootBlock}
use secure_boot_loader_with.Flash.{FlashDriver, IsFlash}
use secure_boot_loader_with.Crypto.{Ecc, crypto_verify_firmware}
use secure_boot_loader_with.BootConfig.{BootConfig}
use secure_boot_loader_with.BootConfig.Store.{boot_config_load, boot_config_save}
use secure_boot_loader_with.Boot.{
  BootState, max_boot_attempts, save_or_warn, save_if_dirty, check_app_confirmation, confirm_swap,
  commit_swap, process_ota_pending_swap, pick_loop, pick_slot_to_boot, start, boot,
}
use secure_boot_loader_with.Boot.Swap.{acceptable, swap_decides}

module _ (D : FlashDriver) (E : Ecc) where
  pick_saves :
      (n : ℕ) (st : BootState D)
      → ((pick_loop D E n st).1.mem ≡ st.mem) × ((pick_loop D E n st).1.shared ≡ st.shared)
  unfolding pick_loop
  pick_saves zero st = (refl, refl)
  pick_saves (suc n) st =
      let other : ℕ = memory_map_other_slot st.cfg.active_slot in
      let switched : BootState D = record st {
        cfg = record (st.cfg) { active_slot = other; boot_attempts = 0 };
        cfg_dirty = true;
      } in
      elim (Bool-cases
        (crypto_verify_firmware D E (memory_map_slot_addr st.cfg.active_slot) st.mem)) [
          | inl v ↦ elim (Bool-cases (leb max_boot_attempts st.cfg.boot_attempts)) [
            | inl many ↦ rw (v, many) (pick_saves n switched)
            | inr few ↦ rw (v, few) (refl, refl)
          ]
          | inr v ↦
              elim (Bool-cases (crypto_verify_firmware D E (memory_map_slot_addr other) st.mem)) [
                | inl w ↦ rw (v, w) (refl, refl)
                | inr w ↦ rw (v, w) (refl, refl)
              ]
        ]

module _ (D : FlashDriver) (E : Ecc) (F : IsFlash D) (Kept : D.Mem → Type 0)
    (save : (cfg : BootConfig) (m : D.Mem) → Kept m → Kept (boot_config_save D cfg m).1) where
  dirty_saves : (st : BootState D) → Kept st.mem → Kept (save_if_dirty D st).mem
  unfolding save_if_dirty save_or_warn
  dirty_saves st k = elim (Bool-cases st.cfg_dirty) [
    | inl d ↦ rw d (save st.cfg st.mem k)
    | inr d ↦ rw d k
  ]

  swap_saves : (st : BootState D) → Kept st.mem → Kept (process_ota_pending_swap D E st).mem
  unfolding commit_swap confirm_swap save_or_warn
  swap_saves st k = elim (Bool-cases (st.shared.ota_pending == 0)) [
    | inl idle ↦ rw (swap_decides D E F st, idle) k
    | inr pending ↦ elim (Bool-cases (acceptable D E st)) [
      | inr a ↦ rw (swap_decides D E F st, pending, a) k
      | inl a ↦
          rw (swap_decides D E F st, pending, a)
            (confirm_saves st.cfg.active_slot _ (save _ st.mem k))
    ]
  ]
    where
      confirm_saves : (old : ℕ) (s : BootState D) → Kept s.mem → Kept (confirm_swap D E old s).mem
      confirm_saves old s k =
          elim (Bool-cases
            (crypto_verify_firmware D E (memory_map_slot_addr s.cfg.active_slot) s.mem)) [
              | inl v ↦ rw v k
              | inr v ↦ rw v (save _ s.mem k)
            ]

  -- What every save keeps, a boot keeps.
  pub boot_saves_only :
      (shared : SharedBootBlock) (m : D.Mem)
      → Kept (D.flash_init m)
      → Kept (boot D E shared m).1.mem
  unfolding boot start pick_slot_to_boot save_or_warn check_app_confirmation
  boot_saves_only shared m k =
      let st0 : BootState D = record {
        cfg = (boot_config_load D E (D.flash_init m)).1;
        cfg_dirty = not (boot_config_load D E (D.flash_init m)).0;
        shared = shared;
        mem = D.flash_init m;
      } in
      let k1 = dirty_saves (check_app_confirmation D st0) k in
      let k2 = dirty_saves _ (swap_saves (save_if_dirty D (check_app_confirmation D st0)) k1) in
      let picked = subst Kept (sym (pick_saves D E 4 (start D E shared m)).0) k2 in
      elim (Bool-cases (pick_slot_to_boot D E (start D E shared m)).1.cfg_dirty) [
        | inl d ↦ rw d (save _ _ picked)
        | inr d ↦ rw d picked
      ]

module _ (D : FlashDriver) (E : Ecc) (F : IsFlash D) where
  dirty_shares : (st : BootState D) → (save_if_dirty D st).shared ≡ st.shared
  unfolding save_if_dirty save_or_warn
  dirty_shares st = elim (Bool-cases st.cfg_dirty) [ inl d ↦ rw d refl | inr d ↦ rw d refl ]

  confirm_shares : (old : ℕ) (s : BootState D) → (confirm_swap D E old s).shared ≡ s.shared
  unfolding confirm_swap save_or_warn
  confirm_shares old s =
      elim (Bool-cases
        (crypto_verify_firmware D E (memory_map_slot_addr s.cfg.active_slot) s.mem)) [
          | inl v ↦ rw v refl
          | inr v ↦ rw v refl
        ]

  swap_quiet : (st : BootState D) → (process_ota_pending_swap D E st).shared.ota_pending ≡ 0
  unfolding commit_swap save_or_warn
  swap_quiet st = elim (Bool-cases (st.shared.ota_pending == 0)) [
    | inl idle ↦ rw (swap_decides D E F st, idle) ((==_iff st.shared.ota_pending 0).0 idle)
    | inr pending ↦ elim (Bool-cases (acceptable D E st)) [
      | inr a ↦ rw (swap_decides D E F st, pending, a) refl
      | inl a ↦
          rw (swap_decides D E F st, pending, a)
            (ap (λ (b : SharedBootBlock). b.ota_pending) (confirm_shares st.cfg.active_slot _))
    ]
  ]

  -- A pending swap is never left for the next boot, whatever became of it.
  pub boot_quiet :
      (shared : SharedBootBlock) (m : D.Mem) → (boot D E shared m).1.shared.ota_pending ≡ 0
  unfolding boot start pick_slot_to_boot save_or_warn
  boot_quiet shared m =
      let st1 : BootState D = save_if_dirty D (
        check_app_confirmation D (record {
          cfg = (boot_config_load D E (D.flash_init m)).1;
          cfg_dirty = not (boot_config_load D E (D.flash_init m)).0;
          shared = shared;
          mem = D.flash_init m;
        })) in
      let picked =
        ap (λ (b : SharedBootBlock). b.ota_pending)
          ((pick_saves D E 4 (start D E shared m)).1
            ∙ dirty_shares (process_ota_pending_swap D E st1))
        ∙ swap_quiet st1 in
      elim (Bool-cases (pick_slot_to_boot D E (start D E shared m)).1.cfg_dirty) [
        | inl d ↦ rw d picked
        | inr d ↦ rw d picked
      ]
