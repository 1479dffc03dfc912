-- ===== src/Boot/Cycle.antt =====
-- One boot of bootloader/src/main.c after another: since every boot saves the configuration, and every
-- save erases the head of slot A, only slot B can be booted again.
use secure_boot_loader_with.Base.{
  ℕ, ◌≡◌, ◌≢◌, inl, inr, refl, ap, ◌∙◌, sym, subst, Bool, true, false, arith, not, if◌then◌else◌,
  Bool-cases,
}
use secure_boot_loader_with.MemoryMap.{
  slot_b, slot_a_addr, slot_b_addr, memory_map_slot_addr, memory_map_other_slot,
}
use secure_boot_loader_with.MemoryMap.Layout.{IsSlot}
use secure_boot_loader_with.SharedMemory.{SharedBootBlock}
use secure_boot_loader_with.Flash.{FlashDriver, IsFlash}
use secure_boot_loader_with.Crypto.{Ecc, crypto_verify_firmware}
use secure_boot_loader_with.Crypto.Local.{verify-local}
use secure_boot_loader_with.BootConfig.{BootConfig, IsRecord}
use secure_boot_loader_with.BootConfig.Store.{boot_config_load, boot_config_save}
use secure_boot_loader_with.BootConfig.Store.Marked.{IsMarked, loaded-IsMarked}
use secure_boot_loader_with.BootConfig.Store.Save.{save_destroys_slot_a}
use secure_boot_loader_with.OtaClient.Receive.Contained.{load_local}
use secure_boot_loader_with.Boot.{
  BootState, save_or_warn, save_if_dirty, check_app_confirmation, pick_slot_to_boot, start, boot,
}
use secure_boot_loader_with.Boot.Pick.{pick_decision, pick_slot_decides}
use secure_boot_loader_with.Boot.Swap.{swap_decides, save_keeps_b}
use secure_boot_loader_with.Boot.Run.{LoadsSlot, boot_verified, boot_b_verified}
use secure_boot_loader_with.Boot.Saves.{boot_saves_only, boot_quiet}
use secure_boot_loader_with.Boot.Persist.{checked-IsMarked, boot-IsMarked, boot_saved}

-- What the cycles assume of a flash beyond `IsFlash`: it does not refuse to save a configuration, and
-- once it has been set up, which no save undoes, setting it up again does not change its bytes.
pub record IsWorking (D : FlashDriver) : Type 1 where
  pub saves : (cfg : BootConfig) (m : D.Mem) → IsRecord cfg → (boot_config_save D cfg m).0 ≡ true
  pub IsReady : D.Mem → Type 0
  pub init-IsReady : (m : D.Mem) → IsReady (D.flash_init m)
  pub save-IsReady :
      (cfg : BootConfig) (m : D.Mem) → IsReady m → IsReady (boot_config_save D cfg m).1
  pub init_keeps : (m : D.Mem) (x : ℕ) → IsReady m → D.byte_at (D.flash_init m) x ≡ D.byte_at m x

module _ (D : FlashDriver) (E : Ecc) (F : IsFlash D) (W : IsWorking D) where
  -- The flash is set up, has a valid configuration that names a slot, and slot A does not verify.
  pub record OnlyB (m : D.Mem) : Type 0 where
    pub ready : W.IsReady m
    pub valid : (boot_config_load D E m).0 ≡ true
    pub names : IsSlot (boot_config_load D E m).1.active_slot
    pub gone : crypto_verify_firmware D E slot_a_addr m ≡ false

  init_loads :
      (m : D.Mem) → OnlyB m → boot_config_load D E (D.flash_init m) ≡ boot_config_load D E m
  init_loads m b = load_local D E F m (D.flash_init m) b.valid (λ x o. W.init_keeps m x b.ready)

  -- The state that a quiet boot starts from, before the check.
  abbrev loaded_state : SharedBootBlock → D.Mem → BootState D
  loaded_state shared m = record {
    cfg = (boot_config_load D E (D.flash_init m)).1;
    cfg_dirty = not (boot_config_load D E (D.flash_init m)).0;
    shared = shared;
    mem = D.flash_init m;
  }

  abbrev checked : SharedBootBlock → D.Mem → BootState D
  checked shared m = save_if_dirty D (check_app_confirmation D (loaded_state shared m))

  clean : (st : BootState D) → (save_if_dirty D st).cfg_dirty ≡ false
  unfolding save_if_dirty
  clean st = elim (Bool-cases st.cfg_dirty) [ inl d ↦ rw d refl | inr d ↦ rw d refl ]

  check_shared :
      (shared : SharedBootBlock) (m : D.Mem)
      → (checked shared m).shared.ota_pending ≡ shared.ota_pending
  unfolding save_if_dirty check_app_confirmation save_or_warn
  check_shared shared m = ground arith

  -- Without a pending swap, the start is the check of the confirmation and its save.
  quiet_start :
      (shared : SharedBootBlock) (m : D.Mem)
      → shared.ota_pending ≡ 0
      → start D E shared m ≡ checked shared m
  unfolding start
  quiet_start shared m quiet =
      ap (λ (t : BootState D). save_if_dirty D t)
        (swap_decides D E F (checked shared m) ∙ rw (check_shared shared m ∙ quiet) refl)
      ∙ clean_kept (checked shared m) (clean (check_app_confirmation D (loaded_state shared m)))
    where
      clean_kept : (st : BootState D) → st.cfg_dirty ≡ false → save_if_dirty D st ≡ st
      clean_kept st d = unfold save_if_dirty in rw d refl

  -- A check leaves the active slot and slot B alone, and slot A erased.
  saved_facts :
      (st : BootState D)
      → IsMarked st.cfg
      → crypto_verify_firmware D E slot_a_addr st.mem ≡ false
      → ((save_if_dirty D st).cfg ≡ st.cfg)
        × (crypto_verify_firmware D E slot_b_addr (save_if_dirty D st).mem
            ≡ crypto_verify_firmware D E slot_b_addr st.mem)
        × (crypto_verify_firmware D E slot_a_addr (save_if_dirty D st).mem ≡ false)
  unfolding save_if_dirty save_or_warn
  saved_facts st k gone = elim (Bool-cases st.cfg_dirty) [
    | inr d ↦ rw d (refl, refl, gone)
    | inl d ↦ rw d (
      refl,
      save_keeps_b D E F st.cfg st.mem,
      save_destroys_slot_a D E st.cfg st.mem F (W.saves st.cfg st.mem k.fits),
    )
  ]

  -- What a quiet boot knows when it picks a slot.
  quiet_facts :
      (shared : SharedBootBlock) (m : D.Mem)
      → OnlyB m
      → shared.ota_pending ≡ 0
      → let before = start D E shared m in
        (before.cfg.active_slot ≡ (boot_config_load D E m).1.active_slot)
        × (crypto_verify_firmware D E slot_b_addr before.mem
            ≡ crypto_verify_firmware D E slot_b_addr m)
        × (crypto_verify_firmware D E slot_a_addr before.mem ≡ false)
  quiet_facts shared m o quiet =
      let m1 : D.Mem = D.flash_init m in
      let st : BootState D = check_app_confirmation D (loaded_state shared m) in
      let same_a =
        verify-local D E F slot_a_addr (omega arith) m1 m (λ x p q. W.init_keeps m x o.ready) in
      let same_b =
        verify-local D E F slot_b_addr (omega arith) m1 m (λ x p q. W.init_keeps m x o.ready) in
      let marked = checked-IsMarked D E F (loaded_state shared m) (loaded-IsMarked D E F m1) in
      let (cfg, b, a) = saved_facts st marked (check_mem ∙ same_a ∙ o.gone) in
      rw (quiet_start shared m quiet) (
        ap (λ (c : BootConfig). c.active_slot) cfg
            ∙ check_active
            ∙ ap (λ (r : Bool × BootConfig). r.1.active_slot) (init_loads m o),
        b ∙ check_mem_b ∙ same_b,
        a,
      )
    where
      check_mem :
          crypto_verify_firmware D E slot_a_addr
            (check_app_confirmation D (loaded_state shared m)).mem
          ≡ crypto_verify_firmware D E slot_a_addr (D.flash_init m)
      check_mem = unfold check_app_confirmation in refl

      check_mem_b :
          crypto_verify_firmware D E slot_b_addr
            (check_app_confirmation D (loaded_state shared m)).mem
          ≡ crypto_verify_firmware D E slot_b_addr (D.flash_init m)
      check_mem_b = unfold check_app_confirmation in refl

      check_active :
          (check_app_confirmation D (loaded_state shared m)).cfg.active_slot
          ≡ (boot_config_load D E (D.flash_init m)).1.active_slot
      check_active = unfold check_app_confirmation in ground arith

  -- The choice when slot A does not verify.
  picks_b :
      (st : BootState D)
      → IsSlot st.cfg.active_slot
      → crypto_verify_firmware D E slot_a_addr st.mem ≡ false
      → (pick_slot_to_boot D E st).0
        ≡ (if crypto_verify_firmware D E slot_b_addr st.mem then slot_b else 0)
  picks_b st s gone = ap (λ (r : ℕ × BootState D). r.0) (pick_slot_decides D E st s).0 ∙ decided
    where
      decided :
          (pick_decision D E st).0
          ≡ (if crypto_verify_firmware D E slot_b_addr st.mem then slot_b else 0)
      decided =
          unfold pick_decision memory_map_slot_addr memory_map_other_slot in ground (arith, s, gone)

  -- Once only slot B is left, a boot without a pending swap starts it if it verifies, and enters
  -- recovery otherwise, whatever was confirmed and counted before.
  pub quiet_boot :
      (shared : SharedBootBlock) (m : D.Mem)
      → OnlyB m
      → shared.ota_pending ≡ 0
      → (boot D E shared m).0 ≡ (if crypto_verify_firmware D E slot_b_addr m then slot_b else 0)
  unfolding boot
  quiet_boot shared m o quiet =
      let (active, b, a) = quiet_facts shared m o quiet in
      picks_b (start D E shared m) (subst IsSlot (sym active) o.names) a
      ∙ ap (λ (v : Bool). if v then slot_b else 0) b

  -- Every boot that picks a slot leaves only slot B.
  pub boot-OnlyB :
      (shared : SharedBootBlock) (m : D.Mem)
      → LoadsSlot D E F shared m
      → (boot D E shared m).0 ≢ 0
      → OnlyB (boot D E shared m).1.mem
  boot-OnlyB shared m names picks =
      let after = (boot D E shared m).1 in
      let before = start D E shared m in
      let saved = W.saves after.cfg before.mem (boot-IsMarked D E F shared m).fits in
      let (valid, cfg, _, slot, _) = boot_saved D E F shared m names picks saved in
      let (_, _, _, _, mem) = boot_verified D E F shared m names picks in
      record {
        ready = boot_saves_only D E F W.IsReady W.save-IsReady shared m (W.init-IsReady m);
        valid = valid;
        names = slot;
        gone =
            ap (λ (t : D.Mem). crypto_verify_firmware D E slot_a_addr t) mem
            ∙ save_destroys_slot_a D E after.cfg before.mem F saved;
      }

  -- On a flash that saves every configuration and keeps its bytes when it is set up again, a boot
  -- whose loaded or recovered configuration names slot A or slot B, and that jumps into either, is
  -- the last one that can start slot A: if no swap is pending after it, the next boot starts slot B
  -- if that verifies, and enters recovery otherwise, whether the application has confirmed or not.
  pub next_boot_b_or_recovery :
      (shared next : SharedBootBlock) (m : D.Mem)
      → LoadsSlot D E F shared m
      → (boot D E shared m).0 ≢ 0
      → next.ota_pending ≡ 0
      → let after = (boot D E shared m).1.mem in
        (boot D E next after).0
        ≡ (if crypto_verify_firmware D E slot_b_addr after then slot_b else 0)
  next_boot_b_or_recovery shared next m names picks quiet =
      quiet_boot next (boot D E shared m).1.mem (boot-OnlyB shared m names picks) quiet

  -- A boot of slot B keeps it, and asks for no swap.
  pub boot_b_keeps :
      (shared : SharedBootBlock) (m : D.Mem)
      → OnlyB m
      → crypto_verify_firmware D E slot_b_addr m ≡ true
      → shared.ota_pending ≡ 0
      → let (slot, after) = boot D E shared m in
        (slot ≡ slot_b)
        × OnlyB after.mem
        × (crypto_verify_firmware D E slot_b_addr after.mem ≡ true)
        × (after.shared.ota_pending ≡ 0)
  boot_b_keeps shared m o v quiet =
      let first : (boot D E shared m).0 ≡ slot_b = quiet_boot shared m o quiet ∙ rw v refl in
      let names : LoadsSlot D E F shared m =
        subst (λ (r : Bool × BootConfig). IsSlot r.1.active_slot) (sym (init_loads m o)) o.names in
      (
        first,
        boot-OnlyB shared m names (omega (arith, first)),
        unfold memory_map_slot_addr in boot_b_verified D E F shared m names first,
        boot_quiet D E F shared m,
      )
