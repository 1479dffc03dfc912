-- ===== src/Boot/Swap/Ends.antt =====
-- How a pending swap ends: in slot B, reverted from slot A, and never below the floor.
use secure_boot_loader_with.Base.{
  ℕ, ◌≤◌, ◌≡◌, ◌≢◌, ◌⊎◌, inl, inr, refl, ap, ◌∙◌, sym, subst, true, false, arith, ◌==◌, Bool-cases,
}
use secure_boot_loader_with.MemoryMap.{slot_a, slot_b, memory_map_slot_addr, memory_map_other_slot}
use secure_boot_loader_with.MemoryMap.Layout.{IsSlot, other-IsSlot}
use secure_boot_loader_with.Flash.{FlashDriver, IsFlash}
use secure_boot_loader_with.Crypto.{Ecc}
use secure_boot_loader_with.BootConfig.{BootConfig, IsRecord, boot_config_antidowngrade_floor}
use secure_boot_loader_with.BootConfig.Store.{boot_config_save}
use secure_boot_loader_with.BootConfig.Store.Save.{save_destroys_slot_a}
use secure_boot_loader_with.Boot.{BootState, save_or_warn, process_ota_pending_swap}
use secure_boot_loader_with.Boot.Pick.{verifies}
use secure_boot_loader_with.Boot.Swap.{
  inactive_of, offered_version, acceptable, swapped_cfg, swap_decides, saved, taken_lem,
  save_keeps_b, confirm_kept, confirm_reverted, raised, raised_lem, acceptable-verifies,
}

module _ (D : FlashDriver) (E : Ecc) (F : IsFlash D) where
  -- A version that the floor allows is swapped in, if the slot lies outside the sector of the
  -- configuration: slot B becomes active, and still verifies after the save.
  pub swap_into_b :
      (st : BootState D)
      → st.cfg.active_slot ≡ slot_a
      → st.shared.ota_pending ≢ 0
      → acceptable D E st ≡ true
      → let after = process_ota_pending_swap D E st in
        (after.cfg ≡ swapped_cfg D E st)
        × (after.cfg.active_slot ≡ slot_b)
        × (verifies D E slot_b after ≡ true)
        × (after.shared.ota_pending ≡ 0)
  unfolding save_or_warn memory_map_slot_addr
  swap_into_b st act p a =
      subst
        (λ (t : BootState D).
          (t.cfg ≡ swapped_cfg D E st)
          × (t.cfg.active_slot ≡ slot_b)
          × (verifies D E slot_b t ≡ true)
          × (t.shared.ota_pending ≡ 0))
        (sym (taken_lem D E F st p a ∙ confirm_kept D E F _ (saved D E F st) still))
        (refl, to_b, in_b, refl)
    where
      to_b : inactive_of D E st ≡ slot_b
      to_b = ap memory_map_other_slot act ∙ unfold memory_map_other_slot in refl

      in_b : verifies D E slot_b (saved D E F st) ≡ true
      in_b =
          save_keeps_b D E F (swapped_cfg D E st) st.mem
          ∙ ap (λ (s : ℕ). verifies D E s st) (sym to_b)
          ∙ acceptable-verifies D E F st a

      still : verifies D E (inactive_of D E st) (saved D E F st) ≡ true
      still = ap (λ (s : ℕ). verifies D E s (saved D E F st)) to_b ∙ in_b

  -- A swap into slot A is always undone if its first save succeeds, because that save erases the
  -- header of slot A: slot B stays active, but the version of the image that is gone and the
  -- raised rollback counter stay recorded.
  pub swap_into_a_reverts :
      (st : BootState D)
      → st.cfg.active_slot ≡ slot_b
      → st.shared.ota_pending ≢ 0
      → acceptable D E st ≡ true
      → (boot_config_save D (swapped_cfg D E st) st.mem).0 ≡ true
      → let after = process_ota_pending_swap D E st in
        (after.cfg ≡ record (swapped_cfg D E st) { active_slot = slot_b })
        × (verifies D E slot_a st ≡ true)
        × (boot_config_antidowngrade_floor after.cfg ≡ raised D E F st)
        × (after.shared.ota_pending ≡ 0)
  unfolding save_or_warn boot_config_antidowngrade_floor memory_map_slot_addr
  swap_into_a_reverts st act p a done =
      subst
        (λ (t : BootState D).
          (t.cfg ≡ record (swapped_cfg D E st) { active_slot = slot_b })
          × (verifies D E slot_a st ≡ true)
          × (boot_config_antidowngrade_floor t.cfg ≡ raised D E F st)
          × (t.shared.ota_pending ≡ 0))
        (sym (
          taken_lem D E F st p a ∙ confirm_reverted D E F st.cfg.active_slot (saved D E F st) gone))
        (
          ap (λ (s : ℕ). record (swapped_cfg D E st) { active_slot = s }) act,
          ap (λ (s : ℕ). verifies D E s st) (sym to_a) ∙ acceptable-verifies D E F st a,
          refl,
          refl,
        )
    where
      to_a : inactive_of D E st ≡ slot_a
      to_a = ap memory_map_other_slot act ∙ unfold memory_map_other_slot in refl

      gone : verifies D E (inactive_of D E st) (saved D E F st) ≡ false
      gone =
          ap (λ (s : ℕ). verifies D E s (saved D E F st)) to_a
          ∙ save_destroys_slot_a D E (swapped_cfg D E st) st.mem F done

  -- How a swap that is taken ends.
  taken_cases :
      (st : BootState D)
      → st.shared.ota_pending ≢ 0
      → acceptable D E st ≡ true
      → let after = process_ota_pending_swap D E st in
        (boot_config_antidowngrade_floor after.cfg ≡ raised D E F st)
        × ((after.cfg.active_slot ≡ st.cfg.active_slot)
            ⊎ ((after.cfg.active_slot ≡ inactive_of D E st)
                × (verifies D E (inactive_of D E st) after ≡ true)))
  unfolding save_or_warn boot_config_antidowngrade_floor
  taken_cases st p a = elim (Bool-cases (verifies D E (inactive_of D E st) (saved D E F st))) [
    | inl v ↦
        rw (taken_lem D E F st p a, confirm_kept D E F st.cfg.active_slot (saved D E F st) v)
          (refl, inr (refl, v))
    | inr v ↦
        rw (taken_lem D E F st p a, confirm_reverted D E F st.cfg.active_slot (saved D E F st) v)
          (refl, inl refl)
  ]

  -- A swap leaves the configuration alone, or is taken.
  settled :
      (st : BootState D)
      → let after = process_ota_pending_swap D E st in
        (after.cfg ≡ st.cfg)
        ⊎ ((acceptable D E st ≡ true)
            × (boot_config_antidowngrade_floor after.cfg ≡ raised D E F st)
            × ((after.cfg.active_slot ≡ st.cfg.active_slot)
                ⊎ ((after.cfg.active_slot ≡ inactive_of D E st)
                    × (verifies D E (inactive_of D E st) after ≡ true))))
  settled st = elim (Bool-cases (st.shared.ota_pending == 0)) [
    | inl none_pending ↦ inl (rw (swap_decides D E F st, none_pending))
    | inr pending ↦ elim (Bool-cases (acceptable D E st)) [
      | inl a ↦ let (floor, ends) = taken_cases st (ground arith) a in inr (a, floor, ends)
      | inr a ↦ inl (rw (swap_decides D E F st, pending, a))
    ]
  ]

  -- Whatever happens to a swap, the floor is not lowered.
  pub swap_keeps_floor :
      (st : BootState D)
      → IsRecord st.cfg
      → boot_config_antidowngrade_floor st.cfg
        ≤ boot_config_antidowngrade_floor (process_ota_pending_swap D E st).cfg
  swap_keeps_floor st r = elim (settled st) [
    | inl cfg ↦ rw cfg (omega arith)
    | inr (a, floor, _) ↦ rw floor (raised_lem D E F st r a).1
  ]

  -- If a swap changes the active slot, the new one verified before it and verifies after it, and
  -- its version is between the floor before and the floor after.
  pub swap_no_downgrade :
      (st : BootState D)
      → IsRecord st.cfg
      → (process_ota_pending_swap D E st).cfg.active_slot ≢ st.cfg.active_slot
      → let after = process_ota_pending_swap D E st in
        (after.cfg.active_slot ≡ inactive_of D E st)
        × (verifies D E (inactive_of D E st) st ≡ true)
        × (verifies D E (inactive_of D E st) after ≡ true)
        × (boot_config_antidowngrade_floor st.cfg ≤ offered_version D E st)
        × (offered_version D E st ≤ boot_config_antidowngrade_floor after.cfg)
  swap_no_downgrade st r moved = elim (settled st) [
    | inl cfg ↦ absurd (moved (ap (λ (c : BootConfig). c.active_slot) cfg))
    | inr (a, floor, inl same) ↦ absurd (moved same)
    | inr (a, floor, inr (act, v)) ↦ (
      act,
      acceptable-verifies D E F st a,
      v,
      (raised_lem D E F st r a).0,
      rw floor (raised_lem D E F st r a).2,
    )
  ]

  -- A swap leaves the active slot one of the two.
  pub swap-IsSlot :
      (st : BootState D)
      → IsSlot st.cfg.active_slot
      → IsSlot (process_ota_pending_swap D E st).cfg.active_slot
  swap-IsSlot st s = elim (settled st) [
    | inl cfg ↦ rw cfg s
    | inr (a, floor, inl same) ↦ rw same s
    | inr (a, floor, inr (act, v)) ↦ rw act (other-IsSlot st.cfg.active_slot)
  ]
