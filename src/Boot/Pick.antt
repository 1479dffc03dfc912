-- ===== src/Boot/Pick.antt =====
-- `pick_slot_to_boot` of bootloader/src/main.c: which slot is chosen, and that four rounds are enough.
use secure_boot_loader_with.Base.{
  ℕ, suc, ◌+◌, ◌≤◌, ◌<◌, ◌≡◌, ◌≢◌, ◌↔◌, inl, inr, ap, subst, ◌∙◌, sym, Bool, true, false, arith, u8,
  leb, if◌then◌else◌, Bool-cases,
}
use secure_boot_loader_with.MemoryMap.{slot_a, slot_b, memory_map_slot_addr, memory_map_other_slot}
use secure_boot_loader_with.MemoryMap.Layout.{IsSlot, other_slot_twice, other-IsSlot}
use secure_boot_loader_with.Flash.{FlashDriver}
use secure_boot_loader_with.Crypto.{Ecc, crypto_verify_firmware}
use secure_boot_loader_with.Boot.{BootState, pick_loop, pick_slot_to_boot, max_boot_attempts}

module _ (D : FlashDriver) (E : Ecc) where
  abbrev pub verifies : ℕ → BootState D → Bool
  verifies slot st = crypto_verify_firmware D E (memory_map_slot_addr slot) st.mem

  -- The state when `slot` is chosen with that count of attempts.
  abbrev pub chosen : ℕ → ℕ → BootState D → BootState D
  chosen slot attempts st = record st {
    cfg = record (st.cfg) { active_slot = slot; boot_attempts = attempts };
    cfg_dirty = true;
  }

  -- What the loop decides, without a loop.
  unfoldable pub pick_decision : BootState D → ℕ × BootState D
  pick_decision st =
      let active : ℕ = st.cfg.active_slot in
      let other : ℕ = memory_map_other_slot active in
      let attempts : ℕ = st.cfg.boot_attempts in
      if verifies active st
      then if leb max_boot_attempts attempts
        then if verifies other st then (other, chosen other 1 st) else (active, chosen active 0 st)
        else (active, chosen active (attempts + 1) st)
      else if verifies other st
      then (other, chosen other 0 st)
      else (0, st)

  abbrev other_of : BootState D → ℕ
  other_of st = memory_map_other_slot st.cfg.active_slot

  pick_rounds :
      (n : ℕ) (st : BootState D)
      → IsSlot st.cfg.active_slot
      → pick_loop D E (suc (suc n)) st ≡ pick_decision st
  unfolding pick_loop pick_decision
  pick_rounds n st s = elim (Bool-cases (verifies st.cfg.active_slot st)) [
    | inr va ↦ rw (va)
    | inl va ↦ elim (Bool-cases (leb max_boot_attempts st.cfg.boot_attempts)) [
      | inr few ↦ rw (va, few, few_attempts few)
      | inl many ↦ elim (Bool-cases (verifies (other_of st) st)) [
        | inl vo ↦ rw (va, vo, many)
        | inr vo ↦ rw (va, vo, many, back, va)
      ]
    ]
  ]
    where
      back : memory_map_other_slot (other_of st) ≡ st.cfg.active_slot
      back = (other_slot_twice st.cfg.active_slot s).0

      few_attempts :
          leb max_boot_attempts st.cfg.boot_attempts ≡ false
          → u8 (st.cfg.boot_attempts + 1) ≡ st.cfg.boot_attempts + 1
      few_attempts few = ground arith

  -- From a slot letter in the configuration, the loop decides what `pick_decision` says, in four
  -- rounds or in any number of rounds from two on: its bound is never what ends it.
  pub pick_slot_decides :
      (st : BootState D)
      → IsSlot st.cfg.active_slot
      → (pick_slot_to_boot D E st ≡ pick_decision st)
        × ((n : ℕ) → pick_loop D E (n + 2) st ≡ pick_decision st)
  unfolding pick_slot_to_boot
  pick_slot_decides st s = (
    pick_rounds 2 st s,
    λ n. ap (λ (t : ℕ). pick_loop D E t st) {y = suc (suc n)} (omega arith) ∙ pick_rounds n st s,
  )

  -- A slot that is picked is a slot letter, has a firmware that verifies, and is the active slot of
  -- the configuration that is left.
  pub pick_verified :
      (st : BootState D)
      → IsSlot st.cfg.active_slot
      → (pick_slot_to_boot D E st).0 ≢ 0
      → let (slot, after) = pick_slot_to_boot D E st in
        IsSlot slot × (verifies slot after ≡ true) × (after.cfg.active_slot ≡ slot)
  unfolding pick_decision
  pick_verified st s h =
      subst goal (sym (pick_slot_decides st s).0)
        (decided (subst (λ (t : ℕ × BootState D). t.0 ≢ 0) (pick_slot_decides st s).0 h))
    where
      goal : ℕ × BootState D → Type 0
      goal p = IsSlot p.0 × (verifies p.0 p.1 ≡ true) × (p.1.cfg.active_slot ≡ p.0)

      decided : (pick_decision st).0 ≢ 0 → goal (pick_decision st)
      decided h = ground (arith, other-IsSlot st.cfg.active_slot)

  decision_recovery_iff :
      (st : BootState D)
      → IsSlot st.cfg.active_slot
      → ((pick_decision st).0 ≡ 0)
        ↔ ((verifies st.cfg.active_slot st ≡ false) × (verifies (other_of st) st ≡ false))
  unfolding pick_decision
  decision_recovery_iff st s = (
    λ h. (
      ground (arith, other-IsSlot st.cfg.active_slot),
      ground (arith, other-IsSlot st.cfg.active_slot),
    ),
    λ (a, b). ground arith,
  )

  -- Recovery is entered exactly when neither slot verifies.
  pub pick_recovery_iff :
      (st : BootState D)
      → IsSlot st.cfg.active_slot
      → ((pick_slot_to_boot D E st).0 ≡ 0)
        ↔ ((verifies slot_a st ≡ false) × (verifies slot_b st ≡ false))
  unfolding memory_map_other_slot
  pick_recovery_iff st s = rw ((pick_slot_decides st s).0) (elim s [
    | inl a ↦ at slot_a a
    | inr b ↦ (λ e. swapped ((at slot_b b).0 e), λ p. (at slot_b b).1 (swapped p))
  ])
    where
      at :
          (x : ℕ)
          → st.cfg.active_slot ≡ x
          → ((pick_decision st).0 ≡ 0)
            ↔ ((verifies x st ≡ false) × (verifies (memory_map_other_slot x) st ≡ false))
      at x e =
          subst
            (λ (t : ℕ).
              ((pick_decision st).0 ≡ 0)
              ↔ ((verifies t st ≡ false) × (verifies (memory_map_other_slot t) st ≡ false)))
            e (decision_recovery_iff st s)

      swapped : {P Q : Type 0} → P × Q → Q × P
      swapped (p, q) = (q, p)

  -- Picking a slot does not touch the flash or the shared block.
  pub pick-keeps :
      (st : BootState D)
      → IsSlot st.cfg.active_slot
      → ((pick_slot_to_boot D E st).1.mem ≡ st.mem)
        × ((pick_slot_to_boot D E st).1.shared ≡ st.shared)
  pick-keeps st s =
      subst (λ (t : ℕ × BootState D). (t.1.mem ≡ st.mem) × (t.1.shared ≡ st.shared))
        (sym (pick_slot_decides st s).0) (unfold pick_decision in ground arith)

  -- An active slot that verifies is booted while it has attempts left.
  pub pick_active :
      (st : BootState D)
      → IsSlot st.cfg.active_slot
      → verifies st.cfg.active_slot st ≡ true
      → st.cfg.boot_attempts < max_boot_attempts
      → pick_slot_to_boot D E st
        ≡ (st.cfg.active_slot, chosen st.cfg.active_slot (st.cfg.boot_attempts + 1) st)
  unfolding pick_decision
  pick_active st s v few = (pick_slot_decides st s).0 ∙ rw (v, few_left)
    where
      few_left : leb max_boot_attempts st.cfg.boot_attempts ≡ false
      few_left = ground arith

  -- With none left, the other slot is booted if it verifies.
  pub pick_other :
      (st : BootState D)
      → IsSlot st.cfg.active_slot
      → verifies st.cfg.active_slot st ≡ true
      → max_boot_attempts ≤ st.cfg.boot_attempts
      → verifies (memory_map_other_slot st.cfg.active_slot) st ≡ true
      → pick_slot_to_boot D E st ≡ (
        memory_map_other_slot st.cfg.active_slot,
        chosen (memory_map_other_slot st.cfg.active_slot) 1 st,
      )
  unfolding pick_decision
  pick_other st s v many w = (pick_slot_decides st s).0 ∙ rw (v, none_left, w)
    where
      none_left : leb max_boot_attempts st.cfg.boot_attempts ≡ true
      none_left = ground arith

  -- A slot that is picked makes the configuration dirty, and its attempts are three at most.
  pub picked_attempts :
      (st : BootState D)
      → IsSlot st.cfg.active_slot
      → (pick_slot_to_boot D E st).0 ≢ 0
      → let after = (pick_slot_to_boot D E st).1 in
        (after.cfg_dirty ≡ true) × (after.cfg.boot_attempts ≤ max_boot_attempts)
  unfolding pick_decision
  picked_attempts st s h =
      subst goal (sym (pick_slot_decides st s).0)
        (decided (subst (λ (t : ℕ × BootState D). t.0 ≢ 0) (pick_slot_decides st s).0 h))
    where
      goal : ℕ × BootState D → Type 0
      goal p = (p.1.cfg_dirty ≡ true) × (p.1.cfg.boot_attempts ≤ max_boot_attempts)

      decided : (pick_decision st).0 ≢ 0 → goal (pick_decision st)
      decided h = ground (arith, other-IsSlot st.cfg.active_slot)
