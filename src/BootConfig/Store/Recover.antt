-- ===== src/BootConfig/Store/Recover.antt =====
-- What the recovery from the slot headers restores.
use secure_boot_loader_with.Base.{
  ℕ, ◌+◌, ◌^◌, ◌<◌, ◌≤◌, ◌≡◌, inl, inr, ap, subst, sym, Bool, true, arith,
}
use secure_boot_loader_with.MemoryMap.{
  memory_map_slot_addr, slot_a_addr, slot_b_addr, slot_size, firmware_header_size,
}
use secure_boot_loader_with.MemoryMap.Layout.{IsSlot}
use secure_boot_loader_with.Flash.{FlashDriver, IsFlash}
use secure_boot_loader_with.FirmwareFormat.{header_of}
use secure_boot_loader_with.Crypto.{Ecc, crypto_verify_firmware}
use secure_boot_loader_with.Crypto.Verify.{verify_firmware_iff, header_at}
use secure_boot_loader_with.BootConfig.{BootConfig, boot_config_antidowngrade_floor}
use secure_boot_loader_with.BootConfig.Store.{
  slot_valid, slot_version, recover_found, boot_config_recover_from_slots,
}

module _ (a b : Bool) (va vb : ℕ) (cfg : BootConfig) where
  found_floor :
      let floor = boot_config_antidowngrade_floor (recover_found a b va vb cfg) in
      (a ≡ true → va ≤ floor) × (b ≡ true → vb ≤ floor)
  unfolding recover_found boot_config_antidowngrade_floor
  found_floor = (λ p. ground arith, λ p. ground arith)

module _ (D : FlashDriver) (E : Ecc) (F : IsFlash D) (m : D.Mem) where
  pub slot_version_lem : (s : ℕ) → slot_version D E s m ≡ (header_at D E s m).version
  unfolding slot_version
  slot_version_lem s = ap (λ t. (header_of t.1).version) (F.read_lem s firmware_header_size m)

  -- The recovery trusts a slot exactly if it verifies.
  pub slot_valid_lem :
      (s : ℕ) → s + slot_size < 2 ^ 32 → slot_valid D E s m ≡ crypto_verify_firmware D E s m
  unfolding slot_valid
  slot_valid_lem s h =
      ground (arith, F.read_lem s firmware_header_size m, (verify_firmware_iff D E F s m h).0)

  -- After a recovery the floor covers the version of every slot that verifies, so that losing the
  -- configuration does not open the way to older firmware.
  pub recover_covers_slots :
      (cfg : BootConfig) (slot : ℕ)
      → IsSlot slot
      → crypto_verify_firmware D E (memory_map_slot_addr slot) m ≡ true
      → (header_at D E (memory_map_slot_addr slot) m).version
        ≤ boot_config_antidowngrade_floor (boot_config_recover_from_slots D E cfg m)
  unfolding boot_config_recover_from_slots memory_map_slot_addr
  recover_covers_slots cfg slot s v = elim s [
    | inl a ↦ subst below (sym a) covered.0 v
    | inr b ↦ subst below (sym b) covered.1 v
  ]
    where
      below : ℕ → Type 0
      below t =
          crypto_verify_firmware D E (memory_map_slot_addr t) m ≡ true
          → (header_at D E (memory_map_slot_addr t) m).version
            ≤ boot_config_antidowngrade_floor (boot_config_recover_from_slots D E cfg m)

      covered :
          let floor = boot_config_antidowngrade_floor (boot_config_recover_from_slots D E cfg m) in
          (crypto_verify_firmware D E slot_a_addr m ≡ true
            → (header_at D E slot_a_addr m).version ≤ floor)
          × (crypto_verify_firmware D E slot_b_addr m ≡ true
              → (header_at D E slot_b_addr m).version ≤ floor)
      covered =
          rw
            (
              slot_valid_lem slot_a_addr (omega arith),
              slot_valid_lem slot_b_addr (omega arith),
              slot_version_lem slot_a_addr,
              slot_version_lem slot_b_addr,
            )
            (found_floor (crypto_verify_firmware D E slot_a_addr m)
              (crypto_verify_firmware D E slot_b_addr m) (header_at D E slot_a_addr m).version
              (header_at D E slot_b_addr m).version cfg)
