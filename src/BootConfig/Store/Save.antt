-- ===== src/BootConfig/Store/Save.antt =====
-- What a save leaves behind: the record, and the rest of the flash.
use secure_boot_loader_with.Base.{
  ℕ, ◌+◌, ◌<◌, ◌≤◌, ◌≡◌, ◌⊎◌, inl, inr, refl, ap, ◌∙◌, List, [], ◌∷◌, Bool, true, false, arith,
  replicate, Bool-cases,
}
use mathlib.Core.Path.{ap₂}
use secure_boot_loader_with.MemoryMap.{
  boot_config_addr, boot_config_magic, slot_a_addr, firmware_header_size,
}
use secure_boot_loader_with.Flash.{FlashDriver, IsFlash, ok, is_ok_lem}
use secure_boot_loader_with.Crypto.Verify.{verify_firmware_iff, header_region, header_at}
use secure_boot_loader_with.Flash.Sectors.{flash_sector_start}
use secure_boot_loader_with.Flash.Bytes.{bytes_from-replicate}
use secure_boot_loader_with.FirmwareFormat.{header_of}
use secure_boot_loader_with.Crypto.{Ecc, crypto_verify_firmware}
use secure_boot_loader_with.BootConfig.{BootConfig, IsRecord, body, bytes_of, boot_config_stamp_crc}
use secure_boot_loader_with.BootConfig.Bytes.{
  of_bytes-bytes_of, stamp_crc-IsRecord, stamp_crc-validate,
}
use secure_boot_loader_with.BootConfig.Store.{
  same_bytes, save_readback, save_crc, save_body, boot_config_save, boot_config_load,
}

same_bytes-eq : (xs ys : List ℕ) → same_bytes xs ys ≡ true → xs ≡ ys
unfolding same_bytes
same_bytes-eq [] [] h = refl
same_bytes-eq [] (y ∷ ys) h = cc
same_bytes-eq (x ∷ xs) [] h = cc
same_bytes-eq (x ∷ xs) (y ∷ ys) h = ap₂ ◌∷◌ (ground arith) (same_bytes-eq xs ys (ground arith))

module _ (D : FlashDriver) where
  abbrev stored : D.Mem → List ℕ
  stored m = (D.flash_read boot_config_addr 24 m).1

  readback_ok :
      (buf : BootConfig) (b : Bool) (m : D.Mem)
      → (save_readback D buf b m).0 ≡ true
      → stored (save_readback D buf b m).1 ≡ bytes_of buf
  unfolding save_readback
  readback_ok buf false m h = cc
  readback_ok buf true m h = same_bytes-eq (stored m) (bytes_of buf) h

  crc_ok :
      (buf : BootConfig) (b : Bool) (m : D.Mem)
      → (save_crc D buf b m).0 ≡ true
      → stored (save_crc D buf b m).1 ≡ bytes_of buf
  unfolding save_crc
  crc_ok buf false m h = cc
  crc_ok buf true m h = readback_ok buf _ _ h

  body_ok :
      (buf : BootConfig) (b : Bool) (m : D.Mem)
      → (save_body D buf b m).0 ≡ true
      → stored (save_body D buf b m).1 ≡ bytes_of buf
  unfolding save_body
  body_ok buf false m h = cc
  body_ok buf true m h = crc_ok buf _ _ h

  -- A save that reports success has read its record back.
  saved_bytes :
      (cfg : BootConfig) (m : D.Mem)
      → (boot_config_save D cfg m).0 ≡ true
      → stored (boot_config_save D cfg m).1 ≡ bytes_of (boot_config_stamp_crc cfg)
  unfolding boot_config_save
  saved_bytes cfg m h = body_ok (boot_config_stamp_crc cfg) _ _ h

  module _ (E : Ecc) where
    -- A successful save of a configuration with the right magic is found by the next load, with its
    -- checksum stamped.
    pub load-save :
        (cfg : BootConfig) (m : D.Mem)
        → IsRecord cfg
        → cfg.magic ≡ boot_config_magic
        → (boot_config_save D cfg m).0 ≡ true
        → boot_config_load D E (boot_config_save D cfg m).1 ≡ (true, boot_config_stamp_crc cfg)
    unfolding boot_config_load
    load-save cfg m r g h = rw (
      saved_bytes cfg m h,
      stamp_crc-validate cfg r g,
      of_bytes-bytes_of (boot_config_stamp_crc cfg) (stamp_crc-IsRecord cfg r),
    )

  module _ (F : IsFlash D) (x : ℕ) where
    readback-keeps : (buf : BootConfig) (b : Bool) (m : D.Mem) → (save_readback D buf b m).1 ≡ m
    unfolding save_readback
    readback-keeps buf false m = refl
    readback-keeps buf true m = refl

    crc-keeps :
        (buf : BootConfig) (b : Bool) (m : D.Mem)
        → (x < boot_config_addr) ⊎ (boot_config_addr + 24 ≤ x)
        → D.byte_at (save_crc D buf b m).1 x ≡ D.byte_at m x
    unfolding save_crc
    crc-keeps buf false m o = refl
    crc-keeps buf true m o =
        ap (λ (t : D.Mem). D.byte_at t x) (readback-keeps buf _ _)
        ∙ F.program_word-outside (boot_config_addr + 20) buf.crc32 m x (omega arith) (ground arith)

    body-keeps :
        (buf : BootConfig) (b : Bool) (m : D.Mem)
        → (x < boot_config_addr) ⊎ (boot_config_addr + 24 ≤ x)
        → D.byte_at (save_body D buf b m).1 x ≡ D.byte_at m x
    unfolding save_body
    body-keeps buf false m o = refl
    body-keeps buf true m o =
        crc-keeps buf _ _ o
        ∙ F.program_bytes-outside boot_config_addr (body buf) m x (omega arith) (ground arith)

    -- Whatever becomes of a save, nothing outside the 64 KB sector of the configuration changes.
    pub save-outside :
        (cfg : BootConfig) (m : D.Mem)
        → (x < 0x0801_0000) ⊎ (0x0802_0000 ≤ x)
        → D.byte_at (boot_config_save D cfg m).1 x ≡ D.byte_at m x
    unfolding boot_config_save
    save-outside cfg m o =
        body-keeps (boot_config_stamp_crc cfg) _ _ (ground arith)
        ∙ F.erase_range-outside boot_config_addr 24 m x (omega arith)
            (unfold flash_sector_start in ground arith)

    body-needs_erase :
        (buf : BootConfig) (b : Bool) (m : D.Mem) → (save_body D buf b m).0 ≡ true → b ≡ true
    unfolding save_body
    body-needs_erase buf false m h = cc
    body-needs_erase buf true m h = refl

    -- A successful save leaves the rest of that sector erased, and slot A begins in that sector.
    pub save-erases :
        (cfg : BootConfig) (m : D.Mem)
        → (boot_config_save D cfg m).0 ≡ true
        → slot_a_addr ≤ x
        → x < slot_a_addr + firmware_header_size
        → D.byte_at (boot_config_save D cfg m).1 x ≡ 0xFF
    unfolding boot_config_save
    save-erases cfg m h lo hi =
        body-keeps (boot_config_stamp_crc cfg) _ _ (inr (omega arith))
        ∙ F.erase_range-inside boot_config_addr 24 m x (omega arith) (omega arith) erased
            (unfold flash_sector_start in omega arith) (unfold flash_sector_start in ground arith)
            (omega arith) (inr (inl (omega arith, omega (arith, F.span-ge))))
      where
        erased : (D.flash_erase_range boot_config_addr 24 m).0 ≡ ok
        erased = is_ok_lem _ (body-needs_erase (boot_config_stamp_crc cfg) _ _ h)

  -- After a successful save slot A no longer verifies, whatever image it held: the save erases the
  -- whole 64 KB sector that the configuration and the head of slot A share.
  pub save_destroys_slot_a :
      (E : Ecc) (cfg : BootConfig) (m : D.Mem)
      → IsFlash D
      → (boot_config_save D cfg m).0 ≡ true
      → crypto_verify_firmware D E slot_a_addr (boot_config_save D cfg m).1 ≡ false
  save_destroys_slot_a E cfg m F h =
      elim (Bool-cases (crypto_verify_firmware D E slot_a_addr after)) [
        | inr e ↦ e
        | inl e ↦ absurd (
            omega (
              arith,
              magic_erased,
              ((verify_firmware_iff D E F slot_a_addr after (omega arith)).0 e).magic,
            ))
      ]
    where
      after : D.Mem
      after = (boot_config_save D cfg m).1

      region : header_region D E slot_a_addr after ≡ replicate 512 0xFF
      region =
          bytes_from-replicate (D.byte_at after) slot_a_addr 512 0xFF (omega arith)
            (λ x p q. save-erases F x cfg m h p q)

      magic_erased : (header_at D E slot_a_addr after).magic ≡ 0xFFFF_FFFF
      magic_erased = ap (λ (t : List ℕ). (header_of t).magic) region ∙ unfold header_of in refl
