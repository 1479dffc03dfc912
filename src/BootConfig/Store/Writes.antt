-- ===== src/BootConfig/Store/Writes.antt =====
-- A save of bootloader/src/boot_config.c writes the flash by an erase and two programming calls.
use secure_boot_loader_with.Base.{ℕ, List, Bool, true, false}
use secure_boot_loader_with.Flash.{FlashDriver}
use secure_boot_loader_with.BootConfig.{BootConfig}
use secure_boot_loader_with.BootConfig.Store.{save_readback, save_crc, save_body, boot_config_save}

module _ (D : FlashDriver) (Kept : D.Mem → Type 0)
    (erase : (a n : ℕ) (m : D.Mem) → Kept m → Kept (D.flash_erase_range a n m).1)
    (bytes : (a : ℕ) (bs : List ℕ) (m : D.Mem) → Kept m → Kept (D.flash_program_bytes a bs m).1)
    (word : (a w : ℕ) (m : D.Mem) → Kept m → Kept (D.flash_program_word a w m).1) where
  crc_writes : (buf : BootConfig) (b : Bool) (m : D.Mem) → Kept m → Kept (save_crc D buf b m).1
  unfolding save_crc
  crc_writes buf false m k = k
  crc_writes buf true m k = last _ (word _ _ m k)
    where
      last : (b : Bool) {t : D.Mem} → Kept t → Kept (save_readback D buf b t).1
      last false k = unfold save_readback in k
      last true k = unfold save_readback in k

  body_writes : (buf : BootConfig) (b : Bool) (m : D.Mem) → Kept m → Kept (save_body D buf b m).1
  unfolding save_body
  body_writes buf false m k = k
  body_writes buf true m k = crc_writes buf _ _ (bytes _ _ m k)

  -- What the driver's writes keep, a save keeps.
  pub save_writes_only : (cfg : BootConfig) (m : D.Mem) → Kept m → Kept (boot_config_save D cfg m).1
  unfolding boot_config_save
  save_writes_only cfg m k = body_writes _ _ _ (erase _ _ m k)
