-- ===== src/BootConfig/Store/Success.antt =====
-- When `boot_config_save` succeeds: the flash reports no error.
use secure_boot_loader_with.Flash.Sim.Program.{program_loop-succeeds}
use secure_boot_loader_with.Base.{
  ℕ, ◌+◌, ◌≡◌, inl, refl, ◌∙◌, List, [], ◌∷◌, ◌++◌, true, arith, ==_iff, le32,
}
use mathlib.Core.Path.{ap₂}
use secure_boot_loader_with.MemoryMap.{boot_config_addr}
use secure_boot_loader_with.Flash.{FlashDriver, IsFlash, ok, bytes_from}
use secure_boot_loader_with.Flash.Bytes.{bytes_from-add, bytes_from-eq}
use secure_boot_loader_with.Flash.Sim.{
  Shadow, shadow_byte_ptr, flash_program_bytes, flash_program_word, all_shadowed, flash_erase_range,
  erase_sectors, unless_failed, flash_erase_sector,
}
use secure_boot_loader_with.Flash.Sectors.{
  sector_index_for_addr, flash_sector_start, flash_sector_size,
}
use secure_boot_loader_with.Flash.Sim.Driver.{sim_driver, sim_driver-IsFlash}
use secure_boot_loader_with.BootConfig.{BootConfig, IsRecord, body, bytes_of, boot_config_stamp_crc}
use secure_boot_loader_with.BootConfig.Bytes.{body-IsBytes, stamp_crc-IsRecord}
use secure_boot_loader_with.BootConfig.Store.{
  same_bytes, save_readback, save_crc, save_body, boot_config_save,
}

same_bytes_self : (xs : List ℕ) → same_bytes xs xs ≡ true
unfolding same_bytes
same_bytes_self [] = refl
same_bytes_self (x ∷ xs) = rw ((==_iff x x).1 refl) (same_bytes_self xs)

module _ (D : FlashDriver) (F : IsFlash D) where
  -- The record stands on flash once its body and its checksum are programmed.
  pub record_stored :
      (buf : BootConfig) (n : D.Mem)
      → IsRecord buf
      → (D.flash_program_bytes boot_config_addr (body buf) n).0 ≡ ok
      → let n' = (D.flash_program_bytes boot_config_addr (body buf) n).1 in
        (D.flash_program_word (boot_config_addr + 20) buf.crc32 n').0 ≡ ok
        → bytes_from
            (D.byte_at (D.flash_program_word (boot_config_addr + 20) buf.crc32 n').1)
            boot_config_addr
            24
          ≡ bytes_of buf
  record_stored buf n r p w =
      bytes_from-add (D.byte_at after) boot_config_addr 20 4 24 refl
      ∙ ap₂ ◌++◌
          (bytes_from-eq (D.byte_at after) (D.byte_at n') boot_config_addr 20 (omega arith)
              (λ x lo hi.
                F.program_word-outside (boot_config_addr + 20) buf.crc32 n' x (omega arith)
                  (inl (omega arith)))
            ∙ F.program_bytes-ok boot_config_addr (body buf) n (omega arith) p (body-IsBytes buf r))
          (F.program_word-ok (boot_config_addr + 20) buf.crc32 n' (omega arith) w)
    where
      n' : D.Mem
      n' = (D.flash_program_bytes boot_config_addr (body buf) n).1

      after : D.Mem
      after = (D.flash_program_word (boot_config_addr + 20) buf.crc32 n').1

  -- A save succeeds if the erase and the two program calls report no error, whatever was on the
  -- flash: its read-back then finds the record.
  pub save_succeeds :
      (cfg : BootConfig) (m : D.Mem)
      → IsRecord cfg
      → (D.flash_erase_range boot_config_addr 24 m).0 ≡ ok
      → ((n : D.Mem)
          → (D.flash_program_bytes boot_config_addr (body (boot_config_stamp_crc cfg)) n).0 ≡ ok)
      → ((n : D.Mem)
          → (D.flash_program_word (boot_config_addr + 20) (boot_config_stamp_crc cfg).crc32 n).0
            ≡ ok)
      → (boot_config_save D cfg m).0 ≡ true
  unfolding boot_config_save save_body save_crc save_readback
  save_succeeds cfg m r e p w =
      rw
        (
          e,
          p (D.flash_erase_range boot_config_addr 24 m).1,
          w
              (D.flash_program_bytes boot_config_addr (body buf)
                (D.flash_erase_range boot_config_addr 24 m).1).1,
          F.read_lem boot_config_addr 24
              (D.flash_program_word (boot_config_addr + 20) buf.crc32
                (D.flash_program_bytes boot_config_addr (body buf)
                  (D.flash_erase_range boot_config_addr 24 m).1).1).1,
          record_stored buf (D.flash_erase_range boot_config_addr 24 m).1 (stamp_crc-IsRecord cfg r)
              (p _) (w _),
        )
        (same_bytes_self (bytes_of buf))
    where
      buf : BootConfig
      buf = boot_config_stamp_crc cfg

pub erase_succeeds : (s : Shadow) → (flash_erase_range boot_config_addr 24 s).0 ≡ ok
unfolding flash_erase_range erase_sectors unless_failed flash_erase_sector sector_index_for_addr
    flash_sector_start flash_sector_size
erase_succeeds s = refl

-- On the simulated flash every save succeeds.
pub sim_save_succeeds :
    (cfg : BootConfig) (s : Shadow) → IsRecord cfg → (boot_config_save sim_driver cfg s).0 ≡ true
unfolding flash_program_bytes flash_program_word all_shadowed shadow_byte_ptr
sim_save_succeeds cfg s r =
    save_succeeds sim_driver sim_driver-IsFlash cfg s r (erase_succeeds s)
      (λ n.
        program_loop-succeeds boot_config_addr (body buf) n (omega arith)
          (λ x lo hi. inl (omega arith)) (body-IsBytes buf (stamp_crc-IsRecord cfg r)))
      (λ n.
        program_loop-succeeds (boot_config_addr + 20) (le32 buf.crc32) n (omega arith)
          (λ x lo hi. inl (omega arith)) (omega arith))
  where
    buf : BootConfig
    buf = boot_config_stamp_crc cfg
