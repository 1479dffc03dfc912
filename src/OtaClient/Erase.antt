-- ===== src/OtaClient/Erase.antt =====
-- What a START for slot A erases besides the slot: `handle_start` of bootloader/src/ota_client.c.
use secure_boot_loader_with.Base.{
  ℕ, ◌+◌, ◌≤◌, ◌<◌, ◌≡◌, inl, refl, ap, ◌∙◌, arith, true, false, replicate,
}
use secure_boot_loader_with.MemoryMap.{
  slot_b, slot_a_addr, boot_config_addr, memory_map_slot_addr, memory_map_other_slot,
}
use secure_boot_loader_with.Flash.{FlashDriver, IsFlash, ok, is_ok_lem}
use secure_boot_loader_with.Flash.Bytes.{bytes_from-replicate}
use secure_boot_loader_with.Flash.Sectors.{flash_sector_start, sector_index_for_addr}
use secure_boot_loader_with.Crypto.{Ecc}
use secure_boot_loader_with.BootConfig.{boot_config_validate, of_bytes}
use secure_boot_loader_with.BootConfig.Store.{boot_config_load}
use secure_boot_loader_with.OtaClient.{OtaFrame}
use secure_boot_loader_with.OtaClient.Session.{OtaClient, after_erase, rd_u32_le, handle_start}

module _ (D : FlashDriver) (E : Ecc) (F : IsFlash D) (f : OtaFrame) (st : OtaClient D)
    (in_b : (boot_config_load D E st.mem).1.active_slot ≡ slot_b)
    (accepted : (handle_start D E f st).0 ≡ true) where
  target_a :
      memory_map_slot_addr (memory_map_other_slot (boot_config_load D E st.mem).1.active_slot)
      ≡ slot_a_addr
  unfolding memory_map_slot_addr memory_map_other_slot
  target_a = rw in_b refl

  erased :
      (512 ≤ rd_u32_le f.data_bytes 0)
      × (rd_u32_le f.data_bytes 0 ≤ 471040)
      × ((D.flash_erase_range slot_a_addr (rd_u32_le f.data_bytes 0) st.mem).0 ≡ ok)
      × ((handle_start D E f st).1.mem
          ≡ (D.flash_erase_range slot_a_addr (rd_u32_le f.data_bytes 0) st.mem).1)
  unfolding handle_start after_erase
  erased =
      (ground arith, ground arith, is_ok_lem _ (ground (arith, target_a)), ground (arith, target_a))

  config_byte :
      (x : ℕ)
      → boot_config_addr ≤ x
      → x < boot_config_addr + 24
      → D.byte_at (handle_start D E f st).1.mem x ≡ 0xFF
  unfolding flash_sector_start sector_index_for_addr
  config_byte x lo hi =
      let (big, small, done, mem) = erased in
      ap (λ (m : D.Mem). D.byte_at m x) mem
      ∙ F.erase_range-inside slot_a_addr (rd_u32_le f.data_bytes 0) st.mem x (omega arith)
          (omega arith) done (ground arith) (ground arith) (omega arith)
          (inl (omega arith, omega arith))

  -- A START that is accepted while slot B is active erases the boot configuration, which stands in
  -- the first sector of slot A: from then on no valid record is loaded.
  pub start_a_erases_config : (boot_config_load D E (handle_start D E f st).1.mem).0 ≡ false
  unfolding boot_config_load
  start_a_erases_config =
      rw
        (
          F.read_lem boot_config_addr 24 (handle_start D E f st).1.mem,
          bytes_from-replicate (D.byte_at (handle_start D E f st).1.mem) boot_config_addr 24 0xFF
              (omega arith) config_byte,
          blank,
        )
        refl
    where
      blank : boot_config_validate (of_bytes (replicate 24 0xFF)) ≡ false
      blank = unfold boot_config_validate in refl
