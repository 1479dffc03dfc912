-- ===== src/OtaClient/Receive/Installed.antt =====
-- The END of the session at the example, and the reset.
use secure_boot_loader_with.Base.{
  ℕ, ◌≡◌, ap, sym, ◌∙◌, subst, u32, ◌+◌, inl, refl, [], ◌∷◌, some, true, arith,
}
use secure_boot_loader_with.MemoryMap.{slot_b_addr, memory_map_slot_addr, memory_map_other_slot}
use secure_boot_loader_with.Crc32.{crc32}
use secure_boot_loader_with.Flash.{bytes_from}
use secure_boot_loader_with.Flash.Sectors.{
  sector_index_for_addr, flash_sector_start, flash_sector_size,
}
use secure_boot_loader_with.Flash.Sim.{
  flash_init, qemu_shadow_magic, Shadow, shadow_byte, shadow_byte_ptr, load, store,
  flash_program_bytes, program_loop, flash_erase_range, erase_sectors, unless_failed,
  flash_erase_sector, flash_read, shadow_aware_read,
}
use secure_boot_loader_with.Flash.Sim.Driver.{sim_driver, sim_driver-IsFlash}
use secure_boot_loader_with.BootConfig.{boot_config_stamp_crc, boot_config_validate}
use secure_boot_loader_with.BootConfig.Store.{boot_config_load}
use secure_boot_loader_with.OtaClient.{Input}
use secure_boot_loader_with.OtaClient.Receive.Contained.{Contained, dispatch-Contained}
use secure_boot_loader_with.OtaClient.Receive.Installable.{valid_record, in_a, installable-image}
use secure_boot_loader_with.Flash.Sim.Kept.{program_bytes_magic, erase_range_magic}
use secure_boot_loader_with.OtaClient.Receive.Delivered.{
  end_full, end_accepts, before_end, update_delivered,
}
use secure_boot_loader_with.OtaClient.Receive.Frames.{stream}
use secure_boot_loader_with.OtaClient.Transfer.{handle_all}
use secure_boot_loader_with.OtaClient.Session.{
  OtaClient, ota_kind_full, after_erase, dest_base, handle_start, handle_data,
}
use secure_boot_loader_with.OtaClient.Receive.{
  fresh_device, ota_resp_ack, Device, system_reset, installable, handle_end, dispatch,
  ota_client_receive, send_response,
}
use secure_boot_loader_with.Example.{example_ecc, quiet_block}
use secure_boot_loader_with.OtaClient.Receive.Example.{
  example_patch_lib, start_frame, data_frame, end_frame, flash, IsFrame-start_frame,
  IsFrame-end_frame, start_accepted, started, stored, all_accepted, stored_bytes,
}

abbrev pub before : Device sim_driver
before =
    before_end sim_driver example_ecc example_patch_lib flash quiet_block start_frame
      (data_frame ∷ []) end_frame

stored-Contained : Contained sim_driver example_ecc flash stored
unfolding dispatch
stored-Contained =
    let keep =
      dispatch-Contained sim_driver example_ecc sim_driver-IsFlash flash valid_record in_a
        example_patch_lib in
    keep data_frame (record before { client = started }) (refl, omega arith)
      (keep start_frame (fresh_device sim_driver quiet_block flash) (refl, omega arith)
        (record { same = λ x o. refl; state = inl refl; fits = omega arith }))

installable_b : installable sim_driver example_ecc slot_b_addr stored.mem ≡ true
installable_b = installable-image stored.mem stored_bytes stored-Contained.same

session_open : stored.g_state.active ≡ true
unfolding handle_start after_erase boot_config_load boot_config_validate flash_read
    shadow_aware_read bytes_from shadow_byte shadow_byte_ptr load boot_config_stamp_crc crc32
    memory_map_slot_addr memory_map_other_slot flash_erase_range erase_sectors unless_failed
    flash_erase_sector sector_index_for_addr flash_sector_start flash_sector_size handle_data
    flash_program_bytes program_loop store
session_open = refl

complete : stored.g_state.written ≡ stored.g_state.xfer_total
unfolding handle_start after_erase boot_config_load boot_config_validate flash_read
    shadow_aware_read bytes_from shadow_byte shadow_byte_ptr load boot_config_stamp_crc crc32
    memory_map_slot_addr memory_map_other_slot flash_erase_range erase_sectors unless_failed
    flash_erase_sector sector_index_for_addr flash_sector_start flash_sector_size handle_data
    flash_program_bytes program_loop store
complete = refl

pub full : stored.g_state.kind ≡ ota_kind_full
unfolding handle_start after_erase boot_config_load boot_config_validate flash_read
    shadow_aware_read bytes_from shadow_byte shadow_byte_ptr load boot_config_stamp_crc crc32
    memory_map_slot_addr memory_map_other_slot flash_erase_range erase_sectors unless_failed
    flash_erase_sector sector_index_for_addr flash_sector_start flash_sector_size handle_data
    flash_program_bytes program_loop store
full = refl

into_b : stored.g_state.slot_addr ≡ slot_b_addr
unfolding handle_start after_erase boot_config_load boot_config_validate flash_read
    shadow_aware_read bytes_from shadow_byte shadow_byte_ptr load boot_config_stamp_crc crc32
    memory_map_slot_addr memory_map_other_slot flash_erase_range erase_sectors unless_failed
    flash_erase_sector sector_index_for_addr flash_sector_start flash_sector_size handle_data
    flash_program_bytes program_loop store
into_b = refl

pub end_accepted : (handle_end sim_driver example_ecc example_patch_lib before).0 ≡ true
unfolding handle_all
end_accepted =
    end_accepts sim_driver example_ecc example_patch_lib before session_open complete full
      (ap (λ (a : ℕ). installable sim_driver example_ecc a stored.mem) into_b ∙ installable_b)

-- The session, and how it ends.
abbrev pub session : Input
session = stream (start_frame ∷ data_frame ∷ []) (stream (end_frame ∷ []) [])

abbrev pub at_end : Device sim_driver
at_end =
    send_response sim_driver ota_resp_ack end_frame.seq
      (handle_end sim_driver example_ecc example_patch_lib before).1

-- It ends with a reset.
pub session_resets :
    ota_client_receive sim_driver example_ecc example_patch_lib session quiet_block flash
    ≡ some (system_reset, at_end, [])
session_resets =
    (update_delivered sim_driver example_ecc example_patch_lib flash quiet_block start_frame
      (data_frame ∷ []) end_frame [] sim_driver-IsFlash IsFrame-start_frame refl start_accepted
      (refl, tt) all_accepted IsFrame-end_frame refl end_accepted).0

-- The flash is kept over the reset.
magic_kept : stored.mem.magic ≡ qemu_shadow_magic
unfolding handle_start handle_data after_erase
magic_kept = ground (
  arith,
  program_bytes_magic
      (u32 (dest_base sim_driver example_ecc started.g_state + started.g_state.written))
      data_frame.data_bytes started.mem,
  erase_range_magic
      (memory_map_slot_addr
        (memory_map_other_slot (boot_config_load sim_driver example_ecc flash).1.active_slot))
      513 flash,
)

pub flash_kept :
    (x : ℕ) → shadow_byte (flash_init at_end.client.mem) x ≡ shadow_byte at_end.client.mem x
unfolding flash_init handle_all send_response
flash_kept x =
    ap (λ (m : Shadow). shadow_byte m x)
      (subst (λ (c : OtaClient sim_driver). flash_init c.mem ≡ c.mem)
        (sym (end_full sim_driver example_ecc example_patch_lib before full)) (rw magic_kept refl))
