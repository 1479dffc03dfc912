-- ===== src/OtaClient/Tests.antt =====
-- The theorems on the update protocol at example frames and an example flash.
use secure_boot_loader_with.Base.{
  take, drop, ℕ, ◌≡◌, inr, refl, [], ◌∷◌, none, true, arith, ◌==◌, if◌then◌else◌,
}
use secure_boot_loader_with.MemoryMap.{
  slot_a, slot_a_addr, slot_b_addr, memory_map_slot_addr, memory_map_other_slot,
}
use secure_boot_loader_with.Crc32.{crc32}
use secure_boot_loader_with.Flash.{bytes_from}
use secure_boot_loader_with.Flash.Sectors.{
  sector_index_for_addr, flash_sector_start, flash_sector_size,
}
use secure_boot_loader_with.Flash.Sim.{
  shadow_byte, shadow_byte_ptr, load, store, flash_program_bytes, program_loop, flash_erase_range,
  erase_sectors, unless_failed, flash_erase_sector, flash_ota_slot_span, flash_read,
  shadow_aware_read,
}
use secure_boot_loader_with.Flash.Sim.Driver.{sim_driver, sim_driver-IsFlash}
use secure_boot_loader_with.BootConfig.{boot_config_stamp_crc, boot_config_validate}
use secure_boot_loader_with.BootConfig.Store.{boot_config_load}
use secure_boot_loader_with.OtaClient.{OtaFrame, frame_ok, frame_crc_bad, read_frame}
use secure_boot_loader_with.Sha256.{
  sha256_init, sha256_update, update_byte, sha256_final, zero_fill, put_bitlen, sha256_transform,
}
use secure_boot_loader_with.FirmwareFormat.{header_of}
use secure_boot_loader_with.Crypto.{read_chunks, chunk_size, crypto_constant_time_equal}
use secure_boot_loader_with.DeltaPatch.{compare_digest, delta_verify_active_base_sha256}
use secure_boot_loader_with.OtaClient.Wire.{
  IsFrame, arriving, covered, on_wire, read_frame-on_wire, read_frame_detects,
}
use secure_boot_loader_with.OtaClient.Session.{
  OtaClient, ota_kind_full, after_erase, handle_start, handle_start_delta, handle_data,
}
use secure_boot_loader_with.MemoryMap.{slot_b}
use secure_boot_loader_with.Base.{false}
use secure_boot_loader_with.OtaClient.Erase.{start_a_erases_config}
use secure_boot_loader_with.OtaClient.Transfer.{IsTransfer, AllAccepted}
use secure_boot_loader_with.Example.{example_ecc, cfg_with, flash_with}

-- A DATA frame with three bytes, the one behind it, and a START for 600 bytes.
abbrev frame : OtaFrame
frame = record { op = 0x22; seq = 2; len = 3; data_bytes = 7 ∷ 1 ∷ 9 ∷ [] }

abbrev next_frame : OtaFrame
next_frame = record frame { seq = 3; len = 1; data_bytes = 5 ∷ [] }

abbrev start_frame : OtaFrame
start_frame = record { op = 0x21; seq = 1; len = 4; data_bytes = 0x58 ∷ 2 ∷ 0 ∷ 0 ∷ [] }

-- A START_DELTA for a patch of 100 bytes and an image of 600 on the base in slot A.
abbrev delta_frame : OtaFrame
delta_frame = record {
  op = 0x24;
  seq = 1;
  len = 40;
  data_bytes =
      100 ∷ 0 ∷ 0 ∷ 0 ∷ 0x58 ∷ 2 ∷ 0 ∷ 0 ∷ 0xEC ∷ 0xB2 ∷ 0x10 ∷ 0xFE ∷ 0x89 ∷ 0xA3 ∷ 0x89 ∷ 0x07
      ∷ 0xF7 ∷ 0xAC ∷ 0x12 ∷ 0x5C ∷ 0xC5 ∷ 0xAC ∷ 0x8C ∷ 0xB0 ∷ 0x3B ∷ 0x0C ∷ 0x04 ∷ 0x30 ∷ 0xCB
      ∷ 0x7E ∷ 0xDA ∷ 0x85 ∷ 0xE1 ∷ 0xF7 ∷ 0x7A ∷ 0x77 ∷ 0x38 ∷ 0x87 ∷ 0x18 ∷ 0xB1 ∷ [];
}

abbrev state : ℕ → OtaClient sim_driver
state total = record {
  g_state = record {
    active = true;
    kind = ota_kind_full;
    slot_addr = slot_b_addr;
    xfer_total = total;
    written = 0;
    expected_seq = 2;
    patch_tail_base = 0;
    expected_new_total = 0;
    active_slot_base = 0;
  };
  mem = flash_with (cfg_with slot_a 0x2_0000 0);
}

IsFrame-frame : IsFrame frame
IsFrame-frame = record {
  op_byte = omega arith;
  seq_word = omega arith;
  data_len = refl;
  fits = omega arith;
  data_ok = omega arith;
}

IsFrame-next_frame : IsFrame next_frame
IsFrame-next_frame = record {
  op_byte = omega arith;
  seq_word = omega arith;
  data_len = refl;
  fits = omega arith;
  data_ok = omega arith;
}

IsTransfer-state : IsTransfer sim_driver example_ecc (state 600).g_state
IsTransfer-state = record {
  slot = inr refl;
  low = omega arith;
  high = omega arith;
  progress = omega arith;
}

-- The frames are accepted.
start_accepted : (handle_start sim_driver example_ecc start_frame (state 0)).0 ≡ true
unfolding handle_start after_erase boot_config_load boot_config_validate flash_read
    shadow_aware_read bytes_from shadow_byte shadow_byte_ptr load boot_config_stamp_crc crc32
    memory_map_slot_addr memory_map_other_slot flash_erase_range erase_sectors unless_failed
    flash_erase_sector sector_index_for_addr flash_sector_start flash_sector_size
start_accepted = refl

all_accepted : AllAccepted sim_driver example_ecc (frame ∷ next_frame ∷ []) (state 600)
unfolding handle_data flash_program_bytes program_loop shadow_byte_ptr load store
all_accepted = (IsFrame-frame, refl, (IsFrame-next_frame, refl, tt))

read_frame-on_wire_example :
    read_frame (arriving (0x55 ∷ on_wire frame 0xDEAD_BEEF) (none ∷ []))
    ≡ (if crc32 (covered frame) == 0xDEAD_BEEF then frame_ok frame else frame_crc_bad, none ∷ [])
read_frame-on_wire_example =
    read_frame-on_wire (0x55 ∷ []) frame 0xDEAD_BEEF (none ∷ []) (omega arith, tt) IsFrame-frame
      (omega arith)

read_frame_detects_example :
    read_frame
      (arriving (on_wire (record frame { data_bytes = 7 ∷ 2 ∷ 9 ∷ [] }) (crc32 (covered frame))) [])
    ≡ (frame_crc_bad, [])
read_frame_detects_example =
    read_frame_detects [] frame (7 ∷ []) (9 ∷ []) 1 2 [] tt IsFrame-frame (omega arith)
      (omega arith)

base_accepted :
    delta_verify_active_base_sha256 sim_driver slot_a_addr
      (take 32 (drop 8 delta_frame.data_bytes))
      (state 0).mem
    ≡ true
unfolding delta_verify_active_base_sha256 compare_digest crypto_constant_time_equal flash_read
    shadow_aware_read bytes_from shadow_byte shadow_byte_ptr load header_of read_chunks chunk_size
    sha256_init sha256_update update_byte sha256_final zero_fill put_bitlen sha256_transform
base_accepted = refl

delta_accepted : (handle_start_delta sim_driver example_ecc delta_frame (state 0)).0 ≡ true
unfolding handle_start_delta after_erase boot_config_load boot_config_validate flash_read
    shadow_aware_read bytes_from shadow_byte shadow_byte_ptr load boot_config_stamp_crc crc32
    memory_map_slot_addr memory_map_other_slot flash_erase_range erase_sectors unless_failed
    flash_erase_sector sector_index_for_addr flash_sector_start flash_sector_size
    flash_ota_slot_span
delta_accepted = rw base_accepted refl

-- The same START with slot B active.
abbrev state_b : OtaClient sim_driver
state_b = record (state 0) { mem = flash_with (cfg_with slot_b 0x2_0000 0) }

start_accepted_b : (handle_start sim_driver example_ecc start_frame state_b).0 ≡ true
unfolding handle_start after_erase boot_config_load boot_config_validate flash_read
    shadow_aware_read bytes_from shadow_byte shadow_byte_ptr load boot_config_stamp_crc crc32
    memory_map_slot_addr memory_map_other_slot flash_erase_range erase_sectors unless_failed
    flash_erase_sector sector_index_for_addr flash_sector_start flash_sector_size
start_accepted_b = refl

loads_b : (boot_config_load sim_driver example_ecc state_b.mem).1.active_slot ≡ slot_b
unfolding boot_config_load boot_config_validate flash_read shadow_aware_read bytes_from shadow_byte
    shadow_byte_ptr load boot_config_stamp_crc crc32
loads_b = refl

start_a_erases_config_example :
    (boot_config_load sim_driver example_ecc
      (handle_start sim_driver example_ecc start_frame state_b).1.mem).0
    ≡ false
start_a_erases_config_example =
    start_a_erases_config sim_driver example_ecc sim_driver-IsFlash start_frame state_b loads_b
      start_accepted_b
