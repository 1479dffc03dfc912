-- ===== src/OtaClient/Receive/Example.antt =====
-- A whole session at an example: an image that is sent in one DATA frame.
use secure_boot_loader_with.Base.{
  ℕ, ◌≡◌, sym, ◌∙◌, refl, List, [], ◌∷◌, ◌++◌, none, Bool, true, false, arith, IsBytes, ltb, ◌&&◌,
}
use secure_boot_loader_with.MemoryMap.{
  slot_a, slot_b_addr, memory_map_slot_addr, memory_map_other_slot,
}
use secure_boot_loader_with.Crc32.{crc32}
use secure_boot_loader_with.Flash.{bytes_from}
use secure_boot_loader_with.Flash.Sectors.{
  sector_index_for_addr, flash_sector_start, flash_sector_size,
}
use secure_boot_loader_with.Flash.Sim.{
  Shadow, shadow_byte, shadow_byte_ptr, load, store, flash_program_bytes, program_loop,
  flash_erase_range, erase_sectors, unless_failed, flash_erase_sector, flash_read,
  shadow_aware_read,
}
use secure_boot_loader_with.Flash.Sim.Driver.{sim_driver, sim_driver-IsFlash}
use secure_boot_loader_with.BootConfig.{boot_config_stamp_crc, boot_config_validate}
use secure_boot_loader_with.BootConfig.Store.{boot_config_load}
use secure_boot_loader_with.OtaClient.{OtaFrame}
use secure_boot_loader_with.DeltaPatch.Apply.{PatchLib, done}
use mathlib.Core.Path.{ap₂}
use secure_boot_loader_with.OtaClient.Transfer.{
  AllAccepted, handle_all, handle_all-stores, handle_start-IsTransfer,
}
use secure_boot_loader_with.OtaClient.Wire.{IsFrame}
use secure_boot_loader_with.OtaClient.Session.{
  OtaClient, after_erase, dest_base, handle_start, handle_data,
}
use secure_boot_loader_with.OtaClient.Receive.{fresh_device}
use secure_boot_loader_with.Example.{example_ecc, image, cfg_with, flash_with, quiet_block}

abbrev pub example_patch_lib : PatchLib
example_patch_lib = record {
  TuzStream = Unit;
  hpatch_lite_open = done none;
  tuz_tstream_read_dict_size = done 0;
  tuz_k_max_of_dict_size = 0xFFFF_FFFF;
  tuz_tstream_open = λ n. done none;
  hpatch_lite_patch = λ t n. done false;
}

abbrev pub start_frame : OtaFrame
start_frame = record { op = 0x21; seq = 1; len = 4; data_bytes = 1 ∷ 2 ∷ 0 ∷ 0 ∷ [] }

abbrev pub data_frame : OtaFrame
data_frame = record { op = 0x22; seq = 2; len = 513; data_bytes = image 3 }

abbrev pub end_frame : OtaFrame
end_frame = record { op = 0x23; seq = 3; len = 0; data_bytes = [] }

abbrev pub flash : Shadow
flash = flash_with (cfg_with slot_a 0x2_0000 0)

abbrev pub fresh : OtaClient sim_driver
fresh = (fresh_device sim_driver quiet_block flash).client

pub IsFrame-start_frame : IsFrame start_frame
IsFrame-start_frame = record {
  op_byte = omega arith;
  seq_word = omega arith;
  data_len = refl;
  fits = omega arith;
  data_ok = omega arith;
}

pub IsFrame-end_frame : IsFrame end_frame
IsFrame-end_frame = record {
  op_byte = omega arith;
  seq_word = omega arith;
  data_len = refl;
  fits = omega arith;
  data_ok = tt;
}

-- `IsBytes`, as a test.
unfoldable pub all_bytes : List ℕ → Bool
all_bytes [] = true
all_bytes (b ∷ bs) = ltb b 256 && all_bytes bs

pub IsBytes-all_bytes : (bs : List ℕ) → all_bytes bs ≡ true → IsBytes bs
unfolding all_bytes
IsBytes-all_bytes [] h = tt
IsBytes-all_bytes (b ∷ bs) h = (ground arith, IsBytes-all_bytes bs (ground arith))

pub IsFrame-data_frame : IsFrame data_frame
unfolding all_bytes
IsFrame-data_frame = record {
  op_byte = omega arith;
  seq_word = omega arith;
  data_len = refl;
  fits = omega arith;
  data_ok = IsBytes-all_bytes (image 3) refl;
}

pub start_accepted : (handle_start sim_driver example_ecc start_frame fresh).0 ≡ true
unfolding handle_start after_erase boot_config_load boot_config_validate flash_read
    shadow_aware_read bytes_from shadow_byte shadow_byte_ptr load boot_config_stamp_crc crc32
    memory_map_slot_addr memory_map_other_slot flash_erase_range erase_sectors unless_failed
    flash_erase_sector sector_index_for_addr flash_sector_start flash_sector_size
start_accepted = refl

abbrev pub started : OtaClient sim_driver
started = (handle_start sim_driver example_ecc start_frame fresh).1

pub data_accepted : (handle_data sim_driver example_ecc data_frame started).0 ≡ true
unfolding handle_start after_erase boot_config_load boot_config_validate flash_read
    shadow_aware_read bytes_from shadow_byte shadow_byte_ptr load boot_config_stamp_crc crc32
    memory_map_slot_addr memory_map_other_slot flash_erase_range erase_sectors unless_failed
    flash_erase_sector sector_index_for_addr flash_sector_start flash_sector_size handle_data
    flash_program_bytes program_loop store
data_accepted = refl

abbrev pub stored : OtaClient sim_driver
stored = (handle_data sim_driver example_ecc data_frame started).1

pub into_slot_b : dest_base sim_driver example_ecc started.g_state ≡ slot_b_addr
unfolding handle_start after_erase boot_config_load boot_config_validate flash_read
    shadow_aware_read bytes_from shadow_byte shadow_byte_ptr load boot_config_stamp_crc crc32
    memory_map_slot_addr memory_map_other_slot flash_erase_range erase_sectors unless_failed
    flash_erase_sector sector_index_for_addr flash_sector_start flash_sector_size
into_slot_b = refl

pub whole_image : stored.g_state.written ≡ 513
unfolding handle_start after_erase boot_config_load boot_config_validate flash_read
    shadow_aware_read bytes_from shadow_byte shadow_byte_ptr load boot_config_stamp_crc crc32
    memory_map_slot_addr memory_map_other_slot flash_erase_range erase_sectors unless_failed
    flash_erase_sector sector_index_for_addr flash_sector_start flash_sector_size handle_data
    flash_program_bytes program_loop store
whole_image = refl

pub nothing_yet : started.g_state.written ≡ 0
unfolding handle_start after_erase boot_config_load boot_config_validate flash_read
    shadow_aware_read bytes_from shadow_byte shadow_byte_ptr load boot_config_stamp_crc crc32
    memory_map_slot_addr memory_map_other_slot flash_erase_range erase_sectors unless_failed
    flash_erase_sector sector_index_for_addr flash_sector_start flash_sector_size
nothing_yet = refl

pub all_accepted : AllAccepted sim_driver example_ecc (data_frame ∷ []) started
all_accepted = (IsFrame-data_frame, data_accepted, tt)

-- What stands in slot B is the image.
pub stored_bytes : bytes_from (shadow_byte stored.mem) slot_b_addr 513 ≡ image 3
unfolding handle_all bytes_from
stored_bytes =
    let (t, _, _) =
      handle_start-IsTransfer sim_driver example_ecc start_frame fresh start_accepted in
    let (_, _, bytes) =
      handle_all-stores sim_driver example_ecc (data_frame ∷ []) started sim_driver-IsFlash t
        all_accepted in
    ap₂ (λ (a n : ℕ). bytes_from (shadow_byte stored.mem) a n) (sym into_slot_b) (sym whole_image)
    ∙ bytes
    ∙ ap₂ (λ (a n : ℕ). bytes_from (shadow_byte started.mem) a n ++ (image 3 ++ [])) into_slot_b
        nothing_yet
