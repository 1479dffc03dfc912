-- ===== src/DeltaPatch/Tests.antt =====
-- The check of the base image at an example flash.
use secure_boot_loader_with.Base.{◌≡◌, ◌≤◌, ◌↔◌, List, ℕ, true, arith, replicate}
use secure_boot_loader_with.MemoryMap.{
  slot_a, slot_a_addr, slot_size, firmware_magic, firmware_header_size,
}
use secure_boot_loader_with.Sha256.Reference.{reference_sha256}
use secure_boot_loader_with.Flash.{bytes_from}
use secure_boot_loader_with.Flash.Sim.{Shadow, shadow_byte}
use secure_boot_loader_with.Flash.Sim.Driver.{sim_driver, sim_driver-IsFlash}
use secure_boot_loader_with.FirmwareFormat.{header_of}
use secure_boot_loader_with.DeltaPatch.{delta_verify_active_base_sha256}
use secure_boot_loader_with.MemoryMap.{slot_b_addr}
use secure_boot_loader_with.Base.{false, inr, none, some, ◌+◌, ◌≡◌}
use secure_boot_loader_with.DeltaPatch.Apply.{
  PatchLib, read_diff, read_old, write_new, done, compress_type_no, delta_apply_patch,
}
use secure_boot_loader_with.DeltaPatch.Confined.{apply_patch_confined}
use secure_boot_loader_with.DeltaPatch.Base.{base_total, base_check_iff}
use secure_boot_loader_with.DeltaPatch.Replay.{replay_all}
use secure_boot_loader_with.DeltaPatch.Whole.{old_image, patch_bytes, apply_patch_replays}
use secure_boot_loader_with.Flash.{ok}
use secure_boot_loader_with.Flash.Sim.{
  flash_program_bytes, flash_ota_slot_span, shadow_byte_ptr, load,
}
use secure_boot_loader_with.Flash.Sim.Program.{program_bytes-succeeds_b}
use secure_boot_loader_with.Base.{length, IsBytes, inl, refl}
use secure_boot_loader_with.Example.{cfg_with, flash_with}

abbrev flash : Shadow
flash = flash_with (cfg_with slot_a 0x2_0000 0)

abbrev digest : List ℕ
digest = replicate 32 0xAB

base_check_iff_example :
    let total = base_total sim_driver sim_driver-IsFlash slot_a_addr flash (omega arith) in
    (delta_verify_active_base_sha256 sim_driver slot_a_addr digest flash ≡ true) ↔ (
      ((header_of (bytes_from (shadow_byte flash) slot_a_addr firmware_header_size)).magic
        ≡ firmware_magic)
      × (total ≤ slot_size)
      × (reference_sha256 (bytes_from (shadow_byte flash) slot_a_addr total) ≡ digest))
base_check_iff_example =
    base_check_iff sim_driver sim_driver-IsFlash slot_a_addr flash (omega arith) digest
      (omega arith) refl

-- Libraries that read one byte of the patch and three of the base, and write these three.
abbrev example_lib : PatchLib
example_lib = record {
  TuzStream = Unit;
  hpatch_lite_open = read_diff 1 (λ d. done (some (compress_type_no, 600)));
  tuz_tstream_read_dict_size = done 0;
  tuz_k_max_of_dict_size = 0xFFFF_FFFF;
  tuz_tstream_open = λ n. done none;
  hpatch_lite_patch = λ t n.
      read_old 0 3
        (λ old. elim old [ none ↦ done false | some bs ↦ write_new bs (λ stored. done stored) ]);
}

apply_patch_confined_example :
    shadow_byte
      (delta_apply_patch sim_driver example_lib slot_a_addr slot_b_addr 100 600 flash).1
      (slot_b_addr + 600)
    ≡ shadow_byte flash (slot_b_addr + 600)
apply_patch_confined_example =
    apply_patch_confined sim_driver sim_driver-IsFlash example_lib slot_a_addr slot_b_addr 100 600
      flash (slot_b_addr + 600) (omega arith) (inr (omega arith))

in_b_programs :
    (a : ℕ) (bs : List ℕ) (n : Shadow)
    → slot_b_addr ≤ a
    → a + length bs ≤ slot_b_addr + 600
    → IsBytes bs
    → (flash_program_bytes a bs n).0 ≡ ok
unfolding flash_ota_slot_span
in_b_programs a bs n lo hi b = program_bytes-succeeds_b a bs n lo (omega (arith, hi)) b

apply_patch_replays_example :
    let (good, after) =
      delta_apply_patch sim_driver example_lib slot_a_addr slot_b_addr 100 600 flash in
    let (good', out) =
      replay_all
        (old_image sim_driver sim_driver-IsFlash example_lib slot_a_addr slot_b_addr flash)
        (patch_bytes sim_driver sim_driver-IsFlash example_lib slot_a_addr slot_b_addr flash 100)
        600
        example_lib in
    (good ≡ good') × (bytes_from (shadow_byte after) slot_b_addr (length out) ≡ out)
unfolding bytes_from shadow_byte shadow_byte_ptr load header_of flash_ota_slot_span
apply_patch_replays_example =
    apply_patch_replays sim_driver sim_driver-IsFlash example_lib slot_a_addr slot_b_addr flash 100
      600 (omega arith) (omega arith) (omega arith) refl (omega arith) (omega arith)
      (inl (omega arith)) (omega arith) (omega arith) in_b_programs
