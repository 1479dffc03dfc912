-- ===== src/OtaClient/Receive/PatchExample.antt =====
-- A session with a patch at an example: a new header for the payload in slot A.
use secure_boot_loader_with.Base.{
  ℕ, ◌+◌, ◌-◌, ◌≡◌, refl, ap, ◌∙◌, sym, arith, List, [], ◌∷◌, ◌++◌, take, none, some, true, false,
  replicate, get_or, ◌*◌,
}
use secure_boot_loader_with.MemoryMap.{
  slot_a_addr, slot_b_addr, memory_map_slot_addr, memory_map_other_slot, firmware_magic,
}
use secure_boot_loader_with.Sha256.{
  sha256, sha256_init, sha256_update, update_byte, sha256_final, zero_fill, put_bitlen,
  sha256_transform,
}
use secure_boot_loader_with.Sha256.Reference.{reference_sha256, sha256-eq-reference}
use secure_boot_loader_with.FirmwareFormat.{header_of}
use secure_boot_loader_with.Flash.{ok, bytes_from}
use secure_boot_loader_with.Flash.Sectors.{
  sector_index_for_addr, flash_sector_start, flash_sector_size,
}
use secure_boot_loader_with.Flash.Sim.{
  shadow_byte, shadow_byte_ptr, load, flash_erase_range, erase_sectors, unless_failed,
  flash_erase_sector, flash_ota_slot_span,
}
use secure_boot_loader_with.Flash.Sim.Driver.{sim_driver, sim_driver-IsFlash}
use secure_boot_loader_with.BootConfig.Store.{boot_config_load}
use secure_boot_loader_with.DeltaPatch.{delta_verify_active_base_sha256}
use secure_boot_loader_with.DeltaPatch.Base.{base_total, base_check_iff}
use secure_boot_loader_with.DeltaPatch.Apply.{
  PatchLib, done, read_diff, read_old, write_new, compress_type_no,
}
use secure_boot_loader_with.DeltaPatch.Replay.{
  replay_all, replay_kind, replay_patch, replay_with, replay, next_diff, old_bytes, append_new,
}
use secure_boot_loader_with.OtaClient.{OtaFrame}
use secure_boot_loader_with.OtaClient.Session.{
  OtaClient, ota_kind_delta, after_erase, handle_start_delta,
}
use secure_boot_loader_with.OtaClient.Receive.Example.{flash, fresh}
use secure_boot_loader_with.OtaClient.Receive.Installable.{in_a}
use secure_boot_loader_with.Example.{example_ecc, image}

-- Libraries that read the size of the image from the first two bytes of the patch, take its header
-- from the rest, and its payload from the old image.
abbrev pub header_lib : PatchLib
header_lib = record {
  TuzStream = Unit;
  hpatch_lite_open = read_diff 2 (λ d. elim d [
    | none ↦ done none
    | some bs ↦ done (some (compress_type_no, 256 * get_or bs 1 0 + get_or bs 0 0))
  ]);
  tuz_tstream_read_dict_size = done 0;
  tuz_k_max_of_dict_size = 0xFFFF_FFFF;
  tuz_tstream_open = λ n. done none;
  hpatch_lite_patch = λ t n. read_diff 512 (λ d. read_old 512 1 (λ o. elim d [
    | none ↦ done false
    | some hdr ↦ elim o [
      | none ↦ done false
      | some old ↦ write_new (hdr ++ old) (λ stored. done stored)
    ]
  ]));
}

abbrev pub patch : List ℕ
patch = 1 ∷ 2 ∷ take 512 (image 3)

-- What they make of the image in slot A.
pub made : replay_all (image 2) patch 513 header_lib ≡ (true, image 3)
unfolding replay_all replay_kind replay_patch replay_with replay next_diff old_bytes append_new
made = refl

abbrev pub base_digest : List ℕ
base_digest =
    0xec ∷ 0xb2 ∷ 0x10 ∷ 0xfe ∷ 0x89 ∷ 0xa3 ∷ 0x89 ∷ 0x07 ∷ 0xf7 ∷ 0xac ∷ 0x12 ∷ 0x5c ∷ 0xc5 ∷ 0xac
    ∷ 0x8c ∷ 0xb0 ∷ 0x3b ∷ 0x0c ∷ 0x04 ∷ 0x30 ∷ 0xcb ∷ 0x7e ∷ 0xda ∷ 0x85 ∷ 0xe1 ∷ 0xf7 ∷ 0x7a
    ∷ 0x77 ∷ 0x38 ∷ 0x87 ∷ 0x18 ∷ 0xb1 ∷ []

digest_2 : sha256 (replicate 64 0) (image 2) ≡ base_digest
unfolding sha256 sha256_init sha256_update update_byte sha256_final zero_fill put_bitlen
    sha256_transform
digest_2 = refl

abbrev pub delta_frame : OtaFrame
delta_frame = record {
  op = 0x24;
  seq = 1;
  len = 40;
  data_bytes = 2 ∷ 2 ∷ 0 ∷ 0 ∷ 1 ∷ 2 ∷ 0 ∷ 0 ∷ base_digest;
}

abbrev pub patch_frame : OtaFrame
patch_frame = record { op = 0x22; seq = 2; len = 514; data_bytes = patch }

pub image_a_bytes : bytes_from (shadow_byte flash) slot_a_addr 513 ≡ image 2
unfolding bytes_from shadow_byte shadow_byte_ptr load
image_a_bytes = refl

pub base_magic : (header_of (bytes_from (shadow_byte flash) slot_a_addr 512)).magic ≡ firmware_magic
unfolding bytes_from shadow_byte shadow_byte_ptr load header_of
base_magic = refl

pub base_size : base_total sim_driver sim_driver-IsFlash slot_a_addr flash (omega arith) ≡ 513
unfolding bytes_from shadow_byte shadow_byte_ptr load header_of
base_size = refl

base_digest_ok :
    reference_sha256 (
      bytes_from
        (shadow_byte flash)
        slot_a_addr
        (base_total sim_driver sim_driver-IsFlash slot_a_addr flash (omega arith)))
    ≡ base_digest
base_digest_ok =
    ap (λ (n : ℕ). reference_sha256 (bytes_from (shadow_byte flash) slot_a_addr n)) base_size
    ∙ ap reference_sha256 image_a_bytes
    ∙ sym (sha256-eq-reference (replicate 64 0) (image 2) refl)
    ∙ digest_2

base_ok : delta_verify_active_base_sha256 sim_driver slot_a_addr base_digest flash ≡ true
base_ok =
    (base_check_iff sim_driver sim_driver-IsFlash slot_a_addr flash (omega arith) base_digest
        (omega arith) refl).1
      (base_magic, omega (arith, base_size), base_digest_ok)

-- The transfer that the START_DELTA begins.
abbrev pub begun_patch : OtaClient sim_driver
begun_patch = record {
  g_state = record {
    active = true;
    kind = ota_kind_delta;
    slot_addr = slot_b_addr;
    xfer_total = 514;
    written = 0;
    expected_seq = 2;
    patch_tail_base = slot_b_addr + flash_ota_slot_span - 514;
    expected_new_total = 513;
    active_slot_base = slot_a_addr;
  };
  mem = (flash_erase_range slot_b_addr flash_ota_slot_span flash).1;
}

in_slot_a :
    memory_map_slot_addr (boot_config_load sim_driver example_ecc flash).1.active_slot ≡ slot_a_addr
unfolding memory_map_slot_addr
in_slot_a = rw in_a refl

into_slot_b :
    memory_map_slot_addr
      (memory_map_other_slot (boot_config_load sim_driver example_ecc flash).1.active_slot)
    ≡ slot_b_addr
unfolding memory_map_slot_addr memory_map_other_slot
into_slot_b = rw in_a refl

erased : (flash_erase_range slot_b_addr flash_ota_slot_span flash).0 ≡ ok
unfolding flash_erase_range erase_sectors unless_failed flash_erase_sector sector_index_for_addr
    flash_sector_start flash_sector_size flash_ota_slot_span
erased = refl

pub begins : handle_start_delta sim_driver example_ecc delta_frame fresh ≡ (true, begun_patch)
unfolding handle_start_delta after_erase flash_ota_slot_span
begins = rw (in_slot_a, into_slot_b, base_ok, erased) refl
