-- ===== src/MemoryMap.antt =====
-- common/memory_map.h and the sizes of common/firmware_format.h: the flash partitions and the slot
-- identifiers.
pub mod Layout
use secure_boot_loader_with.Base.{ℕ, ◌-◌, ◌*◌, ◌+◌, ◌==◌, if◌then◌else◌}

abbrev pub flash_base_addr : ℕ
flash_base_addr = 0x0800_0000

abbrev pub flash_total_size : ℕ
flash_total_size = 1024 * 1024

abbrev pub bootloader_addr : ℕ
bootloader_addr = 0x0800_0000

abbrev pub bootloader_size : ℕ
bootloader_size = 64 * 1024

abbrev pub boot_config_addr : ℕ
boot_config_addr = 0x0801_0000

abbrev pub boot_config_size : ℕ
boot_config_size = 4 * 1024

abbrev pub slot_a_addr : ℕ
slot_a_addr = 0x0801_1000

abbrev pub slot_b_addr : ℕ
slot_b_addr = 0x0808_4000

abbrev pub slot_size : ℕ
slot_size = 460 * 1024

abbrev pub flash_used_end : ℕ
flash_used_end = slot_b_addr + slot_size

abbrev pub sram_base_addr : ℕ
sram_base_addr = 0x2000_0000

abbrev pub sram_total_size : ℕ
sram_total_size = 128 * 1024

abbrev pub sram_end_addr : ℕ
sram_end_addr = sram_base_addr + sram_total_size

abbrev pub shared_block_addr : ℕ
shared_block_addr = 0x2001_FFF0

abbrev pub shared_block_size : ℕ
shared_block_size = 16

abbrev pub slot_a_app_entry : ℕ
slot_a_app_entry = slot_a_addr + 0x200

abbrev pub slot_b_app_entry : ℕ
slot_b_app_entry = slot_b_addr + 0x200

-- SLOT_A and SLOT_B are the letters.
abbrev pub slot_a : ℕ
slot_a = 0x41

abbrev pub slot_b : ℕ
slot_b = 0x42

abbrev pub firmware_magic : ℕ
firmware_magic = 0xDEAD_BEEF

abbrev pub boot_config_magic : ℕ
boot_config_magic = 0xB007_10AD

abbrev pub shared_block_magic : ℕ
shared_block_magic = 0x5EAF_B001

abbrev pub firmware_header_size : ℕ
firmware_header_size = 512

abbrev pub firmware_signature_size : ℕ
firmware_signature_size = 64

abbrev pub firmware_max_payload_size : ℕ
firmware_max_payload_size = 460 * 1024 - firmware_header_size

unfoldable pub memory_map_slot_addr : ℕ → ℕ
memory_map_slot_addr slot = if slot == slot_b then slot_b_addr else slot_a_addr

unfoldable pub memory_map_other_slot : ℕ → ℕ
memory_map_other_slot slot = if slot == slot_a then slot_b else slot_a
