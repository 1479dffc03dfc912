-- ===== src/MemoryMap/Layout.antt =====
-- The partitions do not meet, and the two slots are each other's other.
use secure_boot_loader_with.Base.{ℕ, ◌+◌, ◌%◌, ◌≤◌, ◌≡◌, ◌≢◌, ◌⊎◌, refl, arith}
use secure_boot_loader_with.MemoryMap.{
  flash_base_addr, flash_total_size, bootloader_addr, bootloader_size, slot_a_addr, slot_b_addr,
  shared_block_addr, shared_block_size, sram_end_addr, slot_a_app_entry, slot_b_app_entry,
  boot_config_addr, boot_config_size, slot_a, slot_b, slot_size, firmware_header_size,
  memory_map_slot_addr, memory_map_other_slot,
}

abbrev pub IsSlot : ℕ → Type 0
IsSlot s = (s ≡ slot_a) ⊎ (s ≡ slot_b)

pub other-IsSlot : (s : ℕ) → IsSlot (memory_map_other_slot s)
unfolding memory_map_other_slot
other-IsSlot s = ground arith

-- Going to the other slot twice comes back, and the other slot is another one.
pub other_slot_twice :
    (s : ℕ)
    → IsSlot s
    → (memory_map_other_slot (memory_map_other_slot s) ≡ s) × (memory_map_other_slot s ≢ s)
unfolding memory_map_other_slot
other_slot_twice s h = (ground arith, ground arith)

-- From either slot, the two slot regions do not meet, lie inside the flash and behind the boot
-- configuration, and the vector table behind the header is aligned to 512 bytes.
pub slots_disjoint :
    (s : ℕ)
    → IsSlot s
    → let a = memory_map_slot_addr s in
      let b = memory_map_slot_addr (memory_map_other_slot s) in
      ((a + slot_size ≤ b) ⊎ (b + slot_size ≤ a))
      × (boot_config_addr + boot_config_size ≤ a)
      × (a + slot_size ≤ flash_base_addr + flash_total_size)
      × ((a + firmware_header_size) % 512 ≡ 0)
unfolding memory_map_slot_addr memory_map_other_slot
slots_disjoint s h = (ground arith, ground arith, ground arith, ground arith)

-- The static assertions of the header, in its order.
abbrev StaticAsserts : Type 0
StaticAsserts =
    (slot_a_app_entry % 0x200 ≡ 0)
    × (slot_b_app_entry % 0x200 ≡ 0)
    × (bootloader_addr + bootloader_size ≤ boot_config_addr)
    × (boot_config_addr + boot_config_size ≤ slot_a_addr)
    × (slot_a_addr + slot_size ≤ slot_b_addr)
    × (slot_b_addr + slot_size ≤ flash_base_addr + flash_total_size)
    × (shared_block_addr + shared_block_size ≡ sram_end_addr)

asserts_hold : StaticAsserts
asserts_hold = (refl, refl, omega arith, omega arith, omega arith, omega arith, refl)
