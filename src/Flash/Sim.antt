-- ===== src/Flash/Sim.antt =====
-- The QEMU_FLASH_SIM backend of bootloader/src/flash_driver.c: a shadow in SRAM of the boot
-- configuration and of the first 32 KB of each slot, over a read-only ROM. The watchdog kicks write
-- a register that nothing reads, and are left out.
pub mod Cells
pub mod Program
pub mod Erase
pub mod Driver
pub mod Fuel
pub mod Kept
use secure_boot_loader_with.Base.{
  ℕ, zero, suc, ◌+◌, ◌-◌, ◌*◌, ◌/◌, ◌%◌, ◌^◌, ◌≡◌, List, [], ◌∷◌, Option, none, some, Bool, true,
  false, ◌&&◌, ltb, leb, ◌==◌, if◌then◌else◌, u8, u32, le32, low_bits, get_or,
}
use secure_boot_loader_with.MemoryMap.{boot_config_addr, boot_config_size, slot_a_addr, slot_b_addr}
use secure_boot_loader_with.Flash.{Status, ok, err_verify, err_range, bytes_from, FlashDriver}
use secure_boot_loader_with.Flash.Sectors.{
  k_sector_start, k_sector_size, sector_index_for_addr, flash_sector_start, flash_sector_size,
}

abbrev pub qemu_shadow_magic : ℕ
qemu_shadow_magic = 0xCAFE_FEED

abbrev pub shadow_config_size : ℕ
shadow_config_size = boot_config_size

abbrev pub shadow_slot_size : ℕ
shadow_slot_size = 32 * 1024

-- `qemu_flash_shadow_t`, with the ROM behind it. An array is a function of the index.
pub record Shadow : Type 0 where
  pub magic : ℕ
  pub config : ℕ → ℕ
  pub slot_a : ℕ → ℕ
  pub slot_b : ℕ → ℕ
  pub rom : ℕ → ℕ

-- A pointer into one of the three arrays.
pub data Cell : Type 0 where
  in_config in_slot_a in_slot_b : ℕ → Cell

-- `none` is NULL.
unfoldable pub shadow_byte_ptr : ℕ → Option Cell
shadow_byte_ptr addr =
    if leb boot_config_addr addr && ltb addr (boot_config_addr + shadow_config_size)
    then some (in_config (addr - boot_config_addr))
    else if leb slot_a_addr addr && ltb addr (slot_a_addr + shadow_slot_size)
    then some (in_slot_a (addr - slot_a_addr))
    else if leb slot_b_addr addr && ltb addr (slot_b_addr + shadow_slot_size)
    then some (in_slot_b (addr - slot_b_addr))
    else none

-- A load through a pointer to `uint8_t`, and a store.
unfoldable pub load : Cell → Shadow → ℕ
load (in_config i) s = u8 (s.config i)
load (in_slot_a i) s = u8 (s.slot_a i)
load (in_slot_b i) s = u8 (s.slot_b i)

abbrev pub update : (ℕ → ℕ) → ℕ → ℕ → ℕ → ℕ
update f i v j = if i == j then v else f j

unfoldable pub store : Cell → ℕ → Shadow → Shadow
store (in_config i) v s = record s { config = update s.config i v }
store (in_slot_a i) v s = record s { slot_a = update s.slot_a i v }
store (in_slot_b i) v s = record s { slot_b = update s.slot_b i v }

-- One byte of `shadow_aware_read`.
unfoldable pub shadow_byte : Shadow → ℕ → ℕ
shadow_byte s addr = elim (shadow_byte_ptr addr) [ none ↦ u8 (s.rom addr) | some p ↦ load p s ]

unfoldable pub shadow_aware_read : ℕ → ℕ → Shadow → List ℕ
shadow_aware_read addr size s = bytes_from (shadow_byte s) addr size

unfoldable pub flash_init : Shadow → Shadow
flash_init s = if s.magic == qemu_shadow_magic then s else record s {
  magic = qemu_shadow_magic;
  config = λ i. s.rom (boot_config_addr + i);
  slot_a = λ i. s.rom (slot_a_addr + i);
  slot_b = λ i. s.rom (slot_b_addr + i);
}

unfoldable pub flash_read : ℕ → ℕ → Shadow → Status × List ℕ
flash_read addr size s = (ok, shadow_aware_read addr size s)

unfoldable pub flash_ota_slot_span : ℕ
flash_ota_slot_span = shadow_slot_size

-- `if (sp) *sp = v`
unfoldable pub poke : ℕ → ℕ → Shadow → Shadow
poke addr v s = elim (shadow_byte_ptr addr) [ none ↦ s | some p ↦ store p v s ]

-- The inner loop of the erase, by the bytes left of a chunk.
unfoldable pub erase_bytes : ℕ → ℕ → Shadow → Shadow
erase_bytes zero addr s = s
erase_bytes (suc n) addr s = erase_bytes n (addr + 1) (poke (u32 addr) 0xFF s)

-- The outer loop, in chunks of 4 KB, by fuel.
unfoldable pub erase_chunks : ℕ → ℕ → ℕ → ℕ → Shadow → Shadow
erase_chunks zero off sz addr s = s
erase_chunks (suc fuel) off sz addr s =
    let chunk : ℕ = if ltb (sz - off) 4096 then sz - off else 4096 in
    let rest : Shadow = erase_chunks fuel (off + 4096) sz addr (erase_bytes chunk (addr + off) s) in
    if ltb off sz then rest else s

-- No sector has more than 32 chunks.
unfoldable pub flash_erase_sector : ℕ → Shadow → Status × Shadow
flash_erase_sector sector_start_addr s = elim (sector_index_for_addr sector_start_addr) [
  | none ↦ (err_range, s)
  | some idx ↦
      if get_or k_sector_start idx 0 == sector_start_addr
      then (ok, erase_chunks 33 0 (get_or k_sector_size idx 0) sector_start_addr s)
      else (err_range, s)
]

-- `if (s != FLASH_OK) return s`, and the next round.
unfoldable pub unless_failed : Status × Shadow → (Shadow → Status × Shadow) → Status × Shadow
unless_failed (ok, s) rest = rest s
unless_failed (e, s) rest = (e, s)

-- The `while (start < end)` loop, by fuel.
unfoldable pub erase_sectors : ℕ → ℕ → ℕ → Shadow → Status × Shadow
erase_sectors zero start end s = (err_range, s)
erase_sectors (suc fuel) start end s =
    if ltb start end
    then unless_failed (flash_erase_sector start s)
        (erase_sectors fuel (u32 (start + flash_sector_size start)) end)
    else (ok, s)

-- There are 12 sectors, so the thirteenth round finds the end or fails.
unfoldable pub flash_erase_range : ℕ → ℕ → Shadow → Status × Shadow
flash_erase_range addr size s =
    if size == 0 then (ok, s) else erase_sectors 13 (flash_sector_start addr) (u32 (addr + size)) s

-- The loop of `flash_program_bytes` at its running address.
unfoldable pub program_loop : ℕ → List ℕ → Shadow → Status × Shadow
program_loop addr [] s = (ok, s)
program_loop addr (d ∷ ds) s = elim (shadow_byte_ptr (u32 addr)) [
  | none ↦ (err_range, s)
  | some p ↦
      let s' : Shadow = store p d s in
      let rest : Status × Shadow = program_loop (addr + 1) ds s' in
      if load p s' == d then rest else (err_verify, s')
]

unfoldable pub flash_program_bytes : ℕ → List ℕ → Shadow → Status × Shadow
flash_program_bytes addr bs s = program_loop addr bs s

-- The bytes [addr, addr + n) all have a shadow.
unfoldable pub all_shadowed : ℕ → ℕ → Bool
all_shadowed zero addr = true
all_shadowed (suc n) addr = elim (shadow_byte_ptr (u32 addr)) [
  | none ↦ false
  | some p ↦ all_shadowed n (addr + 1)
]

-- The four stores are the loop of `flash_program_bytes`: its pointers were found above.
unfoldable pub flash_program_word : ℕ → ℕ → Shadow → Status × Shadow
flash_program_word addr value s =
    if low_bits addr 2 == 0
    then if all_shadowed 4 addr then program_loop addr (le32 value) s else (err_range, s)
    else (err_range, s)
