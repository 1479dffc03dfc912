-- ===== src/Flash/Sectors.antt =====
-- The sector table of bootloader/src/flash_driver.c, which both backends use.
use secure_boot_loader_with.Base.{
  ℕ, zero, suc, ◌+◌, ◌*◌, ◌≤◌, ◌<◌, ◌≡◌, ◌≢◌, List, [], ◌∷◌, Option, none, some, get_or, leb,
  if◌then◌else◌, arith,
}

abbrev pub k_sector_start : List ℕ
k_sector_start =
    0x0800_0000 ∷ 0x0800_4000 ∷ 0x0800_8000 ∷ 0x0800_C000 ∷ 0x0801_0000 ∷ 0x0802_0000 ∷ 0x0804_0000
    ∷ 0x0806_0000 ∷ 0x0808_0000 ∷ 0x080A_0000 ∷ 0x080C_0000 ∷ 0x080E_0000 ∷ []

abbrev pub k_sector_size : List ℕ
k_sector_size =
    (16 * 1024)
    ∷ (16 * 1024)
    ∷ (16 * 1024)
    ∷ (16 * 1024)
    ∷ (64 * 1024)
    ∷ (128 * 1024)
    ∷ (128 * 1024)
    ∷ (128 * 1024)
    ∷ (128 * 1024)
    ∷ (128 * 1024)
    ∷ (128 * 1024)
    ∷ (128 * 1024)
    ∷ []

-- The loop counts `i` down; `zero` sectors left is the -1.
pub sector_index_from : ℕ → ℕ → Option ℕ
sector_index_from zero addr = none
sector_index_from (suc i) addr =
    if leb (get_or k_sector_start i 0) addr then some i else sector_index_from i addr

unfoldable pub sector_index_for_addr : ℕ → Option ℕ
unfolding sector_index_from
sector_index_for_addr addr = sector_index_from 12 addr

unfoldable pub flash_sector_start : ℕ → ℕ
unfolding sector_index_for_addr
flash_sector_start addr = elim (sector_index_for_addr addr) [
  | none ↦ 0
  | some i ↦ get_or k_sector_start i 0
]

unfoldable pub flash_sector_size : ℕ → ℕ
unfolding sector_index_for_addr
flash_sector_size addr = elim (sector_index_for_addr addr) [
  | none ↦ 0
  | some i ↦ get_or k_sector_size i 0
]

-- Every flash address lies in the sector that is found for it, and the sectors tile the flash: the
-- end of one is the start of the next or the end of the flash.
pub sector_contains :
    (addr : ℕ)
    → 0x0800_0000 ≤ addr
    → addr < 0x0810_0000
    → (flash_sector_start addr ≤ addr) × (addr < flash_sector_start addr + flash_sector_size addr)
unfolding flash_sector_start flash_sector_size
sector_contains addr lo hi = (ground arith, ground arith)

pub sector_next :
    (addr : ℕ)
    → 0x0800_0000 ≤ addr
    → addr < 0x080E_0000
    → let next = flash_sector_start addr + flash_sector_size addr in flash_sector_start next ≡ next
unfolding flash_sector_start flash_sector_size
sector_next addr lo hi = ground arith

pub sector_mono : (x y : ℕ) → x ≤ y → flash_sector_start x ≤ flash_sector_start y
unfolding flash_sector_start
sector_mono x y h = ground arith

-- An address between a sector's start and its end lies in that sector.
pub sector_of :
    (start x : ℕ)
    → flash_sector_start start ≡ start
    → start ≤ x
    → x < start + flash_sector_size start
    → flash_sector_start x ≡ start
unfolding flash_sector_start flash_sector_size
sector_of start x e lo hi = ground arith

-- A sector has at most 32 chunks of 4 KB.
pub sector_size-le : (a : ℕ) → flash_sector_size a ≤ 32 * 4096
unfolding flash_sector_size
sector_size-le a = ground arith

pub sector_fits :
    (a : ℕ)
    → flash_sector_start a ≡ a
    → a ≢ 0
    → (0x0800_0000 ≤ a) × (a + flash_sector_size a ≤ 0x0810_0000)
unfolding flash_sector_start flash_sector_size
sector_fits a e h = (ground arith, ground arith)

pub sector_idem : (a : ℕ) → flash_sector_start (flash_sector_start a) ≡ flash_sector_start a
unfolding flash_sector_start
sector_idem a = ground arith

-- Behind the end of a sector another sector begins.
pub sector_behind :
    (start x : ℕ)
    → flash_sector_start start ≡ start
    → start ≢ 0
    → start + flash_sector_size start ≤ x
    → x < 0x0810_0000
    → start + flash_sector_size start ≤ flash_sector_start x
unfolding flash_sector_start flash_sector_size
sector_behind start x e pos p q = ground arith

pub sector_below : (addr : ℕ) → flash_sector_start addr ≤ addr
unfolding flash_sector_start
sector_below addr = ground arith
