-- ===== src/Flash.antt =====
-- bootloader/include/flash_driver.h: the interface that the rest of the bootloader sees, and what
-- a backend owes it.
pub mod Sectors
pub mod Bytes
pub mod Sim
pub mod Hw
mod Tests
use secure_boot_loader_with.MemoryMap.{
  boot_config_addr, boot_config_size, slot_a_addr, slot_b_addr, slot_size,
}
use Sectors.{flash_sector_start}
use secure_boot_loader_with.Base.{
  ℕ, zero, suc, ◌+◌, ◌^◌, ◌≤◌, ◌<◌, ◌≡◌, refl, ◌⊎◌, List, [], ◌∷◌, Bool, true, false, u32, length,
  IsBytes, le32,
}

-- `flash_status_t`; `FLASH_OK` is `ok`.
pub data Status : Type 0 where
  ok err_busy err_verify err_range err_locked err_prog err_write_protected : Status

abbrev pub is_ok : Status → Bool
is_ok ok = true
is_ok _ = false

pub is_ok_lem : (s : Status) → is_ok s ≡ true → s ≡ ok
is_ok_lem ok h = refl
is_ok_lem _ h = cc

-- A backend: its state, and the functions of flash_driver.h that the other files call. `byte_at`
-- is the byte that a read of the driver gives, `bus_at` what the processor loads at an address.
pub record FlashDriver : Type 1 where
  pub Mem : Type 0
  pub byte_at : Mem → ℕ → ℕ
  pub bus_at : Mem → ℕ → ℕ
  pub flash_init : Mem → Mem
  pub flash_read : ℕ → ℕ → Mem → Status × List ℕ
  pub flash_erase_range : ℕ → ℕ → Mem → Status × Mem
  pub flash_program_word : ℕ → ℕ → Mem → Status × Mem
  pub flash_program_bytes : ℕ → List ℕ → Mem → Status × Mem
  pub flash_ota_slot_span : ℕ

-- The addresses that every backend lets the bootloader write: the boot configuration, and the
-- part of each slot that OTA uses.
abbrev pub InWindow : ℕ → ℕ → Type 0
InWindow span x =
    ((boot_config_addr ≤ x) × (x < boot_config_addr + boot_config_size))
    ⊎ ((slot_a_addr ≤ x) × (x < slot_a_addr + span))
    ⊎ ((slot_b_addr ≤ x) × (x < slot_b_addr + span))

-- The `n` bytes from an address on. Addresses are `uint32_t`.
unfoldable pub bytes_from : (ℕ → ℕ) → ℕ → ℕ → List ℕ
bytes_from get addr zero = []
bytes_from get addr (suc n) = get (u32 addr) ∷ bytes_from get (addr + 1) n

-- What a backend owes its callers. A read never fails; a program call that succeeds has stored its
-- bytes and, failed or not, touches nothing outside its range; an erase that succeeds has erased
-- every sector that the range meets, where it can be written, and touches no other sector.
pub record IsFlash (D : FlashDriver) : Type 0 where
  pub read_lem : (a n : ℕ) (m : D.Mem) → D.flash_read a n m ≡ (ok, bytes_from (D.byte_at m) a n)
  pub byte_at-lt : (m : D.Mem) (x : ℕ) → D.byte_at m x < 2 ^ 8
  pub span-le : D.flash_ota_slot_span ≤ slot_size
  pub span-ge : 2 ^ 15 ≤ D.flash_ota_slot_span
  pub program_bytes-outside :
      (a : ℕ) (bs : List ℕ) (m : D.Mem) (x : ℕ)
      → a + length bs ≤ 2 ^ 32
      → (x < a) ⊎ (a + length bs ≤ x)
      → D.byte_at (D.flash_program_bytes a bs m).1 x ≡ D.byte_at m x
  pub program_bytes-ok :
      (a : ℕ) (bs : List ℕ) (m : D.Mem)
      → a + length bs ≤ 2 ^ 32
      → (D.flash_program_bytes a bs m).0 ≡ ok
      → IsBytes bs
      → bytes_from (D.byte_at (D.flash_program_bytes a bs m).1) a (length bs) ≡ bs
  pub program_word-outside :
      (a w : ℕ) (m : D.Mem) (x : ℕ)
      → a + 4 ≤ 2 ^ 32
      → (x < a) ⊎ (a + 4 ≤ x)
      → D.byte_at (D.flash_program_word a w m).1 x ≡ D.byte_at m x
  pub program_word-ok :
      (a w : ℕ) (m : D.Mem)
      → a + 4 ≤ 2 ^ 32
      → (D.flash_program_word a w m).0 ≡ ok
      → bytes_from (D.byte_at (D.flash_program_word a w m).1) a 4 ≡ le32 w
  pub erase_range-outside :
      (a n : ℕ) (m : D.Mem) (x : ℕ)
      → a + n < 2 ^ 32
      → (x < flash_sector_start a) ⊎ (a + n ≤ flash_sector_start x) ⊎ (0x0810_0000 ≤ x)
      → D.byte_at (D.flash_erase_range a n m).1 x ≡ D.byte_at m x
  pub erase_range-inside :
      (a n : ℕ) (m : D.Mem) (x : ℕ)
      → a + n < 2 ^ 32
      → 0 < n
      → (D.flash_erase_range a n m).0 ≡ ok
      → flash_sector_start a ≤ x
      → flash_sector_start x < a + n
      → x < 0x0810_0000
      → InWindow D.flash_ota_slot_span x
      → D.byte_at (D.flash_erase_range a n m).1 x ≡ 0xFF
