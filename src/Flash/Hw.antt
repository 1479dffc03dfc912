-- ===== src/Flash/Hw.antt =====
-- The hardware backend of bootloader/src/flash_driver.c, over a flash controller that is a
-- parameter. The watchdog kicks are left out.
pub mod Verified
pub mod Outside
pub mod Stored
pub mod Erase
pub mod Driver
pub mod Stm32
pub mod Parallelism
mod Tests
use secure_boot_loader_with.Base.{
  ℕ, zero, suc, ◌+◌, ◌*◌, List, [], ◌∷◌, Bool, true, false, ◌&&◌, not, ltb, ◌==◌, if◌then◌else◌,
  u32, low_bits, of_le32, bit_or, Option, none, some, get_or, length,
}
use secure_boot_loader_with.MemoryMap.{slot_size}
use secure_boot_loader_with.Flash.{
  Status, ok, err_busy, err_verify, err_range, err_locked, err_prog, is_ok, bytes_from, FlashDriver,
}
use secure_boot_loader_with.Flash.Sectors.{
  k_sector_start, k_sector_size, sector_index_for_addr, flash_sector_start, flash_sector_size,
}

-- FLASH_SR: BSY, and whether one of the bits of FLASH_SR_ERR_MASK is set.
pub record FlashSr : Type 0 where
  pub bsy : Bool
  pub err : Bool
  pub eop : Bool

-- FLASH_CR by its bit fields.
pub record FlashCr : Type 0 where
  pub pg : Bool
  pub ser : Bool
  pub snb : ℕ
  pub psize : ℕ
  pub strt : Bool
  pub lock : Bool
  pub others : ℕ

-- The controller and the memory behind it. A read of FLASH_SR may give another value each time.
pub record Controller : Type 1 where
  pub Hw : Type 0
  pub read_sr : Hw → FlashSr × Hw
  pub write_sr : FlashSr → Hw → Hw
  pub read_cr : Hw → FlashCr
  pub write_cr : FlashCr → Hw → Hw
  pub write_keyr : ℕ → Hw → Hw
  pub load8 : Hw → ℕ → ℕ
  pub store8 : ℕ → ℕ → Hw → Hw
  pub store32 : ℕ → ℕ → Hw → Hw

abbrev pub flash_key1 : ℕ
flash_key1 = 0x4567_0123

abbrev pub flash_key2 : ℕ
flash_key2 = 0xCDEF_89AB

abbrev pub flash_cr_psize_x32 : ℕ
flash_cr_psize_x32 = 2

-- `if (s != FLASH_OK) return s`, and what follows.
unfoldable pub and_then : {A : Type 0} → Status × A → (A → Status × A) → Status × A
and_then (ok, h) next = next h
and_then (e, h) next = (e, h)

module _ (C : Controller) where
  -- `FLASH_SR |= …` on the error bits, which a 1 clears.
  unfoldable pub clear_errors : C.Hw → C.Hw
  clear_errors h = let (sr, h') = C.read_sr h in C.write_sr (record sr { err = true }) h'

  -- The loop of `wait_busy`, by the polls left.
  unfoldable pub wait_poll : ℕ → C.Hw → Status × C.Hw
  wait_poll zero h = (err_busy, h)
  wait_poll (suc n) h =
      let (sr, h1) = C.read_sr h in
      let rest : Status × C.Hw = wait_poll n h1 in
      let (sr', h2) = C.read_sr h1 in
      if sr.bsy then rest else if sr'.err then (err_prog, clear_errors h2) else (ok, h2)

  unfoldable pub wait_busy : C.Hw → Status × C.Hw
  wait_busy h = wait_poll 5000000 h

  abbrev pub flash_ota_slot_span : ℕ
  flash_ota_slot_span = slot_size

  unfoldable pub flash_init : C.Hw → C.Hw
  flash_init h = let (sr, h') = C.read_sr h in C.write_sr (record sr { err = true; eop = true }) h'

  unfoldable pub flash_unlock : C.Hw → Status × C.Hw
  flash_unlock h =
      let h' : C.Hw = C.write_keyr flash_key2 (C.write_keyr flash_key1 h) in
      if (C.read_cr h).lock
      then if (C.read_cr h').lock then (err_locked, h') else (ok, h')
      else (ok, h)

  unfoldable pub flash_lock : C.Hw → C.Hw
  flash_lock h = C.write_cr (record (C.read_cr h) { lock = true }) h

  -- The `n` bytes from an address on are erased.
  unfoldable pub all_erased : ℕ → ℕ → C.Hw → Bool
  all_erased zero addr h = true
  all_erased (suc n) addr h =
      let rest : Bool = all_erased n (addr + 1) h in
      if C.load8 h (u32 addr) == 0xFF then rest else false

  -- What follows the unlock in `flash_erase_sector`.
  unfoldable pub erase_unlocked : ℕ → ℕ → C.Hw → Status × C.Hw
  erase_unlocked idx start h =
      let cr0 : FlashCr = C.read_cr h in
      let cr : FlashCr = record cr0 {
        pg = false;
        ser = true;
        snb = idx;
        psize = bit_or cr0.psize flash_cr_psize_x32;
      } in
      let (s, h1) = wait_busy (C.write_cr (record cr { strt = true }) (C.write_cr cr h)) in
      let h2 : C.Hw = C.write_cr (record (C.read_cr h1) { ser = false; snb = 0 }) h1 in
      if is_ok s
      then if all_erased (get_or k_sector_size idx 0) start h2 then (ok, h2) else (err_verify, h2)
      else (s, h2)

  unfoldable pub flash_erase_sector : ℕ → C.Hw → Status × C.Hw
  flash_erase_sector start h = elim (sector_index_for_addr start) [
    | none ↦ (err_range, h)
    | some idx ↦
        if get_or k_sector_start idx 0 == start
        then and_then (and_then (wait_busy h) flash_unlock) (erase_unlocked idx start)
        else (err_range, h)
  ]

  -- The `while (start < end)` loop, by fuel.
  unfoldable pub erase_sectors : ℕ → ℕ → ℕ → C.Hw → Status × C.Hw
  erase_sectors zero start end h = (err_range, h)
  erase_sectors (suc fuel) start end h =
      if ltb start end
      then and_then (flash_erase_sector start h)
          (erase_sectors fuel (u32 (start + flash_sector_size start)) end)
      else (ok, h)

  unfoldable pub flash_erase_range : ℕ → ℕ → C.Hw → Status × C.Hw
  flash_erase_range addr size h =
      if size == 0
      then (ok, h)
      else erase_sectors 13 (flash_sector_start addr) (u32 (addr + size)) h

  unfoldable pub load32 : C.Hw → ℕ → ℕ
  load32 h addr =
      of_le32 (C.load8 h addr) (C.load8 h (u32 (addr + 1))) (C.load8 h (u32 (addr + 2)))
        (C.load8 h (u32 (addr + 3)))

  -- What follows the unlock in `flash_program_word`.
  unfoldable pub word_unlocked : ℕ → ℕ → C.Hw → Status × C.Hw
  word_unlocked addr value h =
      let cr : FlashCr = C.read_cr h in
      let h1 : C.Hw =
        C.write_cr
          (record cr { ser = false; pg = true; psize = bit_or cr.psize flash_cr_psize_x32 }) h in
      let (s, h2) = wait_busy (C.store32 addr value h1) in
      let h3 : C.Hw = C.write_cr (record (C.read_cr h2) { pg = false }) h2 in
      if is_ok s && not (load32 h3 addr == value) then (err_verify, h3) else (s, h3)

  unfoldable pub flash_program_word : ℕ → ℕ → C.Hw → Status × C.Hw
  flash_program_word addr value h =
      if low_bits addr 2 == 0
      then and_then (and_then (wait_busy h) flash_unlock) (word_unlocked addr value)
      else (err_range, h)

  -- `if (s != FLASH_OK) { flash_lock(); return s; }`, and what follows.
  unfoldable pub or_lock : Status × C.Hw → (C.Hw → Status × C.Hw) → Status × C.Hw
  or_lock (ok, h) next = next h
  or_lock (e, h) next = (e, flash_lock h)

  -- What follows the first wait for a byte; `next` is the rest of the loop.
  unfoldable pub byte_ready : ℕ → ℕ → (C.Hw → Status × C.Hw) → C.Hw → Status × C.Hw
  byte_ready addr d next h =
      let h1 : C.Hw = C.write_cr (record (C.read_cr h) { ser = false; pg = true }) h in
      let (s, h2) = wait_busy (C.store8 addr d h1) in
      let h3 : C.Hw = C.write_cr (record (C.read_cr h2) { pg = false }) h2 in
      or_lock (if is_ok s && not (C.load8 h3 addr == d) then err_verify else s, h3) next

  -- The byte phase, at its running address.
  unfoldable pub byte_phase : ℕ → List ℕ → C.Hw → Status × C.Hw
  byte_phase addr [] h = (ok, flash_lock h)
  byte_phase addr (d ∷ ds) h =
      or_lock (wait_busy h) (byte_ready (u32 addr) d (byte_phase (addr + 1) ds))

  -- The word phase, and the byte phase behind it.
  unfoldable pub word_phase : ℕ → List ℕ → C.Hw → Status × C.Hw
  word_phase addr (a ∷ b ∷ c ∷ d ∷ ds) h =
      if low_bits addr 2 == 0
      then or_lock (flash_program_word (u32 addr) (of_le32 a b c d) h) (word_phase (addr + 4) ds)
      else byte_phase addr (a ∷ b ∷ c ∷ d ∷ ds) h
  word_phase addr bs h = byte_phase addr bs h

  unfoldable pub flash_program_bytes : ℕ → List ℕ → C.Hw → Status × C.Hw
  flash_program_bytes addr bs h = and_then (flash_unlock h) (word_phase addr bs)

  abbrev pub hw_driver : FlashDriver
  hw_driver = record {
    Mem = C.Hw;
    byte_at = C.load8;
    bus_at = C.load8;
    flash_init = flash_init;
    flash_read = λ a n h. (ok, bytes_from (C.load8 h) a n);
    flash_erase_range = flash_erase_range;
    flash_program_word = flash_program_word;
    flash_program_bytes = flash_program_bytes;
    flash_ota_slot_span = flash_ota_slot_span;
  }
