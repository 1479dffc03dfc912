-- ===== src/Flash/Hw/Tests.antt =====
-- The theorems on the hardware backend at a controller that is never busy and stores what it is told.
use secure_boot_loader_with.Base.{
  u8, ℕ, ◌+◌, ◌-◌, ◌≡◌, ◌≢◌, ◌⊎◌, inl, inr, refl, arith, Bool, true, false, not, ◌&&◌, leb, ltb,
  ◌==◌, if◌then◌else◌, [], ◌∷◌, get_or, le32,
}
use secure_boot_loader_with.Flash.{ok, err_locked}
use secure_boot_loader_with.Flash.Sectors.{sector_index_for_addr, k_sector_start, k_sector_size}
use secure_boot_loader_with.Flash.Hw.{
  Controller, FlashCr, flash_unlock, flash_program_bytes, flash_erase_sector, and_then, wait_busy,
  wait_poll, erase_unlocked, all_erased,
}
use secure_boot_loader_with.Flash.Hw.Verified.{Locked, program_bytes_relocks}
use secure_boot_loader_with.Flash.Hw.Outside.{IsController, OutsideSector}
use secure_boot_loader_with.Flash.Hw.Driver.{hw_driver-IsFlash}
use secure_boot_loader_with.Flash.{IsFlash}
use secure_boot_loader_with.Flash.Hw.{hw_driver}
use secure_boot_loader_with.Flash.Hw.Stm32.{IsStm32}
use secure_boot_loader_with.Flash.Hw.Parallelism.{program_tail_fails}

-- CR, the error flags and the memory. An erase takes effect at once, a locked CR is not written, the
-- key sequence opens it, and what is programmed with another PSIZE than its width is an error.
record Example : Type 0 where
  cr : FlashCr
  err : Bool
  mem : ℕ → ℕ

abbrev erase : ℕ → (ℕ → ℕ) → ℕ → ℕ
erase idx mem x =
    let start : ℕ = get_or k_sector_start idx 0 in
    if leb start x && ltb x (start + get_or k_sector_size idx 0) then 0xFF else mem x

-- Whether a program of this width fails.
abbrev refused : ℕ → Example → Bool
refused psize h = not (h.cr.pg && h.cr.psize == psize)

abbrev example_controller : Controller
example_controller = record {
  Hw = Example;
  read_sr = λ h. (record { bsy = false; err = h.err; eop = false }, h);
  write_sr = λ sr h. record h { err = not sr.err && h.err };
  read_cr = λ h. record (h.cr) { strt = false };
  write_cr = λ cr h. record h {
    cr = if h.cr.lock then h.cr else record cr { strt = false };
    mem = if not h.cr.lock && cr.strt && cr.ser then erase cr.snb h.mem else h.mem;
  };
  write_keyr = λ k h. record h { cr = record (h.cr) { lock = false } };
  load8 = λ h a. u8 (h.mem a);
  store8 = λ a v h. record h {
    err = if refused 0 h then true else h.err;
    mem = λ x. if not (refused 0 h) && x == a then v else h.mem x;
  };
  store32 = λ a v h. record h {
    err = if refused 2 h then true else h.err;
    mem = λ x.
        if not (refused 2 h) && leb a x && ltb x (a + 4)
        then get_or (le32 v) (x - a) 0
        else h.mem x;
  };
}

example_controller-IsStm32 : IsStm32 example_controller
example_controller-IsStm32 = record {
  cr_written = λ cr h free. rw free (refl, refl, refl);
  sr_read = λ h. (refl, refl);
  sr_written = λ sr h. (refl, refl);
  word_stored = λ a v h. (refl, refl);
  key_written = λ k h. refl;
  HasError = λ h. h.err ≡ true;
  error_read = λ h e. (e, e);
  byte_stored = λ a v h pg wide. rw (pg, wide) refl;
}

erase_outside : (idx : ℕ) (mem : ℕ → ℕ) (x : ℕ) → OutsideSector idx x → erase idx mem x ≡ mem x
erase_outside idx mem x out = ground (arith, out)

example_controller-IsController : IsController example_controller
example_controller-IsController = record {
  load8-lt = λ h x. omega arith;
  sr_read = λ h x. refl;
  sr_written = λ sr h x. refl;
  key_written = λ k h x. refl;
  cr_written = λ cr h x o s. elim s [
    | inl idle ↦ rw idle (ground arith)
    | inr (ser, few, out) ↦ ground (arith, erase_outside cr.snb h.mem x out)
  ];
  others_written = λ cr h o. ground (arith, o);
  strt_read = λ h. refl;
  byte_stored = λ a v h x out. ground (arith, out);
  word_stored = λ a v h x out. ground (arith, out);
}

hw_driver-IsFlash_example : IsFlash (hw_driver example_controller)
hw_driver-IsFlash_example = hw_driver-IsFlash example_controller example_controller-IsController

abbrev locked : Example
locked = record {
  cr = record {
    pg = false;
    ser = false;
    snb = 0;
    psize = 0;
    strt = false;
    lock = true;
    others = 0;
  };
  err = false;
  mem = λ x. 0xAB;
}

program_bytes_relocks_example :
    Locked example_controller
      (flash_program_bytes example_controller 0x0801_0000 (1 ∷ 2 ∷ 3 ∷ 4 ∷ 5 ∷ []) locked).1
    ⊎ (flash_program_bytes example_controller 0x0801_0000 (1 ∷ 2 ∷ 3 ∷ 4 ∷ 5 ∷ []) locked
        ≡ (err_locked, (flash_unlock example_controller locked).1))
program_bytes_relocks_example =
    program_bytes_relocks example_controller 0x0801_0000 (1 ∷ 2 ∷ 3 ∷ 4 ∷ 5 ∷ []) locked

sector_succeeds : (flash_erase_sector example_controller 0x0800_4000 locked).0 ≡ ok
unfolding flash_erase_sector and_then wait_busy wait_poll flash_unlock erase_unlocked all_erased
    sector_index_for_addr
sector_succeeds = refl

program_tail_fails_example :
    (flash_program_bytes example_controller 0x0800_4000
      (1 ∷ 2 ∷ 3 ∷ 4 ∷ 5 ∷ [])
      (flash_erase_sector example_controller 0x0800_4000 locked).1).0
    ≢ ok
program_tail_fails_example =
    program_tail_fails example_controller example_controller-IsStm32 0x0800_4000 0x0800_4000
      (1 ∷ 2 ∷ 3 ∷ 4 ∷ 5 ∷ []) locked (inl refl) sector_succeeds (λ e. omega (arith, e))
