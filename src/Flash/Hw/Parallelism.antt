-- ===== src/Flash/Hw/Parallelism.antt =====
-- What becomes of the parallelism (PSIZE) in the hardware backend of
-- bootloader/src/flash_driver.c: the byte phase of `flash_program_bytes` leaves it as it is.
use secure_boot_loader_with.Base.{
  ℕ, ◌+◌, ◌%◌, ◌≡◌, ◌≢◌, inl, inr, refl, ap, ◌∙◌, sym, arith, List, [], ◌∷◌, true, false, ◌==◌, u32,
  low_bits, of_le32, length, Bool-cases,
}
use secure_boot_loader_with.Flash.{Status, ok}
use secure_boot_loader_with.Flash.Hw.{
  Controller, FlashCr, wait_busy, flash_unlock, flash_erase_sector, flash_program_word, or_lock,
  byte_ready, byte_phase, word_phase, flash_program_bytes,
}
use secure_boot_loader_with.Flash.Hw.Verified.{and_then_ok}
use secure_boot_loader_with.Flash.Hw.Stm32.{
  IsStm32, IsOpen, IsUsual, wait_keeps, wait_fails, unlock_opens, program_word_leaves,
  erase_sector_leaves,
}
use secure_boot_loader_with.Flash.Hw.Verified.{or_lock_ok, verified_ok}

module _ (C : Controller) (L : IsStm32 C) where
  -- A byte that is programmed while PSIZE is x32 fails.
  byte_ready_fails :
      (addr d : ℕ) (next : C.Hw → Status × C.Hw) (h : C.Hw)
      → IsOpen C L 2 h
      → (byte_ready C addr d next h).0 ≢ ok
  unfolding byte_ready
  byte_ready_fails addr d next h (wide, free) e =
      let cr : FlashCr = record (C.read_cr h) { ser = false; pg = true } in
      let h1 : C.Hw = C.write_cr cr h in
      let (pg1, p1, _) = L.cr_written cr h free in
      wait_fails C L (C.store8 addr d h1) (L.byte_stored addr d h1 pg1 (p1 ∙ wide))
        (verified_ok C _ _ (or_lock_ok C _ next e).0)

  byte_phase_fails :
      (addr d : ℕ) (ds : List ℕ) (h : C.Hw) → IsOpen C L 2 h → (byte_phase C addr (d ∷ ds) h).0 ≢ ok
  unfolding byte_phase
  byte_phase_fails addr d ds h (wide, free) e =
      let (pw, lw) = wait_keeps C L h in
      let next = byte_ready C (u32 addr) d (byte_phase C (addr + 1) ds) in
      byte_ready_fails (u32 addr) d (byte_phase C (addr + 1) ds) (wait_busy C h).1
        (pw ∙ wide, lw ∙ free)
        (ap (λ (r : Status × C.Hw). r.0) (sym (or_lock_ok C (wait_busy C h) next e).1) ∙ e)

  word_phase_fails :
      (addr : ℕ) (bs : List ℕ) (h : C.Hw)
      → IsOpen C L 2 h
      → length bs % 4 ≢ 0
      → (word_phase C addr bs h).0 ≢ ok
  unfolding word_phase
  word_phase_fails addr [] h o n e = n refl
  word_phase_fails addr (a ∷ []) h o n e = byte_phase_fails addr a [] h o e
  word_phase_fails addr (a ∷ b ∷ []) h o n e = byte_phase_fails addr a (b ∷ []) h o e
  word_phase_fails addr (a ∷ b ∷ c ∷ []) h o n e = byte_phase_fails addr a (b ∷ c ∷ []) h o e
  word_phase_fails addr (a ∷ b ∷ c ∷ d ∷ ds) h o n e = elim (Bool-cases (low_bits addr 2 == 0)) [
    | inr odd ↦ byte_phase_fails addr a (b ∷ c ∷ d ∷ ds) h o (
        ap (λ (r : Status × C.Hw). r.0) {x = byte_phase C addr (a ∷ b ∷ c ∷ d ∷ ds) h}
          {y = word_phase C addr (a ∷ b ∷ c ∷ d ∷ ds) h} (rw odd refl)
        ∙ e)
    | inl even ↦
        let word = flash_program_word C (u32 addr) (of_le32 a b c d) h in
        let run : word_phase C addr (a ∷ b ∷ c ∷ d ∷ ds) h
            ≡ or_lock C word (word_phase C (addr + 4) ds) =
          rw even refl in
        let (worked, last) =
          or_lock_ok C word (word_phase C (addr + 4) ds)
            (ap (λ (r : Status × C.Hw). r.0) (sym run) ∙ e) in
        word_phase_fails (addr + 4) ds word.1
          (program_word_leaves C L (u32 addr) (of_le32 a b c d) h o worked)
          (λ z. n (omega (arith, z))) (ap (λ (r : Status × C.Hw). r.0) (sym last ∙ sym run) ∙ e)
  ]

  -- On an STM32F4, once a sector was erased, `flash_program_bytes` does not succeed for data whose
  -- length is not a multiple of 4, if PSIZE was x8, as after a reset, or x32 before the erase.
  pub program_tail_fails :
      (start addr : ℕ) (bs : List ℕ) (h : C.Hw)
      → IsUsual C L h
      → (flash_erase_sector C start h).0 ≡ ok
      → length bs % 4 ≢ 0
      → (flash_program_bytes C addr bs (flash_erase_sector C start h).1).0 ≢ ok
  unfolding flash_program_bytes
  program_tail_fails start addr bs h usual erased n e =
      let (wide, free) = erase_sector_leaves C L start h usual erased in
      let h1 : C.Hw = (flash_erase_sector C start h).1 in
      let (opened, run) = and_then_ok C (flash_unlock C h1) (word_phase C addr bs) e in
      let (p, l) = unlock_opens C L h1 opened in
      word_phase_fails addr bs (flash_unlock C h1).1 (p ∙ wide, l) n
        (ap (λ (r : Status × C.Hw). r.0) (sym run) ∙ e)
