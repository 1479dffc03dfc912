-- ===== src/Flash/Hw/Stm32.antt =====
-- What the hardware backend of bootloader/src/flash_driver.c does to PSIZE on an STM32F4: an erase and
-- a word leave it at x32.
use secure_boot_loader_with.Base.{
  ℕ, zero, suc, ◌≡◌, ◌≢◌, ◌⊎◌, inl, inr, refl, ap, ◌∙◌, sym, arith, true, false, ◌==◌, low_bits,
  bit_or, Bool-cases, Option-cases,
}
use secure_boot_loader_with.Flash.{Status, ok, err_range}
use secure_boot_loader_with.Flash.Sectors.{sector_index_for_addr}
use secure_boot_loader_with.Flash.Hw.{
  Controller, FlashSr, FlashCr, flash_key1, flash_key2, and_then, clear_errors, wait_poll,
  wait_busy, flash_unlock, erase_unlocked, flash_erase_sector, word_unlocked, flash_program_word,
}
use secure_boot_loader_with.Flash.Hw.Verified.{and_then_ok, sector_missing, erase_ends}

-- What the reference manual of the STM32F4 says of PSIZE: an open CR keeps what is written to it,
-- accesses to other registers and to the flash leave PSIZE and LOCK alone, the key sequence leaves
-- PSIZE alone, and a byte that is programmed while PSIZE is x32 raises an error flag, which is read
-- until it is cleared.
pub record IsStm32 (C : Controller) : Type 1 where
  pub cr_written :
      (cr : FlashCr) (h : C.Hw)
      → (C.read_cr h).lock ≡ false
      → ((C.read_cr (C.write_cr cr h)).pg ≡ cr.pg)
        × ((C.read_cr (C.write_cr cr h)).psize ≡ cr.psize)
        × ((C.read_cr (C.write_cr cr h)).lock ≡ cr.lock)
  pub sr_read :
      (h : C.Hw)
      → ((C.read_cr (C.read_sr h).1).psize ≡ (C.read_cr h).psize)
        × ((C.read_cr (C.read_sr h).1).lock ≡ (C.read_cr h).lock)
  pub sr_written :
      (sr : FlashSr) (h : C.Hw)
      → ((C.read_cr (C.write_sr sr h)).psize ≡ (C.read_cr h).psize)
        × ((C.read_cr (C.write_sr sr h)).lock ≡ (C.read_cr h).lock)
  pub word_stored :
      (a v : ℕ) (h : C.Hw)
      → ((C.read_cr (C.store32 a v h)).psize ≡ (C.read_cr h).psize)
        × ((C.read_cr (C.store32 a v h)).lock ≡ (C.read_cr h).lock)
  pub key_written : (k : ℕ) (h : C.Hw) → (C.read_cr (C.write_keyr k h)).psize ≡ (C.read_cr h).psize
  pub HasError : C.Hw → Type 0
  pub error_read : (h : C.Hw) → HasError h → ((C.read_sr h).0.err ≡ true) × HasError (C.read_sr h).1
  pub byte_stored :
      (a v : ℕ) (h : C.Hw)
      → (C.read_cr h).pg ≡ true
      → (C.read_cr h).psize ≡ 2
      → HasError (C.store8 a v h)

module _ (C : Controller) (L : IsStm32 C) where
  -- CR is open, with this PSIZE.
  abbrev pub IsOpen : ℕ → C.Hw → Type 0
  IsOpen p h = ((C.read_cr h).psize ≡ p) × ((C.read_cr h).lock ≡ false)

  -- PSIZE is as after a reset, or as an erase or a word leaves it.
  abbrev pub IsUsual : C.Hw → Type 0
  IsUsual h = ((C.read_cr h).psize ≡ 0) ⊎ ((C.read_cr h).psize ≡ 2)

  wait_poll_keeps :
      (n : ℕ) (h : C.Hw)
      → ((C.read_cr (wait_poll C n h).1).psize ≡ (C.read_cr h).psize)
        × ((C.read_cr (wait_poll C n h).1).lock ≡ (C.read_cr h).lock)
  unfolding wait_poll clear_errors
  wait_poll_keeps zero h = (refl, refl)
  wait_poll_keeps (suc n) h =
      let (sr, h1) = C.read_sr h in
      let (sr', h2) = C.read_sr h1 in
      let (p1, l1) = L.sr_read h in
      let (p2, l2) = L.sr_read h1 in
      let (p3, l3) = L.sr_read h2 in
      elim (Bool-cases sr.bsy) [
        | inl e ↦ let (p, l) = wait_poll_keeps n h1 in rw e (p ∙ p1, l ∙ l1)
        | inr e ↦ elim (Bool-cases sr'.err) [
          | inl e' ↦
              let (p, l) =
                L.sr_written (record ((C.read_sr h2).0) { err = true }) (C.read_sr h2).1 in
              rw (e, e') (p ∙ p3 ∙ p2 ∙ p1, l ∙ l3 ∙ l2 ∙ l1)
          | inr e' ↦ rw (e, e') (p2 ∙ p1, l2 ∙ l1)
        ]
      ]

  pub wait_keeps :
      (h : C.Hw)
      → ((C.read_cr (wait_busy C h).1).psize ≡ (C.read_cr h).psize)
        × ((C.read_cr (wait_busy C h).1).lock ≡ (C.read_cr h).lock)
  unfolding wait_busy
  wait_keeps h = wait_poll_keeps 5000000 h

  -- A wait does not succeed while there is an error.
  poll_fails : (n : ℕ) (h : C.Hw) → L.HasError h → (wait_poll C n h).0 ≢ ok
  unfolding wait_poll
  poll_fails zero h b e = absurd cc
  poll_fails (suc n) h b e =
      let (_, b1) = L.error_read h b in
      let (set, _) = L.error_read (C.read_sr h).1 b1 in
      let later = poll_fails n (C.read_sr h).1 b1 in ground (arith, set, later)

  pub wait_fails : (h : C.Hw) → L.HasError h → (wait_busy C h).0 ≢ ok
  unfolding wait_busy
  wait_fails h b = poll_fails 5000000 h b

  pub unlock_opens :
      (h : C.Hw) → (flash_unlock C h).0 ≡ ok → IsOpen ((C.read_cr h).psize) (flash_unlock C h).1
  unfolding flash_unlock
  unlock_opens h e =
      let h1 : C.Hw = C.write_keyr flash_key1 h in
      let opened : C.Hw = C.write_keyr flash_key2 h1 in
      elim (Bool-cases (C.read_cr h).lock) [
        | inr free ↦ rw free (refl, free)
        | inl shut ↦ elim (Bool-cases (C.read_cr opened).lock) [
          | inr free ↦
              rw (shut, free) (L.key_written flash_key2 h1 ∙ L.key_written flash_key1 h, free)
          | inl shut' ↦ absurd (ground (arith, shut, shut'))
        ]
      ]

  -- What the wait and the unlock before an erase or a word leave.
  ready_opens :
      (h : C.Hw)
      → (and_then (wait_busy C h) (flash_unlock C)).0 ≡ ok
      → IsOpen ((C.read_cr h).psize) (and_then (wait_busy C h) (flash_unlock C)).1
  ready_opens h e =
      let (_, run) = and_then_ok C (wait_busy C h) (flash_unlock C) e in
      let (p, l) = unlock_opens (wait_busy C h).1 (ap (λ (r : Status × C.Hw). r.0) (sym run) ∙ e) in
      rw run (p ∙ (wait_keeps h).0, l)

  usual_wide : (p : ℕ) → (p ≡ 0) ⊎ (p ≡ 2) → bit_or p 2 ≡ 2
  usual_wide p (inl e) = rw e refl
  usual_wide p (inr e) = rw e refl

  -- After an open CR is written, and then the flash, the wait and the last write of CR.
  word_leaves :
      (addr value : ℕ) (h : C.Hw)
      → IsUsual h
      → (C.read_cr h).lock ≡ false
      → IsOpen 2 (word_unlocked C addr value h).1
  unfolding word_unlocked
  word_leaves addr value h usual free =
      let cr : FlashCr = record (C.read_cr h) {
        ser = false;
        pg = true;
        psize = bit_or (C.read_cr h).psize 2;
      } in
      let h1 : C.Hw = C.write_cr cr h in
      let h2 : C.Hw = (wait_busy C (C.store32 addr value h1)).1 in
      let (_, p1, l1) = L.cr_written cr h free in
      let (ps, ls) = L.word_stored addr value h1 in
      let (pw, lw) = wait_keeps (C.store32 addr value h1) in
      let free2 : (C.read_cr h2).lock ≡ false = lw ∙ ls ∙ l1 ∙ free in
      let (_, p3, l3) = L.cr_written (record (C.read_cr h2) { pg = false }) h2 free2 in
      ground (arith, p3 ∙ pw ∙ ps ∙ p1 ∙ usual_wide (C.read_cr h).psize usual, l3 ∙ free2)

  pub program_word_leaves :
      (addr value : ℕ) (h : C.Hw)
      → IsOpen 2 h
      → (flash_program_word C addr value h).0 ≡ ok
      → IsOpen 2 (flash_program_word C addr value h).1
  unfolding flash_program_word
  program_word_leaves addr value h (wide, free) e = elim (Bool-cases (low_bits addr 2 == 0)) [
    | inr odd ↦ absurd (ground arith)
    | inl even ↦
        let run : flash_program_word C addr value h
            ≡ and_then (and_then (wait_busy C h) (flash_unlock C)) (word_unlocked C addr value) =
          rw even refl in
        let (opened, last) =
          and_then_ok C (and_then (wait_busy C h) (flash_unlock C)) (word_unlocked C addr value)
            (ap (λ (r : Status × C.Hw). r.0) (sym run) ∙ e) in
        let (p, l) = ready_opens h opened in
        rw (run ∙ last)
          (word_leaves addr value (and_then (wait_busy C h) (flash_unlock C)).1 (inr (p ∙ wide)) l)
  ]

  -- An erase leaves CR open, with PSIZE at x32.
  erase_leaves :
      (idx start : ℕ) (h : C.Hw)
      → IsUsual h
      → (C.read_cr h).lock ≡ false
      → IsOpen 2 (erase_unlocked C idx start h).1
  unfolding erase_unlocked
  erase_leaves idx start h usual free =
      let cr0 : FlashCr = C.read_cr h in
      let cr : FlashCr = record cr0 {
        pg = false;
        ser = true;
        snb = idx;
        psize = bit_or cr0.psize 2;
      } in
      let h1 : C.Hw = C.write_cr cr h in
      let (_, p1, l1) = L.cr_written cr h free in
      let (_, p2, l2) = L.cr_written (record cr { strt = true }) h1 (l1 ∙ free) in
      let begun : C.Hw = C.write_cr (record cr { strt = true }) h1 in
      let (pw, lw) = wait_keeps begun in
      let h2 : C.Hw = (wait_busy C begun).1 in
      let (_, p3, l3) =
        L.cr_written (record (C.read_cr h2) { ser = false; snb = 0 }) h2 (lw ∙ l2 ∙ free) in
      ground (arith, p3 ∙ pw ∙ p2 ∙ usual_wide (C.read_cr h).psize usual, l3 ∙ lw ∙ l2 ∙ free)

  pub erase_sector_leaves :
      (start : ℕ) (h : C.Hw)
      → IsUsual h
      → (flash_erase_sector C start h).0 ≡ ok
      → IsOpen 2 (flash_erase_sector C start h).1
  erase_sector_leaves start h usual e = elim (Option-cases (sector_index_for_addr start)) [
    | inl missing ↦
        let run : flash_erase_sector C start h ≡ (err_range, h) =
          sector_missing C start h missing in
        absurd (ground arith)
    | inr (idx, found) ↦
        let (opened, run) = erase_ends C start idx h found e in
        let (p, l) = ready_opens h opened in
        rw run (
          erase_leaves idx start (and_then (wait_busy C h) (flash_unlock C)).1
            (elim usual [ inl u ↦ inl (p ∙ u) | inr u ↦ inr (p ∙ u) ]) l)
  ]
