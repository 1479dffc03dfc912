-- ===== src/Flash/Hw/Outside.antt =====
-- The hardware backend of bootloader/src/flash_driver.c touches no byte outside its range, on a
-- controller that does what its manual says of the memory.
use secure_boot_loader_with.Base.{
  ℕ, zero, suc, ◌+◌, ◌^◌, ◌<◌, ◌≤◌, ◌≡◌, ◌≢◌, ◌⊎◌, inl, inr, refl, ◌∙◌, sym, arith, List, [], ◌∷◌,
  true, false, ◌==◌, u32, low_bits, of_le32, length, bit_or, Bool-cases, Option-cases, get_or, some,
}
use secure_boot_loader_with.Flash.{
  Status, ok, err_busy, err_verify, err_range, err_locked, err_prog, err_write_protected,
}
use secure_boot_loader_with.Flash.Sectors.{
  k_sector_start, k_sector_size, sector_index_for_addr, flash_sector_size,
}
use secure_boot_loader_with.Flash.Hw.{
  Controller, FlashSr, FlashCr, flash_key1, flash_key2, flash_cr_psize_x32, and_then, clear_errors,
  wait_poll, wait_busy, flash_unlock, flash_lock, flash_init, erase_unlocked, flash_erase_sector,
  word_unlocked, flash_program_word, or_lock, byte_ready, byte_phase, word_phase,
  flash_program_bytes,
}
use secure_boot_loader_with.Flash.Hw.Verified.{sector_found, sector_missing, size_found}

-- The address is not in the sector with this number.
abbrev pub OutsideSector : ℕ → ℕ → Type 0
OutsideSector snb x =
    (x < get_or k_sector_start snb 0)
    ⊎ (get_or k_sector_start snb 0 + get_or k_sector_size snb 0 ≤ x)

-- What the reference manual of the STM32F4 says of the memory behind the registers, as long as the
-- bits of CR that the driver does not name, the mass erase among them, are written as they are
-- read: SR and KEYR do not change it; CR does only when STRT is set, and with SER set too, only in the
-- sector SNB; a store changes at most the bytes it is to. STRT reads as 0, because the flash clears
-- it at the end of an erase and the processor, which runs from the same flash, stalls until then.
pub record IsController (C : Controller) : Type 0 where
  pub load8-lt : (h : C.Hw) (x : ℕ) → C.load8 h x < 2 ^ 8
  pub sr_read : (h : C.Hw) (x : ℕ) → C.load8 (C.read_sr h).1 x ≡ C.load8 h x
  pub sr_written : (sr : FlashSr) (h : C.Hw) (x : ℕ) → C.load8 (C.write_sr sr h) x ≡ C.load8 h x
  pub key_written : (k : ℕ) (h : C.Hw) (x : ℕ) → C.load8 (C.write_keyr k h) x ≡ C.load8 h x
  pub cr_written :
      (cr : FlashCr) (h : C.Hw) (x : ℕ)
      → cr.others ≡ (C.read_cr h).others
      → (cr.strt ≡ false) ⊎ ((cr.ser ≡ true) × (cr.snb < 12) × OutsideSector cr.snb x)
      → C.load8 (C.write_cr cr h) x ≡ C.load8 h x
  pub others_written :
      (cr : FlashCr) (h : C.Hw)
      → cr.others ≡ (C.read_cr h).others
      → (C.read_cr (C.write_cr cr h)).others ≡ (C.read_cr h).others
  pub strt_read : (h : C.Hw) → (C.read_cr h).strt ≡ false
  pub byte_stored : (a v : ℕ) (h : C.Hw) (x : ℕ) → x ≢ a → C.load8 (C.store8 a v h) x ≡ C.load8 h x
  pub word_stored :
      (a v : ℕ) (h : C.Hw) (x : ℕ)
      → (x < a) ⊎ (a + 4 ≤ x)
      → C.load8 (C.store32 a v h) x ≡ C.load8 h x

module _ (C : Controller) (L : IsController C) (x : ℕ) where
  abbrev Keeps : C.Hw → C.Hw → Type 0
  Keeps h h' = C.load8 h' x ≡ C.load8 h x

  -- A write of CR that sets neither STRT nor a bit that the driver does not name.
  cr-Keeps :
      (cr : FlashCr) (h : C.Hw)
      → cr.others ≡ (C.read_cr h).others
      → cr.strt ≡ (C.read_cr h).strt
      → Keeps h (C.write_cr cr h)
  cr-Keeps cr h o s = L.cr_written cr h x o (inl (s ∙ L.strt_read h))

  lock-Keeps : (h : C.Hw) → Keeps h (flash_lock C h)
  unfolding flash_lock
  lock-Keeps h = cr-Keeps (record (C.read_cr h) { lock = true }) h refl refl

  pub init-Keeps : (h : C.Hw) → Keeps h (flash_init C h)
  unfolding flash_init
  init-Keeps h =
      let (sr, h') = C.read_sr h in
      L.sr_written (record sr { err = true; eop = true }) h' x ∙ L.sr_read h x

  poll-Keeps : (n : ℕ) (h : C.Hw) → Keeps h (wait_poll C n h).1
  unfolding wait_poll clear_errors
  poll-Keeps zero h = refl
  poll-Keeps (suc n) h =
      let (sr, h1) = C.read_sr h in
      let (sr', h2) = C.read_sr h1 in
      let (sr'', h3) = C.read_sr h2 in
      let twice : Keeps h h2 = L.sr_read h1 x ∙ L.sr_read h x in
      elim (Bool-cases sr.bsy) [
        | inl e ↦ rw e (poll-Keeps n h1 ∙ L.sr_read h x)
        | inr e ↦ elim (Bool-cases sr'.err) [
          | inl e' ↦
              rw (e, e') (L.sr_written (record sr'' { err = true }) h3 x ∙ L.sr_read h2 x ∙ twice)
          | inr e' ↦ rw (e, e') twice
        ]
      ]

  wait-Keeps : (h : C.Hw) → Keeps h (wait_busy C h).1
  unfolding wait_busy
  wait-Keeps h = poll-Keeps 5000000 h

  unlock-Keeps : (h : C.Hw) → Keeps h (flash_unlock C h).1
  unfolding flash_unlock
  unlock-Keeps h =
      let h1 : C.Hw = C.write_keyr flash_key1 h in
      let keys : Keeps h (C.write_keyr flash_key2 h1) =
        L.key_written flash_key2 h1 x ∙ L.key_written flash_key1 h x in
      elim (Bool-cases (C.read_cr h).lock) [
        | inr free ↦ rw free refl
        | inl shut ↦ elim (Bool-cases (C.read_cr (C.write_keyr flash_key2 h1)).lock) [
          | inr e ↦ rw (shut, e) keys
          | inl e ↦ rw (shut, e) keys
        ]
      ]

  pub then-Keeps :
      (r : Status × C.Hw) (next : C.Hw → Status × C.Hw)
      → Keeps r.1 (next r.1).1
      → Keeps r.1 (and_then r next).1
  unfolding and_then
  then-Keeps (ok, h) next k = k
  then-Keeps (err_busy, h) next k = refl
  then-Keeps (err_verify, h) next k = refl
  then-Keeps (err_range, h) next k = refl
  then-Keeps (err_locked, h) next k = refl
  then-Keeps (err_prog, h) next k = refl
  then-Keeps (err_write_protected, h) next k = refl

  or_lock-Keeps :
      (r : Status × C.Hw) (next : C.Hw → Status × C.Hw)
      → Keeps r.1 (next r.1).1
      → Keeps r.1 (or_lock C r next).1
  unfolding or_lock
  or_lock-Keeps (ok, h) next k = k
  or_lock-Keeps (err_busy, h) next k = lock-Keeps h
  or_lock-Keeps (err_verify, h) next k = lock-Keeps h
  or_lock-Keeps (err_range, h) next k = lock-Keeps h
  or_lock-Keeps (err_locked, h) next k = lock-Keeps h
  or_lock-Keeps (err_prog, h) next k = lock-Keeps h
  or_lock-Keeps (err_write_protected, h) next k = lock-Keeps h

  -- The wait and the unlock before an erase or a word.
  ready-Keeps : (h : C.Hw) → Keeps h (and_then (wait_busy C h) (flash_unlock C)).1
  ready-Keeps h =
      then-Keeps (wait_busy C h) (flash_unlock C) (unlock-Keeps (wait_busy C h).1) ∙ wait-Keeps h

  erase_unlocked-Keeps :
      (idx start : ℕ) (h : C.Hw)
      → idx < 12
      → OutsideSector idx x
      → Keeps h (erase_unlocked C idx start h).1
  unfolding erase_unlocked
  erase_unlocked-Keeps idx start h few out =
      let cr0 : FlashCr = C.read_cr h in
      let cr : FlashCr = record cr0 {
        pg = false;
        ser = true;
        snb = idx;
        psize = bit_or cr0.psize flash_cr_psize_x32;
      } in
      let h1 : C.Hw = C.write_cr cr h in
      let go : FlashCr = record cr { strt = true } in
      let begun : C.Hw = C.write_cr go h1 in
      let h2 : C.Hw = (wait_busy C begun).1 in
      let all =
        cr-Keeps (record (C.read_cr h2) { ser = false; snb = 0 }) h2 refl refl
        ∙ wait-Keeps begun
        ∙ L.cr_written go h1 x (sym (L.others_written cr h refl)) (inr (refl, few, out))
        ∙ cr-Keeps cr h refl refl in
      ground (arith, all)

  word_unlocked-Keeps :
      (addr value : ℕ) (h : C.Hw)
      → (x < addr) ⊎ (addr + 4 ≤ x)
      → Keeps h (word_unlocked C addr value h).1
  unfolding word_unlocked
  word_unlocked-Keeps addr value h out =
      let cr : FlashCr = C.read_cr h in
      let cr1 : FlashCr = record cr {
        ser = false;
        pg = true;
        psize = bit_or cr.psize flash_cr_psize_x32;
      } in
      let h1 : C.Hw = C.write_cr cr1 h in
      let stored : C.Hw = C.store32 addr value h1 in
      let h2 : C.Hw = (wait_busy C stored).1 in
      let all =
        cr-Keeps (record (C.read_cr h2) { pg = false }) h2 refl refl
        ∙ wait-Keeps stored
        ∙ L.word_stored addr value h1 x out
        ∙ cr-Keeps cr1 h refl refl in
      ground (arith, all)

  pub program_word-Keeps :
      (addr value : ℕ) (h : C.Hw)
      → (x < addr) ⊎ (addr + 4 ≤ x)
      → Keeps h (flash_program_word C addr value h).1
  unfolding flash_program_word
  program_word-Keeps addr value h out = elim (Bool-cases (low_bits addr 2 == 0)) [
    | inr odd ↦ rw odd refl
    | inl even ↦
        let ready = and_then (wait_busy C h) (flash_unlock C) in
        rw even (
          then-Keeps ready (word_unlocked C addr value) (word_unlocked-Keeps addr value ready.1 out)
          ∙ ready-Keeps h)
  ]

  byte_ready-Keeps :
      (addr d : ℕ) (next : C.Hw → Status × C.Hw) (h : C.Hw)
      → x ≢ addr
      → ((h' : C.Hw) → Keeps h' (next h').1)
      → Keeps h (byte_ready C addr d next h).1
  unfolding byte_ready
  byte_ready-Keeps addr d next h out k =
      let cr : FlashCr = record (C.read_cr h) { ser = false; pg = true } in
      let h1 : C.Hw = C.write_cr cr h in
      let stored : C.Hw = C.store8 addr d h1 in
      let h2 : C.Hw = (wait_busy C stored).1 in
      or_lock-Keeps _ next (k _)
      ∙ cr-Keeps (record (C.read_cr h2) { pg = false }) h2 refl refl
      ∙ wait-Keeps stored
      ∙ L.byte_stored addr d h1 x out
      ∙ cr-Keeps cr h refl refl

  pub byte_phase-Keeps :
      (addr : ℕ) (bs : List ℕ) (h : C.Hw)
      → addr + length bs ≤ 2 ^ 32
      → (x < addr) ⊎ (addr + length bs ≤ x)
      → Keeps h (byte_phase C addr bs h).1
  unfolding byte_phase
  byte_phase-Keeps addr [] h room out = lock-Keeps h
  byte_phase-Keeps addr (d ∷ ds) h room out =
      or_lock-Keeps (wait_busy C h) (byte_ready C (u32 addr) d (byte_phase C (addr + 1) ds)) (
        byte_ready-Keeps (u32 addr) d (byte_phase C (addr + 1) ds) (wait_busy C h).1
          (λ e. omega (arith, e, out, room))
          (λ h'. byte_phase-Keeps (addr + 1) ds h' (omega arith) (omega (arith, out))))
      ∙ wait-Keeps h

  pub word_phase-Keeps :
      (addr : ℕ) (bs : List ℕ) (h : C.Hw)
      → addr + length bs ≤ 2 ^ 32
      → (x < addr) ⊎ (addr + length bs ≤ x)
      → Keeps h (word_phase C addr bs h).1
  unfolding word_phase
  word_phase-Keeps addr [] h room out = byte_phase-Keeps addr [] h room out
  word_phase-Keeps addr (a ∷ []) h room out = byte_phase-Keeps addr (a ∷ []) h room out
  word_phase-Keeps addr (a ∷ b ∷ []) h room out = byte_phase-Keeps addr (a ∷ b ∷ []) h room out
  word_phase-Keeps addr (a ∷ b ∷ c ∷ []) h room out =
      byte_phase-Keeps addr (a ∷ b ∷ c ∷ []) h room out
  word_phase-Keeps addr (a ∷ b ∷ c ∷ d ∷ ds) h room out = elim (Bool-cases (low_bits addr 2 == 0)) [
    | inr odd ↦ rw odd (byte_phase-Keeps addr (a ∷ b ∷ c ∷ d ∷ ds) h room out)
    | inl even ↦
        let word = flash_program_word C (u32 addr) (of_le32 a b c d) h in
        rw even (
          or_lock-Keeps word (word_phase C (addr + 4) ds)
            (word_phase-Keeps (addr + 4) ds word.1 (omega arith) (omega (arith, out)))
          ∙ program_word-Keeps (u32 addr) (of_le32 a b c d) h (omega (arith, out, room)))
  ]

  pub program_bytes-Keeps :
      (addr : ℕ) (bs : List ℕ) (h : C.Hw)
      → addr + length bs ≤ 2 ^ 32
      → (x < addr) ⊎ (addr + length bs ≤ x)
      → Keeps h (flash_program_bytes C addr bs h).1
  unfolding flash_program_bytes
  program_bytes-Keeps addr bs h room out =
      then-Keeps (flash_unlock C h) (word_phase C addr bs)
        (word_phase-Keeps addr bs (flash_unlock C h).1 room out)
      ∙ unlock-Keeps h

  index_few : (start idx : ℕ) → sector_index_for_addr start ≡ some idx → idx < 12
  unfolding sector_index_for_addr
  index_few start idx found = ground arith

  pub erase_sector-Keeps :
      (start : ℕ) (h : C.Hw)
      → (x < start) ⊎ (start + flash_sector_size start ≤ x)
      → Keeps h (flash_erase_sector C start h).1
  erase_sector-Keeps start h out = elim (Option-cases (sector_index_for_addr start)) [
    | inl missing ↦ rw (sector_missing C start h missing) refl
    | inr (idx, found) ↦ elim (Bool-cases (get_or k_sector_start idx 0 == start)) [
      | inr other ↦ rw (sector_found C start idx h found, other) refl
      | inl same ↦
          let ready = and_then (wait_busy C h) (flash_unlock C) in
          let size = size_found C start idx found in
          rw (sector_found C start idx h found, same)
            (then-Keeps ready (erase_unlocked C idx start) (
                erase_unlocked-Keeps idx start ready.1 (index_few start idx found)
                  (ground (arith, same, size, out)))
              ∙ ready-Keeps h)
    ]
  ]
