-- ===== src/Flash/Hw/Stored.antt =====
-- What the hardware backend of bootloader/src/flash_driver.c reports as a success has happened, on a
-- controller that does what its manual says of the memory.
use mathlib.Core.Path.{ap₂}
use secure_boot_loader_with.Base.{
  ℕ, suc, ◌+◌, ◌^◌, ◌≤◌, ◌≡◌, inl, inr, refl, ap, ◌∙◌, sym, arith, List, [], ◌∷◌, true, false, ◌&&◌,
  not, ◌==◌, if◌then◌else◌, u32, low_bits, of_le32, le32, length, IsBytes, Bool-cases,
}
use secure_boot_loader_with.Flash.{Status, ok, err_verify, is_ok, bytes_from}
use secure_boot_loader_with.Flash.Bytes.{bytes_from-add, bytes_from-eq}
use secure_boot_loader_with.FirmwareFormat.Layout.{word_bytes}
use secure_boot_loader_with.Flash.Hw.{
  Controller, wait_busy, flash_unlock, load32, flash_program_word, or_lock, byte_ready, byte_phase,
  word_phase, flash_program_bytes,
}
use secure_boot_loader_with.Flash.Hw.Verified.{and_then_ok, program_word_verified, or_lock_ok}
use secure_boot_loader_with.Flash.Hw.Outside.{IsController, byte_phase-Keeps, word_phase-Keeps}

module _ (C : Controller) (L : IsController C) where
  four_bytes :
      (get : ℕ → ℕ) (a : ℕ)
      → bytes_from get a 4
        ≡ get (u32 a) ∷ get (u32 (a + 1)) ∷ get (u32 (a + 2)) ∷ get (u32 (a + 3)) ∷ []
  unfolding bytes_from
  four_bytes get a =
      let three : a + 1 + 1 + 1 ≡ a + 3 = omega arith in
      let two : a + 1 + 1 ≡ a + 2 = omega arith in rw (three, two) refl

  -- A word in memory is its four bytes.
  word_is_bytes :
      (addr value : ℕ) (h : C.Hw)
      → addr + 4 ≤ 2 ^ 32
      → load32 C h addr ≡ value
      → bytes_from (C.load8 h) addr 4 ≡ le32 value
  unfolding load32
  word_is_bytes addr value h room e =
      let same : u32 addr ≡ addr = omega arith in
      four_bytes (C.load8 h) addr
      ∙ rw same (
          sym (
            word_bytes (C.load8 h addr) (C.load8 h (u32 (addr + 1))) (C.load8 h (u32 (addr + 2)))
              (C.load8 h (u32 (addr + 3))) (L.load8-lt h _) (L.load8-lt h _) (L.load8-lt h _)
              (L.load8-lt h _)))
      ∙ ap le32 e

  pub program_word-stores :
      (addr value : ℕ) (h : C.Hw)
      → addr + 4 ≤ 2 ^ 32
      → (flash_program_word C addr value h).0 ≡ ok
      → bytes_from (C.load8 (flash_program_word C addr value h).1) addr 4 ≡ le32 value
  program_word-stores addr value h room e =
      word_is_bytes addr value _ room (program_word_verified C addr value h e).0

  -- A byte whose step succeeds stands in memory when the rest of the loop begins.
  byte_ready_ok :
      (addr d : ℕ) (next : C.Hw → Status × C.Hw) (h : C.Hw)
      → (byte_ready C addr d next h).0 ≡ ok
      → (mid : C.Hw) × (C.load8 mid addr ≡ d) × (byte_ready C addr d next h ≡ next mid)
  unfolding byte_ready
  byte_ready_ok addr d next h e =
      let h1 : C.Hw = C.write_cr (record (C.read_cr h) { ser = false; pg = true }) h in
      let (s, h2) = wait_busy C (C.store8 addr d h1) in
      let h3 : C.Hw = C.write_cr (record (C.read_cr h2) { pg = false }) h2 in
      let (worked, run) = or_lock_ok C _ next e in (h3, read_back s (C.load8 h3 addr) worked, run)
    where
      read_back :
          (s : Status) (v : ℕ) → (if is_ok s && not (v == d) then err_verify else s) ≡ ok → v ≡ d
      read_back s v w = ground arith

  byte_phase-stores :
      (addr : ℕ) (bs : List ℕ) (h : C.Hw)
      → addr + length bs ≤ 2 ^ 32
      → (byte_phase C addr bs h).0 ≡ ok
      → bytes_from (C.load8 (byte_phase C addr bs h).1) addr (length bs) ≡ bs
  unfolding byte_phase bytes_from
  byte_phase-stores addr [] h room e = refl
  byte_phase-stores addr (d ∷ ds) h room e =
      let rest = byte_phase C (addr + 1) ds in
      let (_, first) = or_lock_ok C (wait_busy C h) (byte_ready C (u32 addr) d rest) e in
      let (mid, stored, second) =
        byte_ready_ok (u32 addr) d rest (wait_busy C h).1
          (ap (λ (r : Status × C.Hw). r.0) (sym first) ∙ e) in
      let run = first ∙ second in
      ap (λ (r : Status × C.Hw). bytes_from (C.load8 r.1) addr (suc (length ds))) run
      ∙ ap₂ ◌∷◌
          (byte_phase-Keeps C L (u32 addr) (addr + 1) ds mid (omega arith) (inl (omega arith))
            ∙ stored)
          (byte_phase-stores (addr + 1) ds mid (omega arith)
            (ap (λ (r : Status × C.Hw). r.0) (sym run) ∙ e))

  word_phase-stores :
      (addr : ℕ) (bs : List ℕ) (h : C.Hw)
      → addr + length bs ≤ 2 ^ 32
      → IsBytes bs
      → (word_phase C addr bs h).0 ≡ ok
      → bytes_from (C.load8 (word_phase C addr bs h).1) addr (length bs) ≡ bs
  unfolding word_phase
  word_phase-stores addr [] h room b e = byte_phase-stores addr [] h room e
  word_phase-stores addr (a ∷ []) h room b e = byte_phase-stores addr (a ∷ []) h room e
  word_phase-stores addr (a ∷ b ∷ []) h room p e = byte_phase-stores addr (a ∷ b ∷ []) h room e
  word_phase-stores addr (a ∷ b ∷ c ∷ []) h room p e =
      byte_phase-stores addr (a ∷ b ∷ c ∷ []) h room e
  word_phase-stores addr (a ∷ b ∷ c ∷ d ∷ ds) h room p e =
      elim (Bool-cases (low_bits addr 2 == 0)) [
        | inr odd ↦
            let run : word_phase C addr (a ∷ b ∷ c ∷ d ∷ ds) h
                ≡ byte_phase C addr (a ∷ b ∷ c ∷ d ∷ ds) h =
              rw odd refl in
            rw run (
              byte_phase-stores addr (a ∷ b ∷ c ∷ d ∷ ds) h room
                (ap (λ (r : Status × C.Hw). r.0) (sym run) ∙ e))
        | inl even ↦
            let word = flash_program_word C (u32 addr) (of_le32 a b c d) h in
            let rest = word_phase C (addr + 4) ds in
            let first : word_phase C addr (a ∷ b ∷ c ∷ d ∷ ds) h ≡ or_lock C word rest =
              rw even refl in
            let (worked, second) =
              or_lock_ok C word rest (ap (λ (r : Status × C.Hw). r.0) (sym first) ∙ e) in
            let run = first ∙ second in
            let (pa, p1) = p in
            let (pb, p2) = p1 in
            let (pc, p3) = p2 in
            let (pd, pds) = p3 in
            let head =
              bytes_from-eq (C.load8 (rest word.1).1) (C.load8 word.1) addr 4 (omega arith)
                (λ x lo hi.
                  word_phase-Keeps C L x (addr + 4) ds word.1 (omega arith) (inl (omega arith))) in
            let four =
              ap (λ (t : ℕ). bytes_from (C.load8 word.1) t 4) {x = addr} {y = u32 addr}
                (omega arith)
              ∙ program_word-stores (u32 addr) (of_le32 a b c d) h (omega arith) worked
              ∙ word_bytes a b c d pa pb pc pd in
            rw run (
              bytes_from-add (C.load8 (rest word.1).1) addr 4 (length ds)
                (suc (suc (suc (suc (length ds))))) (omega arith)
              ∙ rw
                  (
                    head ∙ four,
                    word_phase-stores (addr + 4) ds word.1 (omega arith) pds
                        (ap (λ (r : Status × C.Hw). r.0) (sym run) ∙ e),
                  )
                  refl)
      ]

  pub program_bytes-stores :
      (addr : ℕ) (bs : List ℕ) (h : C.Hw)
      → addr + length bs ≤ 2 ^ 32
      → (flash_program_bytes C addr bs h).0 ≡ ok
      → IsBytes bs
      → bytes_from (C.load8 (flash_program_bytes C addr bs h).1) addr (length bs) ≡ bs
  unfolding flash_program_bytes
  program_bytes-stores addr bs h room e b =
      let (_, run) = and_then_ok C (flash_unlock C h) (word_phase C addr bs) e in
      rw run (
        word_phase-stores addr bs (flash_unlock C h).1 room b
          (ap (λ (r : Status × C.Hw). r.0) (sym run) ∙ e))
