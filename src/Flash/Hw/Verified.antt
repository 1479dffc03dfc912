-- ===== src/Flash/Hw/Verified.antt =====
-- What a success of the hardware backend of bootloader/src/flash_driver.c means, and that programming
-- locks the flash again.
use secure_boot_loader_with.Base.{
  ◌&&◌, if◌then◌else◌, Bool, ℕ, zero, suc, ◌+◌, ◌≤◌, ◌<◌, ◌^◌, ◌≡◌, ◌⊎◌, inl, inr, refl, ap, ◌∙◌,
  sym, subst, arith, List, [], ◌∷◌, true, ◌==◌, u32, low_bits, Bool-cases, Option-cases, get_or,
  dec_lt, none, some, ==_iff,
}
use secure_boot_loader_with.Flash.{
  is_ok, Status, ok, err_busy, err_verify, err_range, err_locked, err_prog, err_write_protected,
}
use secure_boot_loader_with.Flash.Sectors.{
  k_sector_start, k_sector_size, sector_index_for_addr, flash_sector_size,
}
use secure_boot_loader_with.Flash.Hw.{
  Controller, flash_key1, flash_key2, and_then, wait_busy, flash_unlock, flash_lock, all_erased,
  erase_unlocked, flash_erase_sector, load32, word_unlocked, flash_program_word, or_lock,
  byte_ready, byte_phase, word_phase, flash_program_bytes,
}

module _ (C : Controller) where
  -- The last access set LOCK.
  abbrev pub Locked : C.Hw → Type 0
  Locked h = (before : C.Hw) × (h ≡ flash_lock C before)

  or_lock-Locked :
      (r : Status × C.Hw) (next : C.Hw → Status × C.Hw)
      → ((h : C.Hw) → Locked (next h).1)
      → Locked (or_lock C r next).1
  unfolding or_lock
  or_lock-Locked (ok, h) next n = n h
  or_lock-Locked (err_busy, h) next n = (h, refl)
  or_lock-Locked (err_verify, h) next n = (h, refl)
  or_lock-Locked (err_range, h) next n = (h, refl)
  or_lock-Locked (err_locked, h) next n = (h, refl)
  or_lock-Locked (err_prog, h) next n = (h, refl)
  or_lock-Locked (err_write_protected, h) next n = (h, refl)

  byte_phase-Locked : (addr : ℕ) (bs : List ℕ) (h : C.Hw) → Locked (byte_phase C addr bs h).1
  unfolding byte_phase byte_ready
  byte_phase-Locked addr [] h = (h, refl)
  byte_phase-Locked addr (d ∷ ds) h =
      or_lock-Locked (wait_busy C h) (byte_ready C (u32 addr) d (byte_phase C (addr + 1) ds)) (λ h'.
        or_lock-Locked _ (byte_phase C (addr + 1) ds) (λ t. byte_phase-Locked (addr + 1) ds t))

  word_phase-Locked : (addr : ℕ) (bs : List ℕ) (h : C.Hw) → Locked (word_phase C addr bs h).1
  unfolding word_phase
  word_phase-Locked addr [] h = byte_phase-Locked addr [] h
  word_phase-Locked addr (a ∷ []) h = byte_phase-Locked addr (a ∷ []) h
  word_phase-Locked addr (a ∷ b ∷ []) h = byte_phase-Locked addr (a ∷ b ∷ []) h
  word_phase-Locked addr (a ∷ b ∷ c ∷ []) h = byte_phase-Locked addr (a ∷ b ∷ c ∷ []) h
  word_phase-Locked addr (a ∷ b ∷ c ∷ d ∷ ds) h = elim (Bool-cases (low_bits addr 2 == 0)) [
    | inl e ↦
        rw e
          (or_lock-Locked _ (word_phase C (addr + 4) ds) (λ t. word_phase-Locked (addr + 4) ds t))
    | inr e ↦ rw e (byte_phase-Locked addr (a ∷ b ∷ c ∷ d ∷ ds) h)
  ]

  -- Whatever the controller does, and on every path, the last access of `flash_program_bytes` sets
  -- LOCK, unless the key sequence did not open the flash at all.
  pub program_bytes_relocks :
      (addr : ℕ) (bs : List ℕ) (h : C.Hw)
      → Locked (flash_program_bytes C addr bs h).1
        ⊎ (flash_program_bytes C addr bs h ≡ (err_locked, (flash_unlock C h).1))
  unfolding flash_program_bytes and_then flash_unlock
  program_bytes_relocks addr bs h =
      let opened : C.Hw = C.write_keyr flash_key2 (C.write_keyr flash_key1 h) in
      elim (Bool-cases (C.read_cr h).lock) [
        | inr e ↦ inl (rw e (word_phase-Locked addr bs h))
        | inl e ↦ elim (Bool-cases (C.read_cr opened).lock) [
          | inr e' ↦ inl (rw (e, e') (word_phase-Locked addr bs opened))
          | inl e' ↦ inr (rw (e, e') refl)
        ]
      ]

  all_erased_lem :
      (n addr : ℕ) (h : C.Hw) (x : ℕ)
      → addr + n ≤ 2 ^ 32
      → all_erased C n addr h ≡ true
      → addr ≤ x
      → x < addr + n
      → C.load8 h x ≡ 0xFF
  unfolding all_erased
  all_erased_lem zero addr h x room e lo hi = absurd (omega arith)
  all_erased_lem (suc n) addr h x room e lo hi = elim (dec_lt addr x) [
    | yes more ↦
        all_erased_lem n (addr + 1) h x (omega arith) (ground arith) (omega arith) (omega arith)
    | no here ↦
        subst (λ (t : ℕ). C.load8 h t ≡ 0xFF) {x = u32 addr} {y = x} (omega arith) (ground arith)
  ]

  pub and_then_ok :
      {A : Type 0} (r : Status × A) (next : A → Status × A)
      → (and_then r next).0 ≡ ok
      → (r.0 ≡ ok) × (and_then r next ≡ next r.1)
  unfolding and_then
  and_then_ok (ok, h) next e = (refl, refl)
  and_then_ok (err_busy, h) next e = absurd cc
  and_then_ok (err_verify, h) next e = absurd cc
  and_then_ok (err_range, h) next e = absurd cc
  and_then_ok (err_locked, h) next e = absurd cc
  and_then_ok (err_prog, h) next e = absurd cc
  and_then_ok (err_write_protected, h) next e = absurd cc

  pub or_lock_ok :
      (r : Status × C.Hw) (next : C.Hw → Status × C.Hw)
      → (or_lock C r next).0 ≡ ok
      → (r.0 ≡ ok) × (or_lock C r next ≡ next r.1)
  unfolding or_lock
  or_lock_ok (ok, h) next e = (refl, refl)
  or_lock_ok (err_busy, h) next e = absurd cc
  or_lock_ok (err_verify, h) next e = absurd cc
  or_lock_ok (err_range, h) next e = absurd cc
  or_lock_ok (err_locked, h) next e = absurd cc
  or_lock_ok (err_prog, h) next e = absurd cc
  or_lock_ok (err_write_protected, h) next e = absurd cc

  -- A verification does not turn a failure into a success.
  pub verified_ok :
      (s : Status) (wrong : Bool) → (if is_ok s && wrong then err_verify else s) ≡ ok → s ≡ ok
  verified_ok s wrong e = ground arith

  erase_unlocked_lem :
      (idx start : ℕ) (h : C.Hw)
      → (erase_unlocked C idx start h).0 ≡ ok
      → all_erased C (get_or k_sector_size idx 0) start (erase_unlocked C idx start h).1 ≡ true
  unfolding erase_unlocked
  erase_unlocked_lem idx start h e = ground arith

  pub sector_found :
      (start idx : ℕ) (h : C.Hw)
      → sector_index_for_addr start ≡ some idx
      → flash_erase_sector C start h ≡ (
          if get_or k_sector_start idx 0 == start
          then and_then (and_then (wait_busy C h) (flash_unlock C)) (erase_unlocked C idx start)
          else (err_range, h))
  unfolding flash_erase_sector
  sector_found start idx h found = rw (flash_erase_sector, found) refl

  pub sector_missing :
      (start : ℕ) (h : C.Hw)
      → sector_index_for_addr start ≡ none
      → flash_erase_sector C start h ≡ (err_range, h)
  unfolding flash_erase_sector
  sector_missing start h missing = rw (flash_erase_sector, missing) refl

  pub size_found :
      (start idx : ℕ)
      → sector_index_for_addr start ≡ some idx
      → flash_sector_size start ≡ get_or k_sector_size idx 0
  unfolding flash_sector_size
  size_found start idx found = rw (flash_sector_size, found) refl

  -- A success comes from the last step of the erase.
  pub erase_ends :
      (start idx : ℕ) (h : C.Hw)
      → sector_index_for_addr start ≡ some idx
      → (flash_erase_sector C start h).0 ≡ ok
      → ((and_then (wait_busy C h) (flash_unlock C)).0 ≡ ok)
        × (flash_erase_sector C start h
            ≡ erase_unlocked C idx start (and_then (wait_busy C h) (flash_unlock C)).1)
  erase_ends start idx h found e = elim (Bool-cases (get_or k_sector_start idx 0 == start)) [
    | inr other ↦
        let run : flash_erase_sector C start h ≡ (err_range, h) =
          sector_found start idx h found ∙ rw other refl in
        absurd (ground arith)
    | inl same ↦
        let run : flash_erase_sector C start h
            ≡ and_then (and_then (wait_busy C h) (flash_unlock C)) (erase_unlocked C idx start) =
          sector_found start idx h found ∙ rw same refl in
        let (opened, last) =
          and_then_ok (and_then (wait_busy C h) (flash_unlock C)) (erase_unlocked C idx start)
            (ap (λ (r : Status × C.Hw). r.0) (sym run) ∙ e) in
        (opened, run ∙ last)
  ]

  -- An erase of a sector that succeeds has read every byte of it back as 0xFF, whatever the
  -- controller does.
  pub erase_sector_verified :
      (start : ℕ) (h : C.Hw) (x : ℕ)
      → (flash_erase_sector C start h).0 ≡ ok
      → start ≤ x
      → x < start + flash_sector_size start
      → start + flash_sector_size start ≤ 2 ^ 32
      → C.load8 (flash_erase_sector C start h).1 x ≡ 0xFF
  erase_sector_verified start h x e lo hi room = elim (Option-cases (sector_index_for_addr start)) [
    | inl missing ↦
        let run : flash_erase_sector C start h ≡ (err_range, h) = sector_missing start h missing in
        absurd (ground arith)
    | inr (idx, found) ↦
        let run = (erase_ends start idx h found e).1 in
        let size = size_found start idx found in
        ap (λ (r : Status × C.Hw). C.load8 r.1 x) run
        ∙ all_erased_lem (get_or k_sector_size idx 0) start _ x (omega (arith, size))
            (erase_unlocked_lem idx start (and_then (wait_busy C h) (flash_unlock C)).1
              (ap (λ (r : Status × C.Hw). r.0) (sym run) ∙ e))
            lo (omega (arith, size))
  ]

  word_unlocked_lem :
      (addr value : ℕ) (h : C.Hw)
      → (word_unlocked C addr value h).0 ≡ ok
      → load32 C (word_unlocked C addr value h).1 addr ≡ value
  unfolding word_unlocked
  word_unlocked_lem addr value h e = ground arith

  -- A word that was programmed with success reads back as what was written, whatever the controller
  -- does, and its address is a multiple of 4.
  pub program_word_verified :
      (addr value : ℕ) (h : C.Hw)
      → (flash_program_word C addr value h).0 ≡ ok
      → (load32 C (flash_program_word C addr value h).1 addr ≡ value) × (low_bits addr 2 ≡ 0)
  unfolding flash_program_word
  program_word_verified addr value h e = elim (Bool-cases (low_bits addr 2 == 0)) [
    | inr odd ↦ absurd (ground arith)
    | inl even ↦
        let run : flash_program_word C addr value h
            ≡ and_then (and_then (wait_busy C h) (flash_unlock C)) (word_unlocked C addr value) =
          rw even refl in
        let (opened, last) =
          and_then_ok (and_then (wait_busy C h) (flash_unlock C)) (word_unlocked C addr value)
            (ap (λ (r : Status × C.Hw). r.0) (sym run) ∙ e) in
        let ends : flash_program_word C addr value h
            ≡ word_unlocked C addr value (and_then (wait_busy C h) (flash_unlock C)).1 =
          run ∙ last in
        (
          ap (λ (r : Status × C.Hw). load32 C r.1 addr) ends
              ∙ word_unlocked_lem addr value (and_then (wait_busy C h) (flash_unlock C)).1
                  (ap (λ (r : Status × C.Hw). r.0) (sym ends) ∙ e),
          (==_iff (low_bits addr 2) 0).0 even,
        )
  ]
