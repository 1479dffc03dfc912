-- ===== src/Flash/Sim/Kept.antt =====
-- The magic of the shadow of the QEMU_FLASH_SIM backend of bootloader/src/flash_driver.c: what the
-- driver writes keeps it, so the shadow is taken over by the next `flash_init`.
use secure_boot_loader_with.Base.{
  le32, ℕ, zero, suc, ◌+◌, ◌-◌, ◌≡◌, refl, ◌∙◌, List, [], ◌∷◌, arith, ltb, if◌then◌else◌, u32,
  Bool-cases, Option-cases, inl, inr, get_or,
}
use secure_boot_loader_with.Flash.{
  Status, ok, err_busy, err_verify, err_range, err_locked, err_prog, err_write_protected,
}
use secure_boot_loader_with.Flash.Sectors.{
  sector_index_for_addr, flash_sector_start, flash_sector_size, k_sector_size,
}
use secure_boot_loader_with.Flash.Sim.{
  Shadow, Cell, in_config, in_slot_a, in_slot_b, shadow_byte_ptr, store, poke, erase_bytes,
  erase_chunks, flash_erase_sector, unless_failed, erase_sectors, flash_erase_range, program_loop,
  flash_program_bytes, flash_program_word, flash_init, qemu_shadow_magic,
}

store_magic : (p : Cell) (v : ℕ) (s : Shadow) → (store p v s).magic ≡ s.magic
unfolding store
store_magic (in_config i) v s = refl
store_magic (in_slot_a i) v s = refl
store_magic (in_slot_b i) v s = refl

poke_magic : (a v : ℕ) (s : Shadow) → (poke a v s).magic ≡ s.magic
unfolding poke
poke_magic a v s = elim (Option-cases (shadow_byte_ptr a)) [
  | inl e ↦ rw (poke, e) refl
  | inr (p, e) ↦ rw (poke, e) (store_magic p v s)
]

erase_bytes_magic : (n a : ℕ) (s : Shadow) → (erase_bytes n a s).magic ≡ s.magic
unfolding erase_bytes
erase_bytes_magic zero a s = refl
erase_bytes_magic (suc n) a s =
    erase_bytes_magic n (a + 1) (poke (u32 a) 0xFF s) ∙ poke_magic (u32 a) 0xFF s

erase_chunks_magic :
    (fuel off sz a : ℕ) (s : Shadow) → (erase_chunks fuel off sz a s).magic ≡ s.magic
unfolding erase_chunks
erase_chunks_magic zero off sz a s = refl
erase_chunks_magic (suc fuel) off sz a s =
    let chunk : ℕ = if ltb (sz - off) 4096 then sz - off else 4096 in
    elim (Bool-cases (ltb off sz)) [
      | inl e ↦ rw e (
          erase_chunks_magic fuel (off + 4096) sz a (erase_bytes chunk (a + off) s)
          ∙ erase_bytes_magic chunk (a + off) s)
      | inr e ↦ rw e refl
    ]

erase_sector_magic : (a : ℕ) (s : Shadow) → (flash_erase_sector a s).1.magic ≡ s.magic
unfolding flash_erase_sector
erase_sector_magic a s = elim (Option-cases (sector_index_for_addr a)) [
  | inl e ↦ rw (flash_erase_sector, e) refl
  | inr (idx, e) ↦
      rw (flash_erase_sector, e)
        (ground (arith, erase_chunks_magic 33 0 (get_or k_sector_size idx 0) a s))
]

unless_failed_magic :
    (r : Status × Shadow) (rest : Shadow → Status × Shadow)
    → ((t : Shadow) → (rest t).1.magic ≡ t.magic)
    → (unless_failed r rest).1.magic ≡ r.1.magic
unfolding unless_failed
unless_failed_magic (ok, s) rest h = h s
unless_failed_magic (err_busy, s) rest h = refl
unless_failed_magic (err_verify, s) rest h = refl
unless_failed_magic (err_range, s) rest h = refl
unless_failed_magic (err_locked, s) rest h = refl
unless_failed_magic (err_prog, s) rest h = refl
unless_failed_magic (err_write_protected, s) rest h = refl

erase_sectors_magic :
    (fuel start end : ℕ) (s : Shadow) → (erase_sectors fuel start end s).1.magic ≡ s.magic
unfolding erase_sectors
erase_sectors_magic zero start end s = refl
erase_sectors_magic (suc fuel) start end s =
    let next : ℕ = u32 (start + flash_sector_size start) in
    ground (
      arith,
      unless_failed_magic (flash_erase_sector start s) (erase_sectors fuel next end)
            (λ t. erase_sectors_magic fuel next end t)
          ∙ erase_sector_magic start s,
    )

pub erase_range_magic : (a n : ℕ) (s : Shadow) → (flash_erase_range a n s).1.magic ≡ s.magic
unfolding flash_erase_range
erase_range_magic a n s =
    ground (arith, erase_sectors_magic 13 (flash_sector_start a) (u32 (a + n)) s)

program_loop_magic : (a : ℕ) (bs : List ℕ) (s : Shadow) → (program_loop a bs s).1.magic ≡ s.magic
unfolding program_loop
program_loop_magic a [] s = refl
program_loop_magic a (b ∷ bs) s = elim (Option-cases (shadow_byte_ptr (u32 a))) [
  | inl e ↦ rw (program_loop, e) refl
  | inr (p, e) ↦
      rw (program_loop, e)
        (ground (arith, store_magic p b s, program_loop_magic (a + 1) bs (store p b s)))
]

pub program_bytes_magic :
    (a : ℕ) (bs : List ℕ) (s : Shadow) → (flash_program_bytes a bs s).1.magic ≡ s.magic
unfolding flash_program_bytes
program_bytes_magic a bs s = program_loop_magic a bs s

pub program_word_magic : (a w : ℕ) (s : Shadow) → (flash_program_word a w s).1.magic ≡ s.magic
unfolding flash_program_word
program_word_magic a w s = ground (arith, program_loop_magic a (le32 w) s)

pub init_magic : (s : Shadow) → (flash_init s).magic ≡ qemu_shadow_magic
unfolding flash_init
init_magic s = ground arith

pub init_kept : (s : Shadow) → s.magic ≡ qemu_shadow_magic → flash_init s ≡ s
unfolding flash_init
init_kept s h = rw h refl
