-- ===== src/Flash/Sim/Erase.antt =====
-- Erasing: whole sectors, all of them that the range meets, and nothing else.
use secure_boot_loader_with.Base.{
  ℕ, zero, suc, ◌+◌, ◌-◌, ◌*◌, ◌^◌, ◌<◌, ◌≤◌, ◌≡◌, ◌≢◌, ◌⊎◌, inl, inr, refl, arith, u32, ltb,
  if◌then◌else◌, ℕ_discrete,
}
use secure_boot_loader_with.Flash.{ok}
use secure_boot_loader_with.Flash.Sectors.{
  flash_sector_start, flash_sector_size, sector_of, sector_mono, sector_size-le, sector_fits,
  sector_behind, sector_idem, sector_contains, sector_index_for_addr,
}
use secure_boot_loader_with.Flash.Sim.{
  Shadow, shadow_byte, poke, erase_bytes, erase_chunks, flash_erase_sector, erase_sectors,
  unless_failed, flash_erase_range,
}
use secure_boot_loader_with.Flash.Sim.Cells.{InShadow, shadow_byte-poke_ne, shadow_byte-poke_self}

erase_bytes-outside :
    (n a : ℕ) (s : Shadow) (x : ℕ)
    → a + n ≤ 2 ^ 32
    → (x < a) ⊎ (a + n ≤ x)
    → shadow_byte (erase_bytes n a s) x ≡ shadow_byte s x
unfolding erase_bytes
erase_bytes-outside zero a s x h o = refl
erase_bytes-outside (suc n) a s x h o = ground (
  arith,
  erase_bytes-outside n (a + 1) (poke (u32 a) 0xFF s) x,
  shadow_byte-poke_ne (u32 a) x 0xFF s,
)

erase_bytes-inside :
    (n a : ℕ) (s : Shadow) (x : ℕ)
    → a + n ≤ 2 ^ 32
    → a ≤ x
    → x < a + n
    → InShadow x
    → shadow_byte (erase_bytes n a s) x ≡ 0xFF
unfolding erase_bytes
erase_bytes-inside zero a s x h p q w = absurd (omega arith)
erase_bytes-inside (suc n) a s x h p q w = elim (ℕ_discrete a x) [
  | yes e ↦ ground (
    arith,
    erase_bytes-outside n (a + 1) (poke (u32 a) 0xFF s) x,
    shadow_byte-poke_self x 0xFF s w,
  )
  | no e ↦
      erase_bytes-inside n (a + 1) (poke (u32 a) 0xFF s) x (omega arith) (omega arith) (omega arith)
        w
]

erase_chunks-outside :
    (fuel off sz a : ℕ) (s : Shadow) (x : ℕ)
    → a + sz ≤ 2 ^ 32
    → (x < a + off) ⊎ (a + sz ≤ x)
    → shadow_byte (erase_chunks fuel off sz a s) x ≡ shadow_byte s x
unfolding erase_chunks
erase_chunks-outside zero off sz a s x h o = refl
erase_chunks-outside (suc fuel) off sz a s x h o =
    let chunk : ℕ = if ltb (sz - off) 4096 then sz - off else 4096 in
    ground (
      arith,
      erase_chunks-outside fuel (off + 4096) sz a (erase_bytes chunk (a + off) s) x,
      erase_bytes-outside chunk (a + off) s x,
    )

erase_chunks-inside :
    (fuel off sz a : ℕ) (s : Shadow) (x : ℕ)
    → a + sz ≤ 2 ^ 32
    → sz ≤ off + fuel * 4096
    → a + off ≤ x
    → x < a + sz
    → InShadow x
    → shadow_byte (erase_chunks fuel off sz a s) x ≡ 0xFF
unfolding erase_chunks
erase_chunks-inside zero off sz a s x h m p q w = absurd (omega arith)
erase_chunks-inside (suc fuel) off sz a s x h m p q w =
    let chunk : ℕ = if ltb (sz - off) 4096 then sz - off else 4096 in
    ground (
      arith,
      erase_chunks-outside fuel (off + 4096) sz a (erase_bytes chunk (a + off) s) x,
      erase_chunks-inside fuel (off + 4096) sz a (erase_bytes chunk (a + off) s) x,
      erase_bytes-inside chunk (a + off) s x,
    )

-- An erase of a sector fails and changes nothing, or runs over the whole sector.
pub flash_erase_sector_lem :
    (a : ℕ) (s : Shadow)
    → (((flash_erase_sector a s).0 ≢ ok) × ((flash_erase_sector a s).1 ≡ s))
      ⊎ (((flash_erase_sector a s).0 ≡ ok)
          × ((flash_erase_sector a s).1 ≡ erase_chunks 33 0 (flash_sector_size a) a s)
          × (flash_sector_start a ≡ a)
          × (a ≢ 0))
unfolding flash_erase_sector flash_sector_start flash_sector_size sector_index_for_addr
flash_erase_sector_lem a s = ground arith

module _ (end : ℕ) (x : ℕ) where
  erase_sectors-outside :
      (fuel start : ℕ) (s : Shadow)
      → (x < start) ⊎ (end ≤ flash_sector_start x) ⊎ (0x0810_0000 ≤ x)
      → shadow_byte (erase_sectors fuel start end s).1 x ≡ shadow_byte s x
  unfolding erase_sectors unless_failed
  erase_sectors-outside zero start s o = refl
  erase_sectors-outside (suc fuel) start s o = elim (flash_erase_sector_lem start s) [
    | inl (e, same) ↦ ground arith
    | inr (e, run, own, pos) ↦ ground (
      arith,
      sector_fits start own pos,
      sector_of start x own,
      erase_chunks-outside 33 0 (flash_sector_size start) start s x,
      erase_sectors-outside fuel (start + flash_sector_size start) (flash_erase_sector start s).1,
    )
  ]

  erase_sectors-inside :
      (fuel start : ℕ) (s : Shadow)
      → (erase_sectors fuel start end s).0 ≡ ok
      → start ≤ flash_sector_start x
      → flash_sector_start x ≤ x
      → flash_sector_start x < end
      → x < 0x0810_0000
      → InShadow x
      → shadow_byte (erase_sectors fuel start end s).1 x ≡ 0xFF
  unfolding erase_sectors unless_failed
  erase_sectors-inside zero start s e lo p q r w = cc
  erase_sectors-inside (suc fuel) start s e lo p q r w = elim (flash_erase_sector_lem start s) [
    | inl (f, same) ↦ ground arith
    | inr (f, run, own, pos) ↦ ground (
      arith,
      sector_fits start own pos,
      sector_behind start x own pos,
      sector_size-le start,
      erase_chunks-inside 33 0 (flash_sector_size start) start s x,
      erase_sectors-outside fuel (start + flash_sector_size start) (flash_erase_sector start s).1,
      erase_sectors-inside fuel (start + flash_sector_size start) (flash_erase_sector start s).1,
    )
  ]

pub flash_erase_range-outside :
    (a n : ℕ) (s : Shadow) (x : ℕ)
    → a + n < 2 ^ 32
    → (x < flash_sector_start a) ⊎ (a + n ≤ flash_sector_start x) ⊎ (0x0810_0000 ≤ x)
    → shadow_byte (flash_erase_range a n s).1 x ≡ shadow_byte s x
unfolding flash_erase_range
flash_erase_range-outside a n s x h o =
    ground (arith, erase_sectors-outside (a + n) x 13 (flash_sector_start a) s)

pub flash_erase_range-inside :
    (a n : ℕ) (s : Shadow) (x : ℕ)
    → a + n < 2 ^ 32
    → 0 < n
    → (flash_erase_range a n s).0 ≡ ok
    → flash_sector_start a ≤ x
    → flash_sector_start x < a + n
    → x < 0x0810_0000
    → InShadow x
    → shadow_byte (flash_erase_range a n s).1 x ≡ 0xFF
unfolding flash_erase_range
flash_erase_range-inside a n s x h pos e lo hi top w = ground (
  arith,
  sector_idem a,
  sector_mono (flash_sector_start a) x,
  sector_contains x,
  erase_sectors-inside (a + n) x 13 (flash_sector_start a) s,
)
