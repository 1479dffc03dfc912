-- ===== src/Flash/Sim/Fuel.antt =====
-- The erase loops end: their rounds are enough.
use secure_boot_loader_with.Base.{
  ℕ, zero, suc, ◌+◌, ◌≤◌, ◌<◌, ◌≡◌, ◌≢◌, ◌⊎◌, leb, if◌then◌else◌, u32, arith, inl, inr,
}
use secure_boot_loader_with.Flash.Sectors.{flash_sector_start, flash_sector_size, sector_fits}
use secure_boot_loader_with.Flash.Sim.{
  Shadow, erase_sectors, flash_erase_sector, unless_failed, flash_erase_range,
}
use secure_boot_loader_with.Flash.Sim.Erase.{flash_erase_sector_lem}

-- How many sectors begin at an address or behind it.
unfoldable sectors_from : ℕ → ℕ
sectors_from a =
    if leb a 0x0800_0000
    then 12
    else if leb a 0x0800_4000
    then 11
    else if leb a 0x0800_8000
    then 10
    else if leb a 0x0800_C000
    then 9
    else if leb a 0x0801_0000
    then 8
    else if leb a 0x0802_0000
    then 7
    else if leb a 0x0804_0000
    then 6
    else if leb a 0x0806_0000
    then 5
    else if leb a 0x0808_0000
    then 4
    else if leb a 0x080A_0000
    then 3
    else if leb a 0x080C_0000
    then 2
    else if leb a 0x080E_0000
    then 1
    else 0

sectors_from-le : (a : ℕ) → sectors_from a ≤ 12
unfolding sectors_from
sectors_from-le a = ground arith

-- A sector's start, and its end.
sector_table :
    (a : ℕ)
    → flash_sector_start a ≡ a
    → a ≢ 0
    → ((a ≡ 0x0800_0000) × (a + flash_sector_size a ≡ 0x0800_4000))
      ⊎ ((a ≡ 0x0800_4000) × (a + flash_sector_size a ≡ 0x0800_8000))
      ⊎ ((a ≡ 0x0800_8000) × (a + flash_sector_size a ≡ 0x0800_C000))
      ⊎ ((a ≡ 0x0800_C000) × (a + flash_sector_size a ≡ 0x0801_0000))
      ⊎ ((a ≡ 0x0801_0000) × (a + flash_sector_size a ≡ 0x0802_0000))
      ⊎ ((a ≡ 0x0802_0000) × (a + flash_sector_size a ≡ 0x0804_0000))
      ⊎ ((a ≡ 0x0804_0000) × (a + flash_sector_size a ≡ 0x0806_0000))
      ⊎ ((a ≡ 0x0806_0000) × (a + flash_sector_size a ≡ 0x0808_0000))
      ⊎ ((a ≡ 0x0808_0000) × (a + flash_sector_size a ≡ 0x080A_0000))
      ⊎ ((a ≡ 0x080A_0000) × (a + flash_sector_size a ≡ 0x080C_0000))
      ⊎ ((a ≡ 0x080C_0000) × (a + flash_sector_size a ≡ 0x080E_0000))
      ⊎ ((a ≡ 0x080E_0000) × (a + flash_sector_size a ≡ 0x0810_0000))
unfolding flash_sector_start flash_sector_size
sector_table a own pos = ground arith

sectors_from-next :
    (a : ℕ)
    → flash_sector_start a ≡ a
    → a ≢ 0
    → sectors_from (a + flash_sector_size a) < sectors_from a
unfolding sectors_from
sectors_from-next a own pos = ground (arith, sector_table a own pos)

erase_sectors_fuel :
    (fuel more start end : ℕ) (s : Shadow)
    → sectors_from start < fuel
    → fuel ≤ more
    → erase_sectors more start end s ≡ erase_sectors fuel start end s
unfolding erase_sectors unless_failed
erase_sectors_fuel zero more start end s h le = absurd (omega arith)
erase_sectors_fuel (suc fuel) zero start end s h le = absurd (omega arith)
erase_sectors_fuel (suc fuel) (suc more) start end s h le = elim (flash_erase_sector_lem start s) [
  | inl (e, same) ↦ ground arith
  | inr (e, run, own, pos) ↦ ground (
    arith,
    sector_fits start own pos,
    sectors_from-next start own pos,
    erase_sectors_fuel fuel more (start + flash_sector_size start) end
        (flash_erase_sector start s).1,
  )
]

-- An erase of a range never runs out of its 13 rounds: with any more of them it ends in the same
-- way, whatever the range.
pub erase_range_fuel :
    (a n more : ℕ) (s : Shadow)
    → n ≢ 0
    → 13 ≤ more
    → flash_erase_range a n s ≡ erase_sectors more (flash_sector_start a) (u32 (a + n)) s
unfolding flash_erase_range
erase_range_fuel a n more s h le = ground (
  arith,
  sectors_from-le (flash_sector_start a),
  erase_sectors_fuel 13 more (flash_sector_start a) (u32 (a + n)) s,
)
