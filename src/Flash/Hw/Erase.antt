-- ===== src/Flash/Hw/Erase.antt =====
-- Erasing on the hardware backend of bootloader/src/flash_driver.c: whole sectors, all of them that the
-- range meets, and nothing else.
use secure_boot_loader_with.Base.{
  ℕ, zero, suc, ◌+◌, ◌^◌, ◌<◌, ◌≤◌, ◌≡◌, ◌≢◌, ◌⊎◌, inl, inr, refl, ap, ◌∙◌, sym, arith, ◌==◌, u32,
  ltb, Bool-cases, Option-cases, get_or, some, ==_iff, dec_lt, lt→ltb,
}
use secure_boot_loader_with.Flash.{Status, ok, err_range}
use secure_boot_loader_with.Flash.Sectors.{
  k_sector_start, sector_index_for_addr, flash_sector_size, flash_sector_start, sector_fits,
  sector_of, sector_mono, sector_behind, sector_idem, sector_below,
}
use secure_boot_loader_with.Flash.Hw.{
  Controller, and_then, flash_erase_sector, erase_sectors, flash_erase_range,
}
use secure_boot_loader_with.Flash.Hw.Verified.{
  and_then_ok, sector_found, sector_missing, erase_sector_verified,
}
use secure_boot_loader_with.Flash.Hw.Outside.{IsController, then-Keeps, erase_sector-Keeps}

module _ (C : Controller) (L : IsController C) where
  start_found :
      (start idx : ℕ)
      → sector_index_for_addr start ≡ some idx
      → flash_sector_start start ≡ get_or k_sector_start idx 0
  unfolding flash_sector_start
  start_found start idx found = rw (flash_sector_start, found) refl

  no_sector_zero : (idx : ℕ) → sector_index_for_addr 0 ≢ some idx
  unfolding sector_index_for_addr
  no_sector_zero idx e = cc

  -- An erase of a sector fails and leaves the controller alone, or is of an address where one begins.
  erase_cases :
      (start : ℕ) (h : C.Hw)
      → (flash_erase_sector C start h ≡ (err_range, h))
        ⊎ ((flash_sector_start start ≡ start) × (start ≢ 0))
  erase_cases start h = elim (Option-cases (sector_index_for_addr start)) [
    | inl missing ↦ inl (sector_missing C start h missing)
    | inr (idx, found) ↦ elim (Bool-cases (get_or k_sector_start idx 0 == start)) [
      | inr other ↦ inl (sector_found C start idx h found ∙ rw other refl)
      | inl same ↦ inr (
        start_found start idx found ∙ (==_iff (get_or k_sector_start idx 0) start).0 same,
        λ z. no_sector_zero idx (ap sector_index_for_addr (sym z) ∙ found),
      )
    ]
  ]

  module _ (end : ℕ) (x : ℕ) where
    erase_sectors-outside :
        (fuel start : ℕ) (h : C.Hw)
        → (x < start) ⊎ (end ≤ flash_sector_start x) ⊎ (0x0810_0000 ≤ x)
        → C.load8 (erase_sectors C fuel start end h).1 x ≡ C.load8 h x
    unfolding erase_sectors and_then
    erase_sectors-outside zero start h o = refl
    erase_sectors-outside (suc fuel) start h o = elim (Bool-cases (ltb start end)) [
      | inr done ↦ rw done refl
      | inl more ↦ elim (erase_cases start h) [
        | inl refused ↦ rw (more, refused) refl
        | inr (own, pos) ↦
            let fits = sector_fits start own pos in
            let next = u32 (start + flash_sector_size start) in
            let first = flash_erase_sector C start h in
            rw more (
              then-load first (erase_sectors C fuel next end)
                (erase_sectors-outside fuel next first.1 (ground (arith, o, fits)))
              ∙ erase_sector-Keeps C L x start h (ground (arith, o, fits, sector_of start x own)))
      ]
    ]
      where
        then-load :
            (r : Status × C.Hw) (next : C.Hw → Status × C.Hw)
            → C.load8 (next r.1).1 x ≡ C.load8 r.1 x
            → C.load8 (and_then r next).1 x ≡ C.load8 r.1 x
        then-load r next k = then-Keeps C L x r next k

    erase_sectors-inside :
        (fuel start : ℕ) (h : C.Hw)
        → (erase_sectors C fuel start end h).0 ≡ ok
        → start ≤ flash_sector_start x
        → flash_sector_start x ≤ x
        → flash_sector_start x < end
        → x < 0x0810_0000
        → C.load8 (erase_sectors C fuel start end h).1 x ≡ 0xFF
    unfolding erase_sectors
    erase_sectors-inside zero start h e lo p q r = absurd cc
    erase_sectors-inside (suc fuel) start h e lo p q r =
        let next = u32 (start + flash_sector_size start) in
        let first = flash_erase_sector C start h in
        let step : erase_sectors C (suc fuel) start end h
            ≡ and_then first (erase_sectors C fuel next end) =
          rw (lt→ltb start end (omega (arith, lo, q))) refl in
        let (worked, last) =
          and_then_ok C first (erase_sectors C fuel next end)
            (ap (λ (t : Status × C.Hw). t.0) (sym step) ∙ e) in
        let run = step ∙ last in
        elim (erase_cases start h) [
          | inl refused ↦ absurd (ground (arith, refused, worked))
          | inr (own, pos) ↦
              let fits = sector_fits start own pos in
              ap (λ (t : Status × C.Hw). C.load8 t.1 x) run
              ∙ elim (dec_lt x (start + flash_sector_size start)) [
                | yes here ↦
                    erase_sectors-outside fuel next first.1 (inl (omega (arith, fits, here)))
                    ∙ erase_sector_verified C start h x worked (omega (arith, lo, p)) here
                        (omega (arith, fits))
                | no behind ↦
                    erase_sectors-inside fuel next first.1
                      (ap (λ (t : Status × C.Hw). t.0) (sym run) ∙ e)
                      (omega (arith, fits, sector_behind start x own pos (omega (arith, behind)) r))
                      p q r
              ]
        ]

  pub erase_range-outside :
      (a n : ℕ) (h : C.Hw) (x : ℕ)
      → a + n < 2 ^ 32
      → (x < flash_sector_start a) ⊎ (a + n ≤ flash_sector_start x) ⊎ (0x0810_0000 ≤ x)
      → C.load8 (flash_erase_range C a n h).1 x ≡ C.load8 h x
  unfolding flash_erase_range
  erase_range-outside a n h x room o =
      ground (arith, erase_sectors-outside (a + n) x 13 (flash_sector_start a) h)

  pub erase_range-inside :
      (a n : ℕ) (h : C.Hw) (x : ℕ)
      → a + n < 2 ^ 32
      → 0 < n
      → (flash_erase_range C a n h).0 ≡ ok
      → flash_sector_start a ≤ x
      → flash_sector_start x < a + n
      → x < 0x0810_0000
      → C.load8 (flash_erase_range C a n h).1 x ≡ 0xFF
  unfolding flash_erase_range
  erase_range-inside a n h x room pos e lo hi top = ground (
    arith,
    sector_idem a,
    sector_mono (flash_sector_start a) x,
    sector_below x,
    erase_sectors-inside (a + n) x 13 (flash_sector_start a) h,
  )
