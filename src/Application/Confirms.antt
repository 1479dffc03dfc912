-- ===== src/Application/Confirms.antt =====
-- When the application of application/src/app_main.c confirms its boot, and how often its delay feeds
-- the watchdog.
use secure_boot_loader_with.Base.{
  ℕ, zero, suc, ◌+◌, ◌*◌, ◌/◌, ◌%◌, ◌≡◌, ◌<◌, refl, ap, ◌∙◌, sym, arith, List, true, ltb, ◌==◌,
  if◌then◌else◌, u32, low_bits, Bool-cases, inl, inr,
}
use secure_boot_loader_with.SharedMemory.{SharedBootBlock, bootloader_confirm_boot}
use secure_boot_loader_with.Uart.{Bus, iwdg_kick}
use secure_boot_loader_with.Application.{
  AppState, app_turn, app_turns, app_main, delay_loop, delay_ms,
}

-- The block after so many turns.
abbrev pub confirmed_after : ℕ → SharedBootBlock → SharedBootBlock
confirmed_after n b = if ltb 5 n then bootloader_confirm_boot b else b

-- One more turn of the counter, from `n` turns on.
next_block :
    (n : ℕ) (b : SharedBootBlock)
    → (if u32 n == 5 then bootloader_confirm_boot (confirmed_after n b) else confirmed_after n b)
      ≡ confirmed_after (suc n) b
unfolding bootloader_confirm_boot
next_block n b = elim (Bool-cases (ltb 5 n)) [
  | inr few ↦ ground (arith, few)
  | inl many ↦
      let more : ltb 5 (suc n) ≡ true = ground (arith, many) in
      elim (Bool-cases (u32 n == 5)) [
        | inl e ↦ rw (many, more, e) refl
        | inr e ↦ rw (many, more, e) refl
      ]
]

module _ (B : Bus) (strings : ℕ → List ℕ) (version : List ℕ) where
  app_turns-snoc :
      (n : ℕ) (st : AppState B)
      → app_turns B strings version (suc n) st
        ≡ app_turn B strings version (app_turns B strings version n st)
  unfolding app_turns
  app_turns-snoc zero st = refl
  app_turns-snoc (suc n) st = app_turns-snoc n (app_turn B strings version st)

  turns_so_far :
      (n : ℕ) (st : AppState B)
      → st.tick ≡ 0
      → ((app_turns B strings version n st).tick ≡ u32 n)
        × ((app_turns B strings version n st).shared ≡ confirmed_after n st.shared)
  unfolding app_turns app_turn
  turns_so_far zero st z = (z ∙ omega arith, refl)
  turns_so_far (suc n) st z =
      let (t, s) = turns_so_far n st z in
      let turn = app_turns-snoc n st in
      (
        ap (λ (r : AppState B). r.tick) turn
            ∙ next_tick (app_turns B strings version n st)
            ∙ rw t (omega arith),
        ap (λ (r : AppState B). r.shared) turn
            ∙ next_shared (app_turns B strings version n st)
            ∙ rw (t, s) (next_block n st.shared),
      )
    where
      next_tick : (r : AppState B) → (app_turn B strings version r).tick ≡ u32 (r.tick + 1)
      next_tick r = refl

      next_shared :
          (r : AppState B)
          → (app_turn B strings version r).shared
            ≡ (if r.tick == 5 then bootloader_confirm_boot r.shared else r.shared)
      next_shared r = refl

  -- The application confirms its boot in its sixth turn, and once is enough: after `n` turns the
  -- shared block is confirmed if `n` is more than 5, and as the bootloader left it otherwise, also
  -- when the tick counter has wrapped around.
  pub app_main_confirms :
      (n : ℕ) (shared : SharedBootBlock) (d : B.Dev)
      → (app_main B strings version n shared d).shared ≡ confirmed_after n shared
  unfolding app_main
  app_main_confirms n shared d = (turns_so_far n _ refl).1

module _ (B : Bus) where
  -- `n` kicks of the watchdog.
  pub kicks : ℕ → B.Dev → B.Dev
  kicks zero d = d
  kicks (suc n) d = kicks n (iwdg_kick B d)

  delay_loop-kicks : (i : ℕ) (d : B.Dev) → delay_loop B i d ≡ kicks ((i + 65535) / 65536) d
  unfolding delay_loop kicks
  delay_loop-kicks zero d = refl
  delay_loop-kicks (suc i) d = elim (Bool-cases (low_bits i 16 == 0)) [
    | inl e ↦
        let whole : i % 65536 ≡ 0 = ground (arith, e) in
        let more : (suc i + 65535) / 65536 ≡ suc ((i + 65535) / 65536) = omega (arith, whole) in
        rw e (delay_loop-kicks i (iwdg_kick B d) ∙ ap (λ (n : ℕ). kicks n d) (sym more))
    | inr e ↦
        let part : 0 < i % 65536 = ground (arith, e) in
        let same : (i + 65535) / 65536 ≡ (suc i + 65535) / 65536 = omega (arith, part) in
        rw e (delay_loop-kicks i d ∙ ap (λ (n : ℕ). kicks n d) same)
  ]

  -- A delay does nothing but feed the watchdog, once for every 65536 turns of its loop that it begins.
  pub delay_ms-kicks :
      (ms : ℕ) (d : B.Dev) → delay_ms B ms d ≡ kicks ((u32 (ms * 1600) + 65535) / 65536) d
  unfolding delay_ms
  delay_ms-kicks ms d = delay_loop-kicks (u32 (ms * 1600)) d
