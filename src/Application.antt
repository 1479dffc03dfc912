-- ===== src/Application.antt =====
-- application/src/app_main.c and application/src/system_app.c: the demonstration application, over the
-- bus of its registers. It confirms its boot in the sixth turn of its loop.
pub mod Confirms
mod Tests
use secure_boot_loader_with.Base.{
  ℕ, zero, suc, ◌+◌, ◌*◌, List, [], ◌∷◌, ◌++◌, Bool, true, false, ◌==◌, if◌then◌else◌, u32,
  low_bits,
}
use secure_boot_loader_with.Base.Text.{chars}
use secure_boot_loader_with.MemoryMap.{slot_a_addr}
use secure_boot_loader_with.SharedMemory.{SharedBootBlock, bootloader_confirm_boot}
use secure_boot_loader_with.Uart.{
  Bus, iwdg_init, iwdg_kick, uart_init, uart_log_puts, uart_log_printf,
}

-- SCB_VTOR.
abbrev pub scb_vtor : ℕ
scb_vtor = 0xE000_ED08

-- `tick` of `app_main`, the shared block, and the devices.
pub record AppState (B : Bus) : Type 0 where
  pub tick : ℕ  -- uint32_t
  pub shared : SharedBootBlock
  pub dev : B.Dev

module _ (B : Bus) where
  unfoldable pub system_init_app : B.Dev → B.Dev
  system_init_app d =
      let (vtor, d') = B.read scb_vtor d in
      if vtor == 0 then B.write scb_vtor (slot_a_addr + 0x200) d' else d'

  -- The loop of `delay_ms`, by its counter.
  unfoldable pub delay_loop : ℕ → B.Dev → B.Dev
  delay_loop zero d = d
  delay_loop (suc i) d = delay_loop i (if low_bits i 16 == 0 then iwdg_kick B d else d)

  unfoldable pub delay_ms : ℕ → B.Dev → B.Dev
  delay_ms ms d = delay_loop (u32 (ms * 1600)) d

  -- `strings` is what pointers point to, `version` is APP_VERSION_STR of the build.
  module _ (strings : ℕ → List ℕ) (version : List ℕ) where
    -- One turn of the loop of `app_main`.
    unfoldable pub app_turn : AppState B → AppState B
    app_turn st =
        let d1 : B.Dev =
          uart_log_puts B
            (uart_log_printf strings (chars "App v" ++ (version ++ chars " tick %u\r\n"))
              (st.tick ∷ []))
            st.dev in
        let d2 : B.Dev =
          if st.tick == 5
          then uart_log_puts B (chars "App: boot confirmed to bootloader\r\n") d1
          else d1 in
        record {
          tick = u32 (st.tick + 1);
          shared = if st.tick == 5 then bootloader_confirm_boot st.shared else st.shared;
          dev = iwdg_kick B (delay_ms 1000 d2);
        }

    unfoldable pub app_turns : ℕ → AppState B → AppState B
    app_turns zero st = st
    app_turns (suc n) st = app_turns n (app_turn st)

    -- `app_main`, until a reset in its turn `n`.
    unfoldable pub app_main : ℕ → SharedBootBlock → B.Dev → AppState B
    app_main n shared d =
        let rule : List ℕ = chars "==============================================\r\n" in
        let title : List ℕ = chars " Demo Application v" ++ (version ++ chars " running\r\n") in
        let d1 : B.Dev = uart_log_puts B (chars "\r\n") (uart_init B (iwdg_init B d)) in
        let d2 : B.Dev = uart_log_puts B rule (uart_log_puts B title (uart_log_puts B rule d1)) in
        app_turns n (record { tick = 0; shared = shared; dev = d2 })
