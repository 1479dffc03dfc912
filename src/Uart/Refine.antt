-- ===== src/Uart/Refine.antt =====
-- The receive functions of bootloader/src/uart.c on the registers do what the OTA client assumes of
-- them on its input.
use secure_boot_loader_with.Base.{ℕ, zero, suc, [], ◌∷◌}
use secure_boot_loader_with.OtaClient
use secure_boot_loader_with.OtaClient.{Input}
use secure_boot_loader_with.Uart
use secure_boot_loader_with.Uart.{Bus}

module _ (B : Bus) (timeout_ms : ℕ) where
  -- What the next `n` calls of `uart_ota_getc` find, and the device after as many.
  abbrev pub finds : ℕ → B.Dev → Input
  finds zero d = []
  finds (suc n) d = let (c, d') = Uart.uart_ota_getc B timeout_ms d in c ∷ finds n d'
