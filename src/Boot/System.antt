-- ===== src/Boot/System.antt =====
-- The rest of bootloader/src/main.c: the banner of the log, and the processor's system registers, over
-- the bus.
use secure_boot_loader_with.Base.{ℕ, ◌^◌, List, [], ◌∷◌, ◌++◌, bit_or}
use secure_boot_loader_with.Base.Text.{chars}
use secure_boot_loader_with.MemoryMap.{bootloader_addr}
use secure_boot_loader_with.BootConfig.{BootConfig}
use secure_boot_loader_with.Uart.{Bus, uart_log_printf}
use secure_boot_loader_with.Application.{scb_vtor}

abbrev pub scb_aircr : ℕ
scb_aircr = 0xE000_ED0C

abbrev pub aircr_key : ℕ
aircr_key = 0x05FA_0000

abbrev pub aircr_sysresetreq : ℕ
aircr_sysresetreq = 2 ^ 2

-- What the banner prints.
unfoldable pub log_banner : (ℕ → List ℕ) → BootConfig → List ℕ
log_banner strings cfg =
    let rule : List ℕ = chars "==============================================\r\n" in
    chars "\r\n"
    ++ (rule
        ++ (chars " Secure Dual-Bank Bootloader (P-256 + SHA-256)\r\n"
            ++ (rule
                ++ uart_log_printf strings
                    (chars " active=%c  attempts=%u  ver_a=0x%08x  ver_b=0x%08x\r\n")
                    (cfg.active_slot ∷ cfg.boot_attempts ∷ cfg.slot_a_version ∷ cfg.slot_b_version
                      ∷ []))))

module _ (B : Bus) where
  unfoldable pub system_init : B.Dev → B.Dev
  system_init d = B.write scb_vtor bootloader_addr d

  -- The one access before the wait for the reset.
  unfoldable pub bootloader_system_reset : B.Dev → B.Dev
  bootloader_system_reset d = B.write scb_aircr (bit_or aircr_key aircr_sysresetreq) d
