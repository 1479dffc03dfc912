-- ===== src/Recovery/Log.antt =====
-- What bootloader/src/recovery.c prints: the banner of the menu, and the report of a verification.
use secure_boot_loader_with.Base.{ℕ, Bool, if◌then◌else◌, List, [], ◌∷◌, ◌++◌}
use secure_boot_loader_with.Base.Text.{chars}
use secure_boot_loader_with.MemoryMap.{slot_a_addr, slot_b_addr}
use secure_boot_loader_with.Uart.{uart_log_printf}

unfoldable print_banner : List ℕ
print_banner =
    let rule : List ℕ = chars "*****************************************************\r\n" in
    chars "\r\n"
    ++ (rule
        ++ (chars "*  RECOVERY MODE - both slots failed verification    *\r\n"
            ++ (chars "*  Send a command on USART2 (TCP 4444 in QEMU):      *\r\n"
                ++ (chars "*    U = Upload signed image (OTA frame protocol)    *\r\n"
                    ++ (chars "*    V = Verify both slots and report                *\r\n"
                        ++ (chars "*    R = Reboot                                      *\r\n"
                            ++ rule))))))

-- A report of the verdicts on slot A and slot B.
unfoldable report_text : (ℕ → List ℕ) → Bool → Bool → List ℕ
report_text strings a b =
    uart_log_printf strings (chars "VERIFY: slot A @ 0x%08x ... ") (slot_a_addr ∷ [])
    ++ (chars (if a then "OK\r\n" else "FAIL\r\n")
        ++ (uart_log_printf strings (chars "VERIFY: slot B @ 0x%08x ... ") (slot_b_addr ∷ [])
            ++ chars (if b then "OK\r\n" else "FAIL\r\n")))
