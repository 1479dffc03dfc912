-- ===== src/Uart/Tests.antt =====
-- The theorems on the log and the receive functions at example numbers and an example device.
use secure_boot_loader_with.Base.{
  ◌≤◌, ◌<◌, ◌≡◌, ◌↔◌, inl, inr, refl, arith, true, false, [], ◌∷◌, ◌++◌, length,
}
use secure_boot_loader_with.Uart
use secure_boot_loader_with.OtaClient
use secure_boot_loader_with.Base.{ℕ, List, ◌==◌, if◌then◌else◌}
use secure_boot_loader_with.Uart.{Bus, digit_buf, log_print_uint, uart_log_printf, uart_log_hex}
use secure_boot_loader_with.Uart.Digits.{digit_buf_fits, read_number, read_number-log_print_uint}
use secure_boot_loader_with.Uart.Printf.{unhex, unhex-uart_log_hex, printf_decimal}

-- A device that always has the next byte of a list, and then nothing.
abbrev example_bus : Bus
example_bus = record {
  Dev = List ℕ;
  read = λ a d. (
    if a == 0x4000_4400 then elim d [ [] ↦ 0 | b ∷ bs ↦ 0x20 ] else elim d [ [] ↦ 0 | b ∷ bs ↦ b ],
    if a == 0x4000_4404 then elim d [ [] ↦ [] | b ∷ bs ↦ bs ] else d,
  );
  write = λ a v d. d;
}

digit_buf_fits_example :
    ((length (digit_buf 0xDEAD_BEEF 16 8 true) ≤ 32) ↔ (8 ≤ 32))
    × (0 < length (digit_buf 0xDEAD_BEEF 16 8 true))
    × (8 ≤ length (digit_buf 0xDEAD_BEEF 16 8 true))
    × (length (digit_buf 0xDEAD_BEEF 16 0 true) ≤ 10)
digit_buf_fits_example = digit_buf_fits 0xDEAD_BEEF 16 8 true (inr refl) (omega arith)

read_number-log_print_uint_example : read_number 10 0 (log_print_uint 460800 10 0 false) ≡ 460800
read_number-log_print_uint_example =
    read_number-log_print_uint 460800 10 0 false (inl refl) (omega arith)

unhex-uart_log_hex_example : unhex (uart_log_hex (λ p. []) (0 ∷ 0xA5 ∷ [])) ≡ 0 ∷ 0xA5 ∷ []
unhex-uart_log_hex_example = unhex-uart_log_hex (λ p. []) (0 ∷ 0xA5 ∷ []) (omega arith)

printf_decimal_example :
    uart_log_printf (λ p. []) (0x6E ∷ 0x3D ∷ 0x25 ∷ 0x75 ∷ 0x0A ∷ []) (513 ∷ [])
    ≡ 0x6E ∷ 0x3D ∷ (log_print_uint 513 10 0 false ++ (0x0A ∷ []))
printf_decimal_example =
    printf_decimal (λ p. []) (0x6E ∷ 0x3D ∷ []) (0x0A ∷ []) 513 (omega arith, (omega arith, tt))
      (omega arith, tt)

-- The log's forms of some numbers.
prints :
    log_print_uint 0x2D9 16 8 false ≡ 0x30 ∷ 0x30 ∷ 0x30 ∷ 0x30 ∷ 0x30 ∷ 0x32 ∷ 0x64 ∷ 0x39 ∷ []
unfolding log_print_uint digit_buf Uart.digit_loop Uart.digit_char Uart.emit
prints = refl
