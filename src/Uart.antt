-- ===== src/Uart.antt =====
-- bootloader/src/uart.c and bootloader/src/iwdg.c: the registers over a bus that is a parameter, and
-- the numbers of the log.
pub mod Registers
pub mod Digits
pub mod Printf
pub mod Refine
mod Tests
use secure_boot_loader_with.Base.{
  ℕ, zero, suc, ◌+◌, ◌-◌, ◌*◌, ◌/◌, ◌%◌, ◌^◌, Bool, true, false, ◌&&◌, not, ltb, leb, ◌==◌,
  if◌then◌else◌, List, [], ◌∷◌, ◌++◌, Option, none, some, length, replicate, bit_and, bit_or,
  bit_xor, u8, u64,
}
use Registers.{
  rcc_ahb1enr, rcc_apb1enr, rcc_apb2enr, rcc_ahb1enr_gpioa, rcc_apb1enr_usart2, rcc_apb2enr_usart1,
  gpioa_moder, gpioa_afrl, gpioa_afrh, usart_cr1_ue, usart_cr1_te, usart_cr1_re, usart1_brr_115200,
  usart2_brr_115200,
}

-- Volatile accesses to the registers. A read may change the device.
pub record Bus : Type 1 where
  pub Dev : Type 0
  pub read : ℕ → Dev → ℕ × Dev
  pub write : ℕ → ℕ → Dev → Dev

abbrev pub usart1_base : ℕ
usart1_base = 0x4001_1000

abbrev pub usart2_base : ℕ
usart2_base = 0x4000_4400

abbrev pub usart_sr_off : ℕ
usart_sr_off = 0x00

abbrev pub usart_dr_off : ℕ
usart_dr_off = 0x04

abbrev pub usart_brr_off : ℕ
usart_brr_off = 0x08

abbrev pub usart_cr1_off : ℕ
usart_cr1_off = 0x0C

abbrev pub usart_sr_txe : ℕ
usart_sr_txe = 2 ^ 7

abbrev pub usart_sr_rxne : ℕ
usart_sr_rxne = 2 ^ 5

abbrev pub polls_per_ms : ℕ
polls_per_ms = 1600

abbrev pub iwdg_base : ℕ
iwdg_base = 0x4000_3000

-- `reg |= mask`, and `mode &= ~clear; mode |= set` between a read and a write.
abbrev pub clear_set : ℕ → ℕ → ℕ → ℕ
clear_set clear set w = bit_or (bit_and w (bit_xor clear 0xFFFF_FFFF)) set

module _ (B : Bus) where
  abbrev pub modify : ℕ → ℕ → ℕ → B.Dev → B.Dev
  modify addr clear set d = let (w, d') = B.read addr d in B.write addr (clear_set clear set w) d'

  unfoldable pub usart_init : ℕ → ℕ → B.Dev → B.Dev
  usart_init base brr_val d =
      B.write (base + usart_cr1_off) (bit_or (bit_or usart_cr1_ue usart_cr1_te) usart_cr1_re)
        (B.write (base + usart_brr_off) brr_val (B.write (base + usart_cr1_off) 0 d))

  -- The bounded wait for TXE, by the polls left.
  unfoldable pub txe_poll : ℕ → ℕ → B.Dev → B.Dev
  txe_poll zero base d = d
  txe_poll (suc n) base d =
      let (sr, d') = B.read (base + usart_sr_off) d in
      let rest : B.Dev = txe_poll n base d' in if bit_and sr usart_sr_txe == 0 then rest else d'

  unfoldable pub usart_putc : ℕ → ℕ → B.Dev → B.Dev
  usart_putc base c d = B.write (base + usart_dr_off) c (txe_poll 100000 base d)

  unfoldable pub usart_try_getc : ℕ → B.Dev → Option ℕ × B.Dev
  usart_try_getc base d =
      let (sr, d1) = B.read (base + usart_sr_off) d in
      let (dr, d2) = B.read (base + usart_dr_off) d1 in
      if bit_and sr usart_sr_rxne == 0 then (none, d1) else (some (u8 dr), d2)

  -- The clocks, then the pins PA2, PA3, PA9 and PA10, then the two ports.
  unfoldable pub uart_init : B.Dev → B.Dev
  uart_init d =
      let clocks : B.Dev =
        modify rcc_apb1enr 0 rcc_apb1enr_usart2
          (modify rcc_apb2enr 0 rcc_apb2enr_usart1 (modify rcc_ahb1enr 0 rcc_ahb1enr_gpioa d)) in
      let pins : B.Dev =
        modify gpioa_afrh 0xFF0 0x770
          (modify gpioa_afrl 0xFF00 0x7700 (modify gpioa_moder 0x3C_00F0 0x28_00A0 clocks)) in
      usart_init usart2_base usart2_brr_115200 (usart_init usart1_base usart1_brr_115200 pins)

  -- The loop of `uart_ota_getc`, by the budget left.
  unfoldable pub getc_poll : ℕ → B.Dev → Option ℕ × B.Dev
  getc_poll zero d = (none, d)
  getc_poll (suc budget) d =
      let (c, d') = usart_try_getc usart2_base d in
      elim c [
        | some b ↦ (some b, d')
        | none ↦ getc_poll budget (if budget % 2 ^ 18 == 0 then B.write iwdg_base 0xAAAA d' else d')
      ]

  unfoldable pub uart_ota_getc : ℕ → B.Dev → Option ℕ × B.Dev
  uart_ota_getc timeout_ms d = getc_poll (u64 (timeout_ms * polls_per_ms + 1)) d

  -- What follows a call of `uart_ota_getc`; `next` is the rest of the loop.
  unfoldable pub got_byte : Option ℕ × B.Dev → (B.Dev → List ℕ × B.Dev) → List ℕ × B.Dev
  got_byte (none, d) next = ([], d)
  got_byte (some b, d) next = let (bytes, d') = next d in (b ∷ bytes, d')

  unfoldable pub uart_ota_read : ℕ → ℕ → B.Dev → List ℕ × B.Dev
  uart_ota_read zero timeout_ms d = ([], d)
  uart_ota_read (suc n) timeout_ms d =
      got_byte (uart_ota_getc timeout_ms d) (uart_ota_read n timeout_ms)

  unfoldable pub uart_ota_putc : ℕ → B.Dev → B.Dev
  uart_ota_putc b d = usart_putc usart2_base b d

  unfoldable pub uart_ota_write : List ℕ → B.Dev → B.Dev
  uart_ota_write [] d = d
  uart_ota_write (b ∷ bs) d = uart_ota_write bs (usart_putc usart2_base b d)

  unfoldable pub uart_log_putc : ℕ → B.Dev → B.Dev
  uart_log_putc c d = usart_putc usart1_base (u8 c) d

  -- The characters of a text, or of what `uart_log_printf` prints, one after the other.
  unfoldable pub uart_log_puts : List ℕ → B.Dev → B.Dev
  uart_log_puts [] d = d
  uart_log_puts (c ∷ cs) d = uart_log_puts cs (uart_log_putc c d)

  -- `iwdg_init`: the bounded wait for IWDG_SR, by the polls left.
  unfoldable pub iwdg_poll : ℕ → B.Dev → B.Dev
  iwdg_poll zero d = (B.read (iwdg_base + 0x0C) d).1
  iwdg_poll (suc n) d =
      let (sr, d') = B.read (iwdg_base + 0x0C) d in
      let rest : B.Dev = iwdg_poll n d' in if sr == 0 then d' else rest

  unfoldable pub iwdg_kick : B.Dev → B.Dev
  iwdg_kick d = B.write iwdg_base 0xAAAA d

  unfoldable pub iwdg_init : B.Dev → B.Dev
  iwdg_init d =
      let waited : B.Dev = iwdg_poll 1000 (B.write iwdg_base 0x5555 d) in
      let set : B.Dev = B.write (iwdg_base + 0x08) 1250 (B.write (iwdg_base + 0x04) 0x6 waited) in
      B.write iwdg_base 0xCCCC (iwdg_kick set)

-- One digit of `log_print_uint`.
unfoldable pub digit_char : ℕ → Bool → ℕ
digit_char d upper = if ltb d 10 then 0x30 + d else (if upper then 0x41 else 0x61) + d - 10

-- The digits in the buffer, low ones first. An `unsigned long` has 32 bits, so there are at most as
-- many as the buffer has room for.
unfoldable pub digit_loop : ℕ → ℕ → ℕ → Bool → List ℕ
digit_loop zero v base upper = []
digit_loop (suc n) v base upper =
    let rest : List ℕ = digit_loop n (v / base) base upper in
    if ltb 0 v then digit_char (v % base) upper ∷ rest else []

-- What is written to the buffer from its first entry on, before it is sent. The code does not bound
-- it by the buffer's 32 entries; with a longer list it writes past the end, which is not modelled.
unfoldable pub digit_buf : ℕ → ℕ → ℕ → Bool → List ℕ
digit_buf v base min_width upper =
    let buf : List ℕ = if v == 0 then 0x30 ∷ [] else digit_loop 32 v base upper in
    buf ++ replicate (min_width - length buf) 0x30

-- `while (i--) uart_log_putc(buf[i])`: the last entry first.
unfoldable pub emit : List ℕ → List ℕ
emit [] = []
emit (c ∷ cs) = emit cs ++ (c ∷ [])

-- The characters that are sent.
unfoldable pub log_print_uint : ℕ → ℕ → ℕ → Bool → List ℕ
log_print_uint v base min_width upper = emit (digit_buf v base min_width upper)

-- The digits of a field width, and what follows them. The code keeps the width in an `int`; a width
-- of 2 ^ 31 or more, which is undefined there, is not modelled.
unfoldable pub parse_width : ℕ → List ℕ → ℕ × List ℕ
parse_width width [] = (width, [])
parse_width width (c ∷ fmt) =
    let more : ℕ × List ℕ = parse_width (width * 10 + (c - 0x30)) fmt in
    if leb 0x30 c && leb c 0x39 then more else (width, c ∷ fmt)

-- A leading 0 is read and not used.
unfoldable pub skip_zero : List ℕ → List ℕ
skip_zero [] = []
skip_zero (c ∷ fmt) = if c == 0x30 then fmt else c ∷ fmt

-- The next argument, a word of 32 bits, and those behind it.
abbrev pub va_arg : List ℕ → ℕ × List ℕ
va_arg [] = (0, [])
va_arg (w ∷ args) = (w, args)

-- `strings` is what the pointers point to.
module _ (strings : ℕ → List ℕ) where
  -- The `switch` on the letter of a conversion: what is printed, and the arguments left.
  unfoldable pub convert : ℕ → ℕ → List ℕ → List ℕ × List ℕ
  convert k width args =
      let (v, rest) = va_arg args in
      if k == 0x63
      then (u8 v ∷ [], rest)
      else if k == 0x73
      then (if v == 0 then 0x28 ∷ 0x6E ∷ 0x75 ∷ 0x6C ∷ 0x6C ∷ 0x29 ∷ [] else strings v, rest)
      else if k == 0x64
      then (
        if leb (2 ^ 31) v
            then 0x2D ∷ log_print_uint (2 ^ 32 - v) 10 0 false
            else log_print_uint v 10 0 false,
        rest,
      )
      else if k == 0x75
      then (log_print_uint v 10 0 false, rest)
      else if k == 0x78
      then (log_print_uint v 16 width false, rest)
      else if k == 0x58
      then (log_print_uint v 16 width true, rest)
      else if k == 0x70
      then (0x30 ∷ 0x78 ∷ log_print_uint v 16 8 false, rest)
      else if k == 0x25
      then (0x25 ∷ [], args)
      else (0x3F ∷ [], args)

  -- What follows the width; `next` is the rest of the loop.
  unfoldable pub directive : ℕ × List ℕ → List ℕ → (List ℕ → List ℕ → List ℕ) → List ℕ
  directive (width, []) args next = 0x3F ∷ []
  directive (width, k ∷ fmt) args next =
      let (text, rest) = convert k width args in text ++ next fmt rest

  -- The loop over the format, on fuel.
  unfoldable pub printf_loop : ℕ → List ℕ → List ℕ → List ℕ
  printf_loop n [] args = []
  printf_loop zero (c ∷ fmt) args = []
  printf_loop (suc n) (c ∷ fmt) args =
      let plain : List ℕ = c ∷ printf_loop n fmt args in
      if c == 0x25 then directive (parse_width 0 (skip_zero fmt)) args (printf_loop n) else plain

  -- Every round takes a character of the format.
  unfoldable pub uart_log_printf : List ℕ → List ℕ → List ℕ
  uart_log_printf fmt args = printf_loop (length fmt) fmt args

  -- `uart_log_printf("%02x", p[i])` for each byte.
  unfoldable pub uart_log_hex : List ℕ → List ℕ
  uart_log_hex [] = []
  uart_log_hex (b ∷ bs) =
      uart_log_printf (0x25 ∷ 0x30 ∷ 0x32 ∷ 0x78 ∷ []) (b ∷ []) ++ uart_log_hex bs
