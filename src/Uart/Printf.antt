-- ===== src/Uart/Printf.antt =====
-- `uart_log_printf` and `uart_log_hex` of bootloader/src/uart.c.
use secure_boot_loader_with.Base.{
  ℕ, zero, suc, ◌-◌, ◌≤◌, ◌≡◌, ◌≢◌, inr, refl, ap, ◌∙◌, sym, arith, false, ◌==◌, List, [], ◌∷◌,
  ◌++◌, length, append-nil, IsBytes,
}
use secure_boot_loader_with.Uart.{
  digit_buf, log_print_uint, parse_width, skip_zero, convert, directive, printf_loop,
  uart_log_printf, uart_log_hex,
}
use secure_boot_loader_with.Uart.Digits.{
  read_number, digit_buf-two, length-emit, length-join, read_number-log_print_uint,
}

-- The bytes that a text of two digits each stands for.
unfoldable pub unhex : List ℕ → List ℕ
unhex (a ∷ b ∷ text) = read_number 16 0 (a ∷ b ∷ []) ∷ unhex text
unhex _ = []

module _ (strings : ℕ → List ℕ) where
  hex_byte :
      (b : ℕ)
      → uart_log_printf strings (0x25 ∷ 0x30 ∷ 0x32 ∷ 0x78 ∷ []) (b ∷ [])
        ≡ log_print_uint b 16 2 false
  unfolding uart_log_printf printf_loop directive convert parse_width skip_zero
  hex_byte b = append-nil (log_print_uint b 16 2 false)

  unhex-two : (xs ys : List ℕ) → length xs ≡ 2 → unhex (xs ++ ys) ≡ read_number 16 0 xs ∷ unhex ys
  unfolding unhex
  unhex-two [] ys h = absurd (omega arith)
  unhex-two (a ∷ []) ys h = absurd (omega arith)
  unhex-two (a ∷ b ∷ []) ys h = refl
  unhex-two (a ∷ b ∷ c ∷ xs) ys h = absurd (omega arith)

  -- The dump of a buffer has two digits for each byte and reads back as the buffer.
  pub unhex-uart_log_hex : (bs : List ℕ) → IsBytes bs → unhex (uart_log_hex strings bs) ≡ bs
  unfolding unhex uart_log_hex log_print_uint
  unhex-uart_log_hex [] h = refl
  unhex-uart_log_hex (b ∷ bs) h =
      ap (λ (t : List ℕ). unhex (t ++ uart_log_hex strings bs)) (hex_byte b)
      ∙ unhex-two (log_print_uint b 16 2 false) (uart_log_hex strings bs)
          (length-emit (digit_buf b 16 2 false) ∙ digit_buf-two b h.0)
      ∙ rw
          (
            read_number-log_print_uint b 16 2 false (inr refl) (omega (arith, h.0)),
            unhex-uart_log_hex bs h.1,
          )
          refl

  abbrev pub PlainText : List ℕ → Type 0
  PlainText [] = Unit {0}
  PlainText (c ∷ cs) = (c ≢ 0x25) × PlainText cs

  plain_loop :
      (text fmt : List ℕ) (n : ℕ) (args : List ℕ)
      → PlainText text
      → length (text ++ fmt) ≤ n
      → printf_loop strings n (text ++ fmt) args
        ≡ text ++ printf_loop strings (n - length text) fmt args
  unfolding printf_loop
  plain_loop [] fmt n args p h =
      ap (λ (k : ℕ). printf_loop strings k fmt args) {x = n} {y = n - 0} (omega arith)
  plain_loop (c ∷ cs) fmt zero args p h = absurd (omega arith)
  plain_loop (c ∷ cs) fmt (suc n) args p h = rw (other) (
      ap (λ (t : List ℕ). c ∷ t)
        (plain_loop cs fmt n args p.1 (omega arith)
          ∙ ap (λ (k : ℕ). cs ++ printf_loop strings k fmt args) {x = n - length cs}
              {y = suc n - suc (length cs)} (omega arith)))
    where
      other : (c == 0x25) ≡ false
      other = ground (arith, p.0)

  after_u :
      (n v : ℕ) (fmt args : List ℕ)
      → printf_loop strings (suc n) (0x25 ∷ 0x75 ∷ fmt) (v ∷ args)
        ≡ log_print_uint v 10 0 false ++ printf_loop strings n fmt args
  unfolding printf_loop directive convert parse_width skip_zero
  after_u n v fmt args = refl

  -- A text around `%u` is printed as it is, with the argument in decimal in its place; and so the
  -- loop has as many rounds as it needs.
  pub printf_decimal :
      (before after : List ℕ) (v : ℕ)
      → PlainText before
      → PlainText after
      → uart_log_printf strings (before ++ (0x25 ∷ 0x75 ∷ after)) (v ∷ [])
        ≡ before ++ (log_print_uint v 10 0 false ++ after)
  unfolding uart_log_printf printf_loop
  printf_decimal before after v p q =
      plain_loop before (0x25 ∷ 0x75 ∷ after) (length fmt) (v ∷ []) p (omega arith)
      ∙ ap (λ (k : ℕ). before ++ printf_loop strings k (0x25 ∷ 0x75 ∷ after) (v ∷ []))
          {x = length fmt - length before} {y = suc (suc (length after))}
          (omega (arith, length-join before (0x25 ∷ 0x75 ∷ after)))
      ∙ ap (λ (t : List ℕ). before ++ t) (after_u (suc (length after)) v after [])
      ∙ ap (λ (t : List ℕ). before ++ (log_print_uint v 10 0 false ++ t)) rest
    where
      fmt : List ℕ
      fmt = before ++ (0x25 ∷ 0x75 ∷ after)

      rest : printf_loop strings (suc (length after)) after [] ≡ after
      rest =
          ap (λ (t : List ℕ). printf_loop strings (suc (length after)) t [])
            (sym (append-nil after))
          ∙ plain_loop after [] (suc (length after)) [] q (omega (arith, length-join after []))
          ∙ append-nil after
