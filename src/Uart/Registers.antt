-- ===== src/Uart/Registers.antt =====
-- The addresses and bits of the registers that bootloader/src/uart.c sets up.
use secure_boot_loader_with.Base.{ℕ, ◌+◌, ◌^◌}

abbrev pub rcc_ahb1enr : ℕ
rcc_ahb1enr = 0x4002_3800 + 0x30

abbrev pub rcc_apb1enr : ℕ
rcc_apb1enr = 0x4002_3800 + 0x40

abbrev pub rcc_apb2enr : ℕ
rcc_apb2enr = 0x4002_3800 + 0x44

abbrev pub rcc_ahb1enr_gpioa : ℕ
rcc_ahb1enr_gpioa = 2 ^ 0

abbrev pub rcc_apb1enr_usart2 : ℕ
rcc_apb1enr_usart2 = 2 ^ 17

abbrev pub rcc_apb2enr_usart1 : ℕ
rcc_apb2enr_usart1 = 2 ^ 4

abbrev pub gpioa_moder : ℕ
gpioa_moder = 0x4002_0000 + 0x00

abbrev pub gpioa_afrl : ℕ
gpioa_afrl = 0x4002_0000 + 0x20

abbrev pub gpioa_afrh : ℕ
gpioa_afrh = 0x4002_0000 + 0x24

abbrev pub usart_cr1_ue : ℕ
usart_cr1_ue = 2 ^ 13

abbrev pub usart_cr1_te : ℕ
usart_cr1_te = 2 ^ 3

abbrev pub usart_cr1_re : ℕ
usart_cr1_re = 2 ^ 2

abbrev pub usart1_brr_115200 : ℕ
usart1_brr_115200 = 0x2D9

abbrev pub usart2_brr_115200 : ℕ
usart2_brr_115200 = 0x16C
