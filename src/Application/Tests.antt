-- ===== src/Application/Tests.antt =====
-- The theorems on the application at a bus whose transmitter is always empty.
use secure_boot_loader_with.Base.{ℕ, ◌+◌, ◌≡◌, []}
use secure_boot_loader_with.Base.Text.{chars}
use secure_boot_loader_with.Example.{quiet_block}
use secure_boot_loader_with.Uart.{Bus}
use secure_boot_loader_with.Application.{app_main}
use secure_boot_loader_with.Application.Confirms.{app_main_confirms, confirmed_after}

-- The device counts the accesses that write.
abbrev counting_bus : Bus
counting_bus = record { Dev = ℕ; read = λ a d. (0x80, d); write = λ a v d. d + 1 }

app_main_confirms_example :
    (app_main counting_bus (λ p. []) (chars "1.0.0") 6 quiet_block 0).shared
    ≡ confirmed_after 6 quiet_block
app_main_confirms_example = app_main_confirms counting_bus (λ p. []) (chars "1.0.0") 6 quiet_block 0
