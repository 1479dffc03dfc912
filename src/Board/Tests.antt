-- ===== src/Board/Tests.antt =====
-- The theorems on the board at a simulated flash that starts with slot A.
use secure_boot_loader_with.Base.{ℕ, ◌≡◌, refl, ap, ◌∙◌, arith, true, [], ◌∷◌, if◌then◌else◌}
use secure_boot_loader_with.Base.Text.{chars}
use secure_boot_loader_with.MemoryMap.{slot_a, slot_b, slot_b_addr}
use secure_boot_loader_with.Flash.Sim.{Shadow}
use secure_boot_loader_with.Flash.Sim.Driver.{sim_driver, sim_driver-IsFlash}
use secure_boot_loader_with.Crypto.{crypto_verify_firmware}
use secure_boot_loader_with.Uart.{Bus}
use secure_boot_loader_with.Example.{example_ecc, cfg_with, quiet_block, verified_b}
use secure_boot_loader_with.Boot.{BootState, boot, start}
use secure_boot_loader_with.Boot.Run.{boot_verified}
use secure_boot_loader_with.Boot.Swap.{save_keeps_b}
use secure_boot_loader_with.Boot.Cycle.{next_boot_b_or_recovery}
use secure_boot_loader_with.Boot.Working.{sim_driver-IsWorking}
use secure_boot_loader_with.Boot.Example.{flash_at, loads_a, start_a, boots_a}
use secure_boot_loader_with.Board.{Board, power_cycles}
use secure_boot_loader_with.Board.Forever.{started_stays_on_b}

-- A bus on which every register reads as its transmitter being empty.
abbrev example_bus : Bus
example_bus = record { Dev = ℕ; read = λ a d. (0x80, d); write = λ a v d. v }

abbrev board : Board sim_driver
board = record { mem = flash_at slot_a; shared = quiet_block }

b_kept :
    crypto_verify_firmware sim_driver example_ecc slot_b_addr
      (boot sim_driver example_ecc quiet_block (flash_at slot_a)).1.mem
    ≡ true
b_kept =
    let after = (boot sim_driver example_ecc quiet_block (flash_at slot_a)).1 in
    let (_, _, _, _, mem) =
      boot_verified sim_driver example_ecc sim_driver-IsFlash quiet_block (flash_at slot_a) loads_a
        (omega (arith, boots_a)) in
    ap (λ (t : Shadow). crypto_verify_firmware sim_driver example_ecc slot_b_addr t) mem
    ∙ save_keeps_b sim_driver example_ecc sim_driver-IsFlash after.cfg
        (start sim_driver example_ecc quiet_block (flash_at slot_a)).mem
    ∙ ap
        (λ (t : BootState sim_driver).
          crypto_verify_firmware sim_driver example_ecc slot_b_addr t.mem)
        start_a
    ∙ verified_b (cfg_with slot_a 0x2_0000 0)

next_boot_b_or_recovery_example :
    let after = (boot sim_driver example_ecc quiet_block (flash_at slot_a)).1.mem in
    (boot sim_driver example_ecc quiet_block after).0
    ≡ (if crypto_verify_firmware sim_driver example_ecc slot_b_addr after then slot_b else 0)
next_boot_b_or_recovery_example =
    next_boot_b_or_recovery sim_driver example_ecc sim_driver-IsFlash sim_driver-IsWorking
      quiet_block quiet_block (flash_at slot_a) loads_a (omega (arith, boots_a)) refl

-- Slot A lives for two turns and crashes, and then slot B for seven and for none.
started_stays_on_b_example :
    let after =
      power_cycles sim_driver example_ecc example_bus 0
        (λ p. [])
        (chars "1.0.0")
        (2 ∷ 7 ∷ 0 ∷ [])
        board in
    (boot sim_driver example_ecc after.shared after.mem).0 ≡ slot_b
started_stays_on_b_example =
    started_stays_on_b sim_driver example_ecc sim_driver-IsFlash sim_driver-IsWorking example_bus 0
      (λ p. []) (chars "1.0.0") 2 (7 ∷ 0 ∷ []) board loads_a (omega (arith, boots_a)) b_kept
