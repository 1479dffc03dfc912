-- ===== src/Crypto/Tests.antt =====
-- The theorems on the verifier at an example image and example buffers.
use secure_boot_loader_with.Base.{
  ℕ, ◌≡◌, ◌≢◌, ◌≤◌, ◌/◌, ◌↔◌, refl, List, ◌∷◌, ◌++◌, true, arith, replicate,
}
use secure_boot_loader_with.MemoryMap.{slot_a, slot_a_addr}
use secure_boot_loader_with.Flash.Sim.{Shadow}
use secure_boot_loader_with.Flash.Sim.Driver.{sim_driver, sim_driver-IsFlash}
use secure_boot_loader_with.Crypto.{is_canonical_low_s, crypto_verify_firmware}
use secure_boot_loader_with.Crypto.LowS.{order, r_of, s_of, canonical_low_s_iff}
use secure_boot_loader_with.Crypto.Verify.{IsGenuine, verify_firmware_iff}
use secure_boot_loader_with.BootConfig.{BootConfig}
use secure_boot_loader_with.Example.{example_ecc, cfg_with, flash_with}

abbrev cfg : BootConfig
cfg = cfg_with slot_a 0x2_0000 0

abbrev flash : Shadow
flash = flash_with cfg

abbrev sig : List ℕ
sig = replicate 31 0 ++ (1 ∷ replicate 32 0xFF)

verify_firmware_iff_example :
    (crypto_verify_firmware sim_driver example_ecc slot_a_addr flash ≡ true)
    ↔ IsGenuine sim_driver example_ecc slot_a_addr flash
verify_firmware_iff_example =
    verify_firmware_iff sim_driver example_ecc sim_driver-IsFlash slot_a_addr flash (omega arith)

canonical_low_s_iff_example :
    (is_canonical_low_s sig ≡ true) ↔ ((r_of sig ≢ 0) × (s_of sig ≢ 0) × (s_of sig ≤ order / 2))
canonical_low_s_iff_example = canonical_low_s_iff sig refl (omega arith)
