-- ===== src/Example.antt =====
-- Concrete data for the examples: a flash with an image in each slot, a key, and configurations.
use secure_boot_loader_with.Base.{
  ℕ, ◌≡◌, refl, ap, sym, ◌∙◌, List, [], ◌∷◌, ◌++◌, arith, get_or, replicate, true,
}
use secure_boot_loader_with.MemoryMap.{
  slot_a_addr, slot_b_addr, boot_config_magic, shared_block_magic,
}
use secure_boot_loader_with.Crc32.{crc32}
use secure_boot_loader_with.Sha256.{
  sha256, sha256_init, sha256_update, update_byte, sha256_final, zero_fill, put_bitlen,
  sha256_transform,
}
use secure_boot_loader_with.Sha256.Reference.{reference_sha256, sha256-eq-reference}
use secure_boot_loader_with.Flash.Sim.{
  Shadow, qemu_shadow_magic, shadow_byte, shadow_byte_ptr, load,
}
use secure_boot_loader_with.Flash.{bytes_from}
use secure_boot_loader_with.Flash.Sim.Driver.{sim_driver, sim_driver-IsFlash}
use secure_boot_loader_with.FirmwareFormat.{header_of}
use secure_boot_loader_with.BootConfig.{BootConfig, bytes_of, boot_config_stamp_crc}
use secure_boot_loader_with.SharedMemory.{SharedBootBlock}
use secure_boot_loader_with.Crypto.{
  Ecc, crypto_verify_firmware, crypto_constant_time_equal, is_canonical_low_s,
}
use secure_boot_loader_with.Crypto.Verify.{IsGenuine, verify_firmware_iff}
use secure_boot_loader_with.Boot.{BootState}

-- A library that accepts every key and signature.
abbrev pub example_ecc : Ecc
example_ecc = record {
  public_key_xy = replicate 64 1;
  public_key_sha256 =
      0x7c ∷ 0x89 ∷ 0x75 ∷ 0xe1 ∷ 0xe6 ∷ 0x0a ∷ 0x5c ∷ 0x83 ∷ 0x37 ∷ 0xf2 ∷ 0x8e ∷ 0xdf ∷ 0x8c
      ∷ 0x33 ∷ 0xc3 ∷ 0xb1 ∷ 0x80 ∷ 0x36 ∷ 0x0b ∷ 0x72 ∷ 0x79 ∷ 0x64 ∷ 0x4a ∷ 0x9b ∷ 0xc1 ∷ 0xaf
      ∷ 0x3c ∷ 0x51 ∷ 0xe6 ∷ 0x22 ∷ 0x0b ∷ 0xf5 ∷ [];
  uecc_valid_public_key = λ key. 1;
  uecc_verify = λ key hash sig. 1;
}

-- The bytes of an image of version `major`.0.0 with the payload 7.
abbrev pub image : ℕ → List ℕ
image major =
    0xEF
    ∷ 0xBE
    ∷ 0xAD
    ∷ 0xDE
    ∷ 0
    ∷ 0
    ∷ major
    ∷ 0
    ∷ 1
    ∷ 0
    ∷ 0
    ∷ 0
    ∷ 0
    ∷ 0
    ∷ 0
    ∷ 0
    ∷ 0x2e
    ∷ 0x7a
    ∷ 0x66
    ∷ 0x4c
    ∷ (replicate 31 0 ++ (1 ∷ (replicate 31 0 ++ (1 ∷ (replicate 428 0 ++ (7 ∷ []))))))

-- A configuration with those versions and that active slot.
abbrev pub cfg_with : ℕ → ℕ → ℕ → BootConfig
cfg_with active a b = record {
  slot_a_version = a;
  slot_b_version = b;
  active_slot = active;
  boot_attempts = 0;
  rollback_counter = 1;
  reserved = 0;
  last_good_boot = 5;
  magic = boot_config_magic;
  crc32 = 0;
}

-- A simulated flash with that configuration, version 2.0.0 in slot A and 3.0.0 in slot B.
abbrev pub flash_with : BootConfig → Shadow
flash_with cfg = record {
  magic = qemu_shadow_magic;
  config = λ i. get_or (bytes_of (boot_config_stamp_crc cfg)) i 0xFF;
  slot_a = λ i. get_or (image 2) i 0xFF;
  slot_b = λ i. get_or (image 3) i 0xFF;
  rom = λ i. 0xFF;
}

abbrev pub quiet_block : SharedBootBlock
quiet_block = record {
  magic = shared_block_magic;
  boot_confirmed = 0;
  ota_pending = 0;
  reserved = 0;
}

abbrev pub pending_block : SharedBootBlock
pending_block = record quiet_block { ota_pending = 1 }

-- A state of the boot with that active slot and shared block.
abbrev pub state_with : ℕ → SharedBootBlock → BootState sim_driver
state_with active shared = record {
  cfg = cfg_with active 0x2_0000 0;
  cfg_dirty = true;
  shared = shared;
  mem = flash_with (cfg_with active 0x2_0000 0);
}

-- The fingerprint is that of the key.
key_digest : sha256 (replicate 64 0) example_ecc.public_key_xy ≡ example_ecc.public_key_sha256
unfolding sha256 sha256_init sha256_update update_byte sha256_final zero_fill put_bitlen
    sha256_transform
key_digest = refl

key_matches :
    crypto_constant_time_equal
      (reference_sha256 example_ecc.public_key_xy)
      example_ecc.public_key_sha256
    ≡ true
unfolding crypto_constant_time_equal
key_matches =
    ap (λ (t : List ℕ). crypto_constant_time_equal t example_ecc.public_key_sha256)
      (sym (sha256-eq-reference (replicate 64 0) example_ecc.public_key_xy refl) ∙ key_digest)

module _ (cfg : BootConfig) where
  pub IsGenuine-a : IsGenuine sim_driver example_ecc slot_a_addr (flash_with cfg)
  unfolding bytes_from shadow_byte shadow_byte_ptr load header_of crc32 is_canonical_low_s
  IsGenuine-a = record {
    key_on_curve = refl;
    key_fingerprint = key_matches;
    magic = refl;
    size_pos = omega arith;
    size_fits = omega arith;
    checksum = refl;
    low_s = refl;
    signed = refl;
  }

  pub verified_a : crypto_verify_firmware sim_driver example_ecc slot_a_addr (flash_with cfg) ≡ true
  verified_a =
      (verify_firmware_iff sim_driver example_ecc sim_driver-IsFlash slot_a_addr (flash_with cfg)
          (omega arith)).1
        IsGenuine-a

  pub IsGenuine-b : IsGenuine sim_driver example_ecc slot_b_addr (flash_with cfg)
  unfolding bytes_from shadow_byte shadow_byte_ptr load header_of crc32 is_canonical_low_s
  IsGenuine-b = record {
    key_on_curve = refl;
    key_fingerprint = key_matches;
    magic = refl;
    size_pos = omega arith;
    size_fits = omega arith;
    checksum = refl;
    low_s = refl;
    signed = refl;
  }

  pub verified_b : crypto_verify_firmware sim_driver example_ecc slot_b_addr (flash_with cfg) ≡ true
  verified_b =
      (verify_firmware_iff sim_driver example_ecc sim_driver-IsFlash slot_b_addr (flash_with cfg)
          (omega arith)).1
        IsGenuine-b
