-- ===== src/BootConfig/Store/Marked.antt =====
-- The configuration of bootloader/src/boot_config.c keeps its fields in the range of their types and
-- its magic.
use secure_boot_loader_with.Base.{
  ℕ, ◌<◌, ◌^◌, ◌≡◌, inl, inr, refl, Bool, arith, Bool-cases, List, IsBytes,
}
use secure_boot_loader_with.MemoryMap.{
  slot_a, boot_config_addr, boot_config_magic, slot_a_addr, slot_b_addr, firmware_header_size,
}
use secure_boot_loader_with.Flash.{FlashDriver, IsFlash}
use secure_boot_loader_with.Flash.Bytes.{bytes_from-IsBytes}
use secure_boot_loader_with.FirmwareFormat.{header_of}
use secure_boot_loader_with.FirmwareFormat.Layout.{word_at-lt, get_or-lt}
use secure_boot_loader_with.Crypto.{Ecc}
use secure_boot_loader_with.BootConfig.{
  BootConfig, IsRecord, of_bytes, boot_config_stamp_crc, boot_config_default, boot_config_validate,
  boot_config_record_ota_to_slot,
}
use secure_boot_loader_with.BootConfig.Bytes.{stamp_crc-IsRecord}
use secure_boot_loader_with.BootConfig.Store.{
  choose_active, recover_found, slot_version, boot_config_recover_from_slots, boot_config_load,
}
use secure_boot_loader_with.BootConfig.Store.Recover.{slot_version_lem}

-- The fields hold values of their types, and the record is marked as one.
pub record IsMarked (cfg : BootConfig) : Type 0 where
  pub fits : IsRecord cfg
  pub named : cfg.magic ≡ boot_config_magic

of_bytes-IsRecord : (bs : List ℕ) → IsBytes bs → IsRecord (of_bytes bs)
of_bytes-IsRecord bs b = record {
  a_word = word_at-lt bs 0 b;
  b_word = word_at-lt bs 4 b;
  active_byte = get_or-lt bs 8 b;
  attempts_byte = get_or-lt bs 9 b;
  rollback_byte = get_or-lt bs 10 b;
  reserved_byte = get_or-lt bs 11 b;
  good_word = word_at-lt bs 12 b;
  magic_word = word_at-lt bs 16 b;
  crc_word = word_at-lt bs 20 b;
}

stamped-IsMarked : (cfg : BootConfig) → IsMarked cfg → IsMarked (boot_config_stamp_crc cfg)
unfolding boot_config_stamp_crc
stamped-IsMarked cfg k = record { fits = stamp_crc-IsRecord cfg k.fits; named = k.named }

default-IsMarked : IsMarked boot_config_default
unfolding boot_config_default
default-IsMarked = stamped-IsMarked blank (record { fits = omega arith; named = refl })
  where
    blank : BootConfig
    blank = record {
      slot_a_version = 0;
      slot_b_version = 0;
      active_slot = slot_a;
      boot_attempts = 0;
      rollback_counter = 0;
      reserved = 0;
      last_good_boot = 0;
      magic = boot_config_magic;
      crc32 = 0;
    }

chosen-IsMarked : (a b : Bool) (cfg : BootConfig) → IsMarked cfg → IsMarked (choose_active a b cfg)
unfolding choose_active
chosen-IsMarked a b cfg k = ground (arith, k.fits, k.named)

found-IsMarked :
    (a b : Bool) (va vb : ℕ) (cfg : BootConfig)
    → va < 2 ^ 32
    → vb < 2 ^ 32
    → IsMarked cfg
    → IsMarked (recover_found a b va vb cfg)
unfolding recover_found
found-IsMarked a b va vb cfg p q k =
    stamped-IsMarked _ (chosen-IsMarked a b _ (ground (arith, k.fits, k.named)))

pub recorded-IsMarked :
    (cfg : BootConfig) (slot v : ℕ)
    → v < 2 ^ 32
    → IsMarked cfg
    → IsMarked (boot_config_record_ota_to_slot cfg slot v)
unfolding boot_config_record_ota_to_slot
recorded-IsMarked cfg slot v p k = ground (arith, k.fits, k.named)

module _ (D : FlashDriver) (E : Ecc) (F : IsFlash D) where
  version_word : (a : ℕ) (m : D.Mem) → slot_version D E a m < 2 ^ 32
  unfolding header_of
  version_word a m =
      rw (slot_version_lem D E F m a)
        (word_at-lt _ 4 (bytes_from-IsBytes (D.byte_at m) (F.byte_at-lt m) a firmware_header_size))

  pub loaded-IsMarked : (m : D.Mem) → IsMarked (boot_config_load D E m).1
  unfolding boot_config_load boot_config_recover_from_slots boot_config_validate
  loaded-IsMarked m =
      let out : BootConfig = of_bytes (D.flash_read boot_config_addr 24 m).1 in
      let fits : IsRecord out = rw (F.read_lem boot_config_addr 24 m) (
        of_bytes-IsRecord _
          (bytes_from-IsBytes (D.byte_at m) (F.byte_at-lt m) boot_config_addr 24)) in
      elim (Bool-cases (boot_config_validate out)) [
        | inl v ↦ rw v (record { fits = fits; named = ground (arith, v) })
        | inr w ↦ rw w (
            found-IsMarked _ _ _ _ boot_config_default (version_word slot_a_addr m)
              (version_word slot_b_addr m) default-IsMarked)
      ]
