-- ===== src/BootConfig/Bytes.antt =====
-- The record and its 24 bytes in memory are two views of one thing.
use secure_boot_loader_with.Base.{ℕ, ◌≡◌, [], ◌∷◌, ◌++◌, of_le32, IsBytes, arith, true}
use secure_boot_loader_with.MemoryMap.{boot_config_magic}
use secure_boot_loader_with.Crc32.Laws.{crc32-lt}
use secure_boot_loader_with.BootConfig.{
  BootConfig, IsRecord, body, bytes_of, of_bytes, boot_config_stamp_crc, boot_config_validate,
}

-- Twenty body bytes and any four behind them are the record with those four as its checksum.
pub of_bytes-body :
    (cfg : BootConfig) (a b c d : ℕ)
    → IsRecord cfg
    → of_bytes (body cfg ++ (a ∷ b ∷ c ∷ d ∷ [])) ≡ record cfg { crc32 = of_le32 a b c d }
of_bytes-body cfg a b c d h = ground arith

-- Reading back the bytes of a record gives the record.
pub of_bytes-bytes_of : (cfg : BootConfig) → IsRecord cfg → of_bytes (bytes_of cfg) ≡ cfg
of_bytes-bytes_of cfg h = ground arith

pub body-IsBytes : (cfg : BootConfig) → IsRecord cfg → IsBytes (body cfg)
body-IsBytes cfg h = omega arith

pub stamp_crc-IsRecord : (cfg : BootConfig) → IsRecord cfg → IsRecord (boot_config_stamp_crc cfg)
unfolding boot_config_stamp_crc
stamp_crc-IsRecord cfg h = ground (arith, crc32-lt (body cfg) (body-IsBytes cfg h))

-- A stamped record with the right magic is valid, and so is what its bytes are read back as.
pub stamp_crc-validate :
    (cfg : BootConfig)
    → IsRecord cfg
    → cfg.magic ≡ boot_config_magic
    → boot_config_validate (of_bytes (bytes_of (boot_config_stamp_crc cfg))) ≡ true
stamp_crc-validate cfg h m =
    rw (of_bytes-bytes_of (boot_config_stamp_crc cfg) (stamp_crc-IsRecord cfg h))
      (unfold boot_config_validate boot_config_stamp_crc in ground arith)
