-- ===== src/Crc32/Tests.antt =====
-- The CRC at inputs whose value is known.
use secure_boot_loader_with.Base.{◌≡◌, ◌≢◌, refl, [], ◌∷◌, arith}
use secure_boot_loader_with.Crc32.{crc32}
use secure_boot_loader_with.Crc32.Detect.{crc32_detects_byte}

-- The check value of CRC-32: the text "123456789".
check_value :
    crc32 (0x31 ∷ 0x32 ∷ 0x33 ∷ 0x34 ∷ 0x35 ∷ 0x36 ∷ 0x37 ∷ 0x38 ∷ 0x39 ∷ []) ≡ 0xCBF4_3926
unfolding crc32
check_value = refl

crc32_detects_byte_example : crc32 (1 ∷ 2 ∷ 3 ∷ []) ≢ crc32 (1 ∷ 130 ∷ 3 ∷ [])
crc32_detects_byte_example =
    crc32_detects_byte (1 ∷ []) 2 130 (3 ∷ []) (omega arith) (omega arith) (omega arith)
      (omega arith) (omega arith)
