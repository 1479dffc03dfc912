-- ===== src/FirmwareFormat.antt =====
-- common/firmware_format.h: the 512-byte header in front of every image.
pub mod Layout
use secure_boot_loader_with.Base.{
  ℕ, ◌+◌, ◌*◌, ◌^◌, List, [], ◌∷◌, ◌++◌, of_le32, le32, get_or, take, drop,
}

pub record FirmwareHeader : Type 0 where
  pub magic : ℕ  -- uint32_t
  pub version : ℕ  -- uint32_t
  pub image_size : ℕ  -- uint32_t
  pub timestamp : ℕ  -- uint32_t
  pub crc32 : ℕ  -- uint32_t
  pub signature : List ℕ  -- 64 bytes
  pub reserved : List ℕ  -- 428 bytes

abbrev pub word_at : List ℕ → ℕ → ℕ
word_at bs i =
    of_le32 (get_or bs i 0) (get_or bs (i + 1) 0) (get_or bs (i + 2) 0) (get_or bs (i + 3) 0)

-- The packed struct that 512 bytes of memory are.
unfoldable pub header_of : List ℕ → FirmwareHeader
header_of bs = record {
  magic = word_at bs 0;
  version = word_at bs 4;
  image_size = word_at bs 8;
  timestamp = word_at bs 12;
  crc32 = word_at bs 16;
  signature = take 64 (drop 20 bs);
  reserved = drop 84 bs;
}

-- Its bytes in memory.
unfoldable pub header_bytes : FirmwareHeader → List ℕ
header_bytes h =
    le32 h.magic
    ++ (le32 h.version
        ++ (le32 h.image_size
            ++ (le32 h.timestamp ++ (le32 h.crc32 ++ (h.signature ++ h.reserved)))))
