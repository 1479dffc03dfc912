-- ===== src/SharedMemory.antt =====
-- common/shared_memory.h and application/include/bootloader_api.h: the 16 bytes of SRAM that the
-- application and the bootloader share over a reset.
use secure_boot_loader_with.Base.{ℕ}
use secure_boot_loader_with.MemoryMap.{shared_block_magic}

pub record SharedBootBlock : Type 0 where
  pub magic : ℕ  -- uint32_t
  pub boot_confirmed : ℕ  -- uint32_t
  pub ota_pending : ℕ  -- uint32_t
  pub reserved : ℕ  -- uint32_t

unfoldable pub bootloader_confirm_boot : SharedBootBlock → SharedBootBlock
bootloader_confirm_boot b = record b { magic = shared_block_magic; boot_confirmed = 1 }

unfoldable pub bootloader_request_ota_swap : SharedBootBlock → SharedBootBlock
bootloader_request_ota_swap b = record b { magic = shared_block_magic; ota_pending = 1 }
