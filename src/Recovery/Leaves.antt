-- ===== src/Recovery/Leaves.antt =====
-- What the menu of bootloader/src/recovery.c can leave behind.
use secure_boot_loader_with.Base.{ℕ, ◌≡◌, ◌⊎◌, true, Option, none, some}
use secure_boot_loader_with.MemoryMap.{slot_a, slot_b_addr}
use secure_boot_loader_with.SharedMemory.{SharedBootBlock}
use secure_boot_loader_with.Flash.{FlashDriver, IsFlash}
use secure_boot_loader_with.Crypto.{Ecc}
use secure_boot_loader_with.Crypto.Verify.{IsGenuine, header_at}
use secure_boot_loader_with.BootConfig.{BootConfig, boot_config_firmware_allowed}
use secure_boot_loader_with.BootConfig.Store.{boot_config_load}
use secure_boot_loader_with.DeltaPatch.Apply.{PatchLib}
use secure_boot_loader_with.OtaClient.{Input}
use secure_boot_loader_with.OtaClient.Receive.{pending}
use secure_boot_loader_with.OtaClient.Receive.Contained.{NotInB, load_local}
use secure_boot_loader_with.Recovery.{Recovery, MenuEnd, was_reset}

module _ (D : FlashDriver) (E : Ecc) (P : PatchLib) (F : IsFlash D) (m0 : D.Mem)
    (valid : (boot_config_load D E m0).0 ≡ true)
    (in_a : (boot_config_load D E m0).1.active_slot ≡ slot_a) (shared : SharedBootBlock) where
  -- The menu has changed nothing outside slot B, and the shared block not at all, or for an image
  -- that was checked.
  abbrev pub LeftBehind : MenuEnd → Recovery D → Type 0
  LeftBehind e st =
      ((x : ℕ) → NotInB x → D.byte_at st.mem x ≡ D.byte_at m0 x)
      × ((st.shared ≡ shared)
          ⊎ ((e ≡ was_reset)
              × (st.shared ≡ pending shared)
              × IsGenuine D E slot_b_addr st.mem
              × (boot_config_firmware_allowed (boot_config_load D E m0).1
                    (header_at D E slot_b_addr st.mem).version
                  ≡ true)))

  abbrev LeftBy : Option (MenuEnd × Recovery D × Input) → Type 0
  LeftBy none = Unit {0}
  LeftBy (some (e, st, rest)) = LeftBehind e st

  module _ (st : Recovery D) (same : (x : ℕ) → NotInB x → D.byte_at st.mem x ≡ D.byte_at m0 x)
      (s : st.shared ≡ shared) where
    load : boot_config_load D E st.mem ≡ boot_config_load D E m0
    load = load_local D E F m0 st.mem valid same

  abbrev LeftAt : Option (MenuEnd × Recovery D) → Type 0
  LeftAt none = Unit {0}
  LeftAt (some (e, st)) = LeftBehind e st
