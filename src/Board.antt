-- ===== src/Board.antt =====
-- The board over its resets: the bootloader of bootloader/src/main.c, and then the application of
-- application/src/app_main.c until the next reset.
pub mod Forever
mod Tests
use secure_boot_loader_with.Base.{ℕ, List, [], ◌∷◌, ◌==◌, if◌then◌else◌}
use secure_boot_loader_with.SharedMemory.{SharedBootBlock}
use secure_boot_loader_with.Flash.{FlashDriver}
use secure_boot_loader_with.Crypto.{Ecc}
use secure_boot_loader_with.Uart.{Bus}
use secure_boot_loader_with.Application.{AppState, app_main}
use secure_boot_loader_with.Boot.{BootState, boot}

-- What a reset keeps: the flash, and the shared block.
pub record Board (D : FlashDriver) : Type 0 where
  pub mem : D.Mem
  pub shared : SharedBootBlock

-- `dev` is what the peripherals are after a reset, `version` the text of the build.
module _ (D : FlashDriver) (E : Ecc) (B : Bus) (dev : B.Dev) (strings : ℕ → List ℕ)
    (version : List ℕ) where
  -- One reset: the boot, and `lifetime` turns of the application if one is started.
  unfoldable pub power_cycle : ℕ → Board D → Board D
  power_cycle lifetime b =
      let (slot, st) = boot D E b.shared b.mem in
      record {
        mem = st.mem;
        shared =
            if slot == 0
            then st.shared
            else (app_main B strings version lifetime st.shared dev).shared;
      }

  -- Resets in a row, by the lifetimes of the application.
  unfoldable pub power_cycles : List ℕ → Board D → Board D
  power_cycles [] b = b
  power_cycles (n ∷ ns) b = power_cycles ns (power_cycle n b)
