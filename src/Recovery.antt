-- ===== src/Recovery.antt =====
-- bootloader/src/recovery.c: the menu that runs when neither slot verifies. The log is
-- write-only and left out of the steps; Recovery/Log has its texts.
pub mod Log
pub mod Run
pub mod Leaves
mod Tests
use secure_boot_loader_with.Base.{
  ℕ, zero, suc, ◌+◌, Bool, true, false, ◌||◌, ◌==◌, if◌then◌else◌, List, [], ◌∷◌, ◌++◌, Option,
  none, some, length,
}
use secure_boot_loader_with.MemoryMap.{slot_a_addr, slot_b_addr}
use secure_boot_loader_with.SharedMemory.{SharedBootBlock}
use secure_boot_loader_with.Flash.{FlashDriver}
use secure_boot_loader_with.Crypto.{Ecc, crypto_verify_firmware}
use secure_boot_loader_with.DeltaPatch.Apply.{PatchLib}
use secure_boot_loader_with.OtaClient.{Input}
use secure_boot_loader_with.OtaClient.Receive.{
  Device, ReceiveEnd, system_reset, returned_false, ota_client_receive,
}

-- What the menu acts on, and the verdicts on slot A and slot B that it has reported.
pub record Recovery (D : FlashDriver) : Type 0 where
  pub shared : SharedBootBlock
  pub mem : D.Mem
  pub reports : List (Bool × Bool)

-- A command is done and the menu goes on, or the system was reset.
pub data MenuEnd : Type 0 where
  next_command was_reset : MenuEnd

module _ (D : FlashDriver) (E : Ecc) (P : PatchLib) where
  unfoldable pub verify_and_report : Recovery D → Recovery D
  verify_and_report st = record st {
    reports =
        st.reports
        ++ ((
          crypto_verify_firmware D E slot_a_addr st.mem,
          crypto_verify_firmware D E slot_b_addr st.mem,
        )
            ∷ []);
  }

  -- What follows an upload; `none` is a session that does not end.
  unfoldable pub uploaded :
      Option (ReceiveEnd × Device D × Input) → Recovery D → Option (MenuEnd × Recovery D × Input)
  uploaded none st = none
  uploaded (some (system_reset, dev, rest)) st =
      some (was_reset, record st { shared = dev.shared; mem = dev.client.mem }, rest)
  uploaded (some (returned_false, dev, rest)) st =
      some (next_command, record st { shared = dev.shared; mem = dev.client.mem }, rest)

  -- The `switch`: U, V and R in either case.
  unfoldable pub command : ℕ → Input → Recovery D → Option (MenuEnd × Recovery D × Input)
  command cmd input st =
      if cmd == 0x55 || cmd == 0x75
      then uploaded (ota_client_receive D E P input st.shared st.mem) st
      else if cmd == 0x56 || cmd == 0x76
      then some (next_command, verify_and_report st, input)
      else if cmd == 0x52 || cmd == 0x72
      then some (was_reset, st, input)
      else some (next_command, st, input)

  -- The menu, on fuel, from the result of a command. It ends in a reset, or waits for input that does
  -- not arrive.
  unfoldable pub menu_loop :
      ℕ → Option (MenuEnd × Recovery D × Input) → Option (MenuEnd × Recovery D)
  menu_loop n none = none
  menu_loop n (some (was_reset, st, input)) = some (was_reset, st)
  menu_loop zero (some (next_command, st, input)) = none
  menu_loop (suc n) (some (next_command, st, [])) = some (next_command, st)
  menu_loop (suc n) (some (next_command, st, none ∷ input)) =
      menu_loop n (some (next_command, st, input))
  menu_loop (suc n) (some (next_command, st, some cmd ∷ input)) = menu_loop n (command cmd input st)

  -- Every round takes an element of the input.
  unfoldable pub recovery_mode_run : Input → SharedBootBlock → D.Mem → Option (MenuEnd × Recovery D)
  recovery_mode_run input shared m =
      menu_loop (length input + 1)
        (some (next_command, record { shared = shared; mem = m; reports = [] }, input))
