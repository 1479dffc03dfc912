-- ===== src/Board/Forever.antt =====
-- Which slot the board boots over its resets.
use secure_boot_loader_with.Base.{
  ℕ, ◌≡◌, ◌≢◌, ap, ◌∙◌, arith, true, List, [], ◌∷◌, ◌==◌, Bool-cases, inl, inr,
}
use secure_boot_loader_with.MemoryMap.{slot_b, slot_b_addr}
use secure_boot_loader_with.SharedMemory.{SharedBootBlock, bootloader_confirm_boot}
use secure_boot_loader_with.Flash.{FlashDriver, IsFlash}
use secure_boot_loader_with.Crypto.{Ecc, crypto_verify_firmware}
use secure_boot_loader_with.Uart.{Bus}
use secure_boot_loader_with.Application.{app_main}
use secure_boot_loader_with.Application.Confirms.{confirmed_after, app_main_confirms}
use secure_boot_loader_with.Boot.{boot}
use secure_boot_loader_with.Boot.Saves.{boot_quiet}
use secure_boot_loader_with.Boot.Run.{LoadsSlot}
use secure_boot_loader_with.Boot.Cycle.{IsWorking, OnlyB, boot-OnlyB, boot_b_keeps}
use secure_boot_loader_with.Board.{Board, power_cycle, power_cycles}

-- The application never asks for a swap.
confirmed_after_pending :
    (n : ℕ) (b : SharedBootBlock) → (confirmed_after n b).ota_pending ≡ b.ota_pending
unfolding bootloader_confirm_boot
confirmed_after_pending n b = ground arith

module _ (D : FlashDriver) (E : Ecc) (F : IsFlash D) (W : IsWorking D) (B : Bus) (dev : B.Dev)
    (strings : ℕ → List ℕ) (version : List ℕ) where
  -- Only slot B is left and verifies, and no swap is pending.
  pub record IsOnB (b : Board D) : Type 0 where
    pub only : OnlyB D E F W b.mem
    pub verified : crypto_verify_firmware D E slot_b_addr b.mem ≡ true
    pub quiet : b.shared.ota_pending ≡ 0

  app_quiet :
      (n : ℕ) (b : SharedBootBlock)
      → (app_main B strings version n b dev).shared.ota_pending ≡ b.ota_pending
  app_quiet n b =
      ap (λ (t : SharedBootBlock). t.ota_pending) (app_main_confirms B strings version n b dev)
      ∙ confirmed_after_pending n b

  power_cycle-IsOnB :
      (n : ℕ) (b : Board D) → IsOnB b → IsOnB (power_cycle D E B dev strings version n b)
  unfolding power_cycle
  power_cycle-IsOnB n b i =
      let (slot, only, verified, quiet) =
        boot_b_keeps D E F W b.shared b.mem i.only i.verified i.quiet in
      record {
        only = only;
        verified = verified;
        quiet = elim (Bool-cases ((boot D E b.shared b.mem).0 == 0)) [
          | inl e ↦ rw e quiet
          | inr e ↦ rw e (app_quiet n (boot D E b.shared b.mem).1.shared ∙ quiet)
        ];
      }

  -- A board that is on slot B boots it for ever, however long the application lives between the
  -- resets, whether it confirms or crashes at once every time: there is no way back.
  pub power_cycles_stay :
      (ns : List ℕ) (b : Board D)
      → IsOnB b
      → let after = power_cycles D E B dev strings version ns b in
        IsOnB after × ((boot D E after.shared after.mem).0 ≡ slot_b)
  unfolding power_cycles
  power_cycles_stay [] b i = (i, (boot_b_keeps D E F W b.shared b.mem i.only i.verified i.quiet).0)
  power_cycles_stay (n ∷ ns) b i =
      power_cycles_stay ns (power_cycle D E B dev strings version n b) (power_cycle-IsOnB n b i)

  -- On a flash that saves every configuration and keeps its bytes when it is set up again, from any
  -- contents from which the configuration that is loaded or recovered names slot A or slot B, and
  -- with any shared block: once a boot has started an application, in either slot, and slot B
  -- verifies after it, every later boot starts slot B.
  pub started_stays_on_b :
      (n : ℕ) (ns : List ℕ) (b : Board D)
      → LoadsSlot D E F b.shared b.mem
      → (boot D E b.shared b.mem).0 ≢ 0
      → crypto_verify_firmware D E slot_b_addr (boot D E b.shared b.mem).1.mem ≡ true
      → let after = power_cycles D E B dev strings version (n ∷ ns) b in
        (boot D E after.shared after.mem).0 ≡ slot_b
  unfolding power_cycles power_cycle
  started_stays_on_b n ns b names picks verified =
      (power_cycles_stay ns (power_cycle D E B dev strings version n b) first).1
    where
      first : IsOnB (power_cycle D E B dev strings version n b)
      first = record {
        only = boot-OnlyB D E F W b.shared b.mem names picks;
        verified = verified;
        quiet = elim (Bool-cases ((boot D E b.shared b.mem).0 == 0)) [
          | inl e ↦ rw e (boot_quiet D E F b.shared b.mem)
          | inr e ↦
              rw e
                (app_quiet n (boot D E b.shared b.mem).1.shared ∙ boot_quiet D E F b.shared b.mem)
        ];
      }
