-- ===== src/OtaClient/Receive/Rounds.antt =====
-- Induction over the rounds of the receive loop of bootloader/src/ota_client.c.
use secure_boot_loader_with.Base.{ℕ, zero, suc, ◌≡◌, subst, Option, none, some}
use secure_boot_loader_with.Flash.{FlashDriver}
use secure_boot_loader_with.Crypto.{Ecc}
use secure_boot_loader_with.DeltaPatch.Apply.{PatchLib}
use secure_boot_loader_with.OtaClient.{Input}
use secure_boot_loader_with.OtaClient.Receive.{
  Device, ReceiveEnd, Progress, running, ended, receive_round, receive_loop,
}

module _ (D : FlashDriver) (E : Ecc) (P : PatchLib)
    (Invariant : (Progress × Device D) × Input → Type 0)
    (step : (errs : ℕ) (input : Input) (st : Device D)
      → Invariant ((running errs, st), input)
      → Invariant (receive_round D E P errs input st)) where
  -- The invariant of a result, if there is one.
  abbrev Result : Option (ReceiveEnd × Device D × Input) → Type 0
  Result none = Unit {0}
  Result (some (e, st, rest)) = Invariant ((ended e, st), rest)

  -- What every round keeps holds at the end of a session.
  pub loop_keeps :
      (fuel : ℕ) (s : (Progress × Device D) × Input) (e : ReceiveEnd) (st : Device D) (rest : Input)
      → receive_loop D E P fuel s ≡ some (e, st, rest)
      → Invariant s
      → Invariant ((ended e, st), rest)
  unfolding receive_loop
  loop_keeps fuel ((ended e', st'), input) e st rest h k = subst Result h k
  loop_keeps zero ((running errs, st'), input) e st rest h k = absurd cc
  loop_keeps (suc n) ((running errs, st'), input) e st rest h k =
      loop_keeps n (receive_round D E P errs input st') e st rest h (step errs input st' k)
