-- ===== src/Recovery/Run.antt =====
-- The fuel of the menu of bootloader/src/recovery.c is enough for every finite input.
use secure_boot_loader_with.Base.{
  ℕ, zero, suc, ◌+◌, ◌*◌, ◌≤◌, ◌<◌, ◌≡◌, inl, inr, refl, ap, ◌∙◌, arith, ◌||◌, ◌==◌, [], ◌∷◌,
  Option, none, some, length, Bool-cases,
}
use secure_boot_loader_with.SharedMemory.{SharedBootBlock}
use secure_boot_loader_with.Flash.{FlashDriver}
use secure_boot_loader_with.Crypto.{Ecc}
use secure_boot_loader_with.DeltaPatch.Apply.{PatchLib}
use secure_boot_loader_with.OtaClient.{Input}
use secure_boot_loader_with.OtaClient.Receive.{
  Device, ReceiveEnd, system_reset, returned_false, running, fresh_device, receive_round,
  ota_client_receive,
}
use secure_boot_loader_with.OtaClient.Receive.Total.{read_frame_consumes, receive_ends}
use secure_boot_loader_with.OtaClient.Receive.Rounds.{loop_keeps}
use secure_boot_loader_with.Recovery.{
  Recovery, MenuEnd, next_command, was_reset, verify_and_report, uploaded, command, menu_loop,
  recovery_mode_run,
}

module _ (D : FlashDriver) (E : Ecc) (P : PatchLib) where
  round_shortens :
      (n errs : ℕ) (input : Input) (st : Device D)
      → length input ≤ n
      → length (receive_round D E P errs input st).1 ≤ n
  unfolding receive_round
  round_shortens n errs input st h = ground (arith, read_frame_consumes input)

  session_shortens :
      (input : Input) (shared : SharedBootBlock) (m : D.Mem) (e : ReceiveEnd) (dev : Device D)
      (rest : Input)
      → ota_client_receive D E P input shared m ≡ some (e, dev, rest)
      → length rest ≤ length input
  unfolding ota_client_receive
  session_shortens input shared m e dev rest h =
      loop_keeps D E P (λ s. length s.1 ≤ length input)
        (λ errs i st k. round_shortens (length input) errs i st k) (17 * length input + 18)
        ((running 0, fresh_device D shared m), input) e dev rest h (omega arith)

  -- A command always comes to a result, and does not lengthen the input.
  command_ends :
      (cmd : ℕ) (input : Input) (st : Recovery D)
      → (r : MenuEnd × Recovery D × Input) × (command D E P cmd input st ≡ some r)
        × (length r.2 ≤ length input)
  unfolding command uploaded
  command_ends cmd input st =
      let (r, e) = receive_ends D E P input st.shared st.mem in
      elim (Bool-cases (cmd == 0x55 || cmd == 0x75)) [
        | inl u ↦ rw (u, e) (upload_ends r e)
        | inr u ↦ elim (Bool-cases (cmd == 0x56 || cmd == 0x76)) [
          | inl v ↦ rw (u, v) ((next_command, verify_and_report D E P st, input), refl, omega arith)
          | inr v ↦ elim (Bool-cases (cmd == 0x52 || cmd == 0x72)) [
            | inl x ↦ rw (u, v, x) ((was_reset, st, input), refl, omega arith)
            | inr x ↦ rw (u, v, x) ((next_command, st, input), refl, omega arith)
          ]
        ]
      ]
    where
      upload_ends :
          (r : ReceiveEnd × Device D × Input)
          → ota_client_receive D E P input st.shared st.mem ≡ some r
          → (o : MenuEnd × Recovery D × Input) × (uploaded D E P (some r) st ≡ some o)
            × (length o.2 ≤ length input)
      upload_ends (system_reset, dev, rest) e = (
        (was_reset, record st { shared = dev.shared; mem = dev.client.mem }, rest),
        refl,
        session_shortens input st.shared st.mem system_reset dev rest e,
      )
      upload_ends (returned_false, dev, rest) e = (
        (next_command, record st { shared = dev.shared; mem = dev.client.mem }, rest),
        refl,
        session_shortens input st.shared st.mem returned_false dev rest e,
      )

  menu_ends :
      (n : ℕ) (o : MenuEnd × Recovery D × Input)
      → length o.2 < n
      → (r : MenuEnd × Recovery D) × (menu_loop D E P n (some o) ≡ some r)
  unfolding menu_loop
  menu_ends n (was_reset, st, input) h = ((was_reset, st), refl)
  menu_ends zero (next_command, st, input) h = absurd (omega arith)
  menu_ends (suc n) (next_command, st, []) h = ((next_command, st), refl)
  menu_ends (suc n) (next_command, st, none ∷ input) h =
      menu_ends n (next_command, st, input) (omega arith)
  menu_ends (suc n) (next_command, st, some cmd ∷ input) h =
      let (o, e, shorter) = command_ends cmd input st in
      let (r, e') = menu_ends n o (omega arith) in
      (r, ap (λ (t : Option (MenuEnd × Recovery D × Input)). menu_loop D E P n t) e ∙ e')

  -- On every finite input the menu comes to a reset or to the end of the input.
  recovery_ends :
      (input : Input) (shared : SharedBootBlock) (m : D.Mem)
      → (r : MenuEnd × Recovery D) × (recovery_mode_run D E P input shared m ≡ some r)
  unfolding recovery_mode_run
  recovery_ends input shared m =
      menu_ends (length input + 1)
        (next_command, record { shared = shared; mem = m; reports = [] }, input) (omega arith)
