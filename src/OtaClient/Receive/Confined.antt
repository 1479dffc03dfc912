-- ===== src/OtaClient/Receive/Confined.antt =====
-- What a whole session can write: bootloader/src/ota_client.c with slot A active.
use secure_boot_loader_with.Base.{
  ℕ, ◌+◌, ◌*◌, ◌≡◌, inl, inr, refl, arith, some, true, length, ltb, ◌==◌, Bool-cases,
}
use secure_boot_loader_with.MemoryMap.{slot_a}
use secure_boot_loader_with.SharedMemory.{SharedBootBlock}
use secure_boot_loader_with.Flash.{FlashDriver, IsFlash}
use secure_boot_loader_with.Crypto.{Ecc}
use secure_boot_loader_with.BootConfig.Store.{boot_config_load}
use secure_boot_loader_with.DeltaPatch.Apply.{PatchLib}
use secure_boot_loader_with.OtaClient.{
  Input, FrameStatus, frame_ok, frame_timeout, frame_crc_bad, frame_too_big, frame_bad_soh,
  read_frame,
}
use secure_boot_loader_with.OtaClient.Receive.{
  Device, ReceiveEnd, Progress, running, answer, on_status, receive_round, ota_client_receive,
  fresh_device, send_response, ota_op_abort,
}
use secure_boot_loader_with.OtaClient.Receive.Framed.{Framed, read_frame-Framed}
use secure_boot_loader_with.OtaClient.Receive.Contained.{Contained, dispatch-Contained}
use secure_boot_loader_with.OtaClient.Receive.Rounds.{loop_keeps}

module _ (D : FlashDriver) (E : Ecc) (P : PatchLib) (F : IsFlash D) (m0 : D.Mem)
    (valid : (boot_config_load D E m0).0 ≡ true)
    (in_a : (boot_config_load D E m0).1.active_slot ≡ slot_a) where
  abbrev Invariant : (Progress × Device D) × Input → Type 0
  Invariant ((p, st), input) = Contained D E m0 st.client

  pub on_status-Contained :
      (errs : ℕ) (status : FrameStatus) (st : Device D)
      → Framed status
      → Contained D E m0 st.client
      → Contained D E m0 (on_status D E P errs status st).1.client
  unfolding on_status answer send_response
  on_status-Contained errs (frame_ok f) st len h = elim (Bool-cases (f.op == ota_op_abort)) [
    | inl e ↦ rw e h
    | inr e ↦ rw e (dispatch-Contained D E F m0 valid in_a P f st len h)
  ]
  on_status-Contained errs frame_timeout st len h = h
  on_status-Contained errs frame_crc_bad st len h = h
  on_status-Contained errs frame_too_big st len h = h
  on_status-Contained errs frame_bad_soh st len h = h

  receive_round-Contained :
      (errs : ℕ) (input : Input) (st : Device D)
      → Invariant ((running errs, st), input)
      → Invariant (receive_round D E P errs input st)
  unfolding receive_round
  receive_round-Contained errs input st h = elim (Bool-cases (ltb errs 16)) [
    | inl e ↦ rw e (on_status-Contained errs (read_frame input).0 st (read_frame-Framed input) h)
    | inr e ↦ rw e h
  ]

  -- A session that begins with a valid record that names slot A as active, whatever arrives, and
  -- whatever the patch libraries do, changes no byte outside the sectors of slot B, so neither the
  -- boot configuration nor the first 444 KB of slot A; and a transfer that is left open goes to
  -- slot B.
  pub receive_confined :
      (input : Input) (shared : SharedBootBlock) (e : ReceiveEnd) (st : Device D) (rest : Input)
      → ota_client_receive D E P input shared m0 ≡ some (e, st, rest)
      → Contained D E m0 st.client
  unfolding ota_client_receive
  receive_confined input shared e st rest h =
      loop_keeps D E P Invariant receive_round-Contained (17 * length input + 18)
        ((running 0, fresh_device D shared m0), input) e st rest h
        (record { same = λ x o. refl; state = inl refl; fits = omega arith })
