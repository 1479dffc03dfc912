-- ===== src/OtaClient/Receive/Installs.antt =====
-- What a reset at the end of a session means: bootloader/src/ota_client.c with slot A active.
use secure_boot_loader_with.Base.{
  ℕ, ◌+◌, ◌*◌, ◌≡◌, ◌⊎◌, inl, inr, refl, ap, ◌∙◌, sym, arith, some, Bool, true, false, length, ltb,
  ◌==◌, ◌||◌, not, Bool-cases,
}
use secure_boot_loader_with.MemoryMap.{slot_a, slot_b_addr}
use secure_boot_loader_with.SharedMemory.{SharedBootBlock}
use secure_boot_loader_with.Flash.{FlashDriver, IsFlash}
use secure_boot_loader_with.Crypto.{Ecc}
use secure_boot_loader_with.BootConfig.{BootConfig}
use secure_boot_loader_with.BootConfig.Store.{boot_config_load}
use secure_boot_loader_with.DeltaPatch.Apply.{PatchLib}
use secure_boot_loader_with.OtaClient.{
  Input, FrameStatus, frame_ok, frame_timeout, frame_crc_bad, frame_too_big, frame_bad_soh,
  read_frame, OtaFrame,
}
use secure_boot_loader_with.OtaClient.Session.{OtaState}
use secure_boot_loader_with.OtaClient.Receive.{
  Device, ReceiveEnd, Progress, running, ended, answer, on_status, receive_round,
  ota_client_receive, dispatch, pending, system_reset, returned_false, installable, ota_op_end,
  fresh_device, send_response, ota_op_abort, handle_end,
}
use secure_boot_loader_with.OtaClient.Receive.Framed.{read_frame-Framed}
use secure_boot_loader_with.OtaClient.Receive.Contained.{Contained, end_ok}
use secure_boot_loader_with.OtaClient.Receive.Rounds.{loop_keeps}
use secure_boot_loader_with.OtaClient.Receive.Confined.{on_status-Contained}
use secure_boot_loader_with.Crypto.Verify.{IsGenuine, header_at, verify_firmware_iff}
use secure_boot_loader_with.MemoryMap.{firmware_header_size}
use secure_boot_loader_with.BootConfig.{boot_config_firmware_allowed}
use secure_boot_loader_with.OtaClient.Receive.Contained.{load_local}
use secure_boot_loader_with.OtaClient.Receive.{cleared_state}

module _ (D : FlashDriver) (E : Ecc) (P : PatchLib) (F : IsFlash D) (m0 : D.Mem)
    (valid : (boot_config_load D E m0).0 ≡ true)
    (in_a : (boot_config_load D E m0).1.active_slot ≡ slot_a) (shared : SharedBootBlock) where
  -- What a session has asked the next boot for: nothing while it runs and when it returns, a swap
  -- to an image that was checked when it resets.
  abbrev pub Asked : Progress → Device D → Type 0
  Asked (ended system_reset) st =
      (st.shared ≡ pending shared) × (installable D E slot_b_addr st.client.mem ≡ true)
  Asked _ st = st.shared ≡ shared

  abbrev Invariant : (Progress × Device D) × Input → Type 0
  Invariant ((p, st), input) = Contained D E m0 st.client × Asked p st

  -- END asks for a swap exactly when it succeeds.
  end_asks :
      (st : Device D)
      → Contained D E m0 st.client
      → st.shared ≡ shared
      → (((handle_end D E P st).0 ≡ true)
          × ((handle_end D E P st).1.shared ≡ pending shared)
          × (installable D E slot_b_addr (handle_end D E P st).1.client.mem ≡ true))
        ⊎ (((handle_end D E P st).0 ≡ false) × ((handle_end D E P st).1.shared ≡ shared))
  unfolding handle_end
  end_asks st h s =
      let g : OtaState = st.client.g_state in
      elim (Bool-cases (not g.active || not (g.written == g.xfer_total))) [
        | inl e ↦ inr (rw e (refl, s))
        | inr e ↦ elim h.state [
          | inl idle ↦ absurd (ground arith)
          | inr b ↦ elim (Bool-cases (end_ok D E P st)) [
            | inr bad ↦ inr (rw (e, bad) (refl, s))
            | inl good ↦ inl (rw (e, good) (refl, ap pending s, rw (sym b.slot) (ground arith)))
          ]
        ]
      ]

  -- The other handlers leave the shared block alone.
  dispatch_asks :
      (f : OtaFrame) (st : Device D)
      → (f.op == ota_op_end) ≡ false
      → (dispatch D E P f st).1.shared ≡ st.shared
  unfolding dispatch
  dispatch_asks f st e = ground arith

  dispatch_end :
      (f : OtaFrame) (st : Device D)
      → (f.op == ota_op_end) ≡ true
      → dispatch D E P f st ≡ handle_end D E P st
  unfolding dispatch
  dispatch_end f st e = ground arith

  status_asks :
      (errs : ℕ) (status : FrameStatus) (st : Device D)
      → Contained D E m0 st.client
      → st.shared ≡ shared
      → let (p, after) = on_status D E P errs status st in Asked p after
  unfolding on_status answer send_response
  status_asks errs (frame_ok f) st h s = elim (Bool-cases (f.op == ota_op_abort)) [
    | inl a ↦ rw a s
    | inr a ↦ elim (Bool-cases (f.op == ota_op_end)) [
      | inl e ↦ elim (end_asks st h s) [
        | inl (done, asks, good) ↦ rw (a, dispatch_end f st e, done, e) (asks, good)
        | inr (refused, same) ↦ rw (a, dispatch_end f st e, refused) same
      ]
      | inr e ↦ elim (Bool-cases (dispatch D E P f st).0) [
        | inl done ↦ rw (a, done, e) (dispatch_asks f st e ∙ s)
        | inr refused ↦ rw (a, refused) (dispatch_asks f st e ∙ s)
      ]
    ]
  ]
  status_asks errs frame_timeout st h s = s
  status_asks errs frame_crc_bad st h s = s
  status_asks errs frame_too_big st h s = s
  status_asks errs frame_bad_soh st h s = s

  -- While it runs, the session has not touched the shared block.
  round_keeps :
      (errs : ℕ) (input : Input) (st : Device D)
      → Invariant ((running errs, st), input)
      → Invariant (receive_round D E P errs input st)
  unfolding receive_round
  round_keeps errs input st (h, s) = elim (Bool-cases (ltb errs 16)) [
    | inl e ↦ rw e (
      on_status-Contained D E P F m0 valid in_a errs (read_frame input).0 st
          (read_frame-Framed input) h,
      status_asks errs (read_frame input).0 st h s,
    )
    | inr e ↦ rw e (h, s)
  ]

  pub receive_keeps :
      (input : Input) (e : ReceiveEnd) (st : Device D) (rest : Input)
      → ota_client_receive D E P input shared m0 ≡ some (e, st, rest)
      → Invariant ((ended e, st), rest)
  unfolding ota_client_receive
  receive_keeps input e st rest h =
      loop_keeps D E P Invariant round_keeps (17 * length input + 18)
        ((running 0, fresh_device D shared m0), input) e st rest h
        (record { same = λ x o. refl; state = inl refl; fits = omega arith }, refl)

  installable_lem :
      (m : D.Mem)
      → Contained D E m0 (record { g_state = cleared_state; mem = m })
      → installable D E slot_b_addr m ≡ true
      → IsGenuine D E slot_b_addr m
        × (boot_config_firmware_allowed
              (boot_config_load D E m0).1
              (header_at D E slot_b_addr m).version
            ≡ true)
  unfolding installable
  installable_lem m h i =
      let load = load_local D E F m0 m valid h.same in
      let read = F.read_lem slot_b_addr firmware_header_size m in
      (
        (verify_firmware_iff D E F slot_b_addr m (omega arith)).0 (ground arith),
        ap
              (λ (t : Bool × BootConfig).
                boot_config_firmware_allowed t.1 (header_at D E slot_b_addr m).version)
              (sym load)
            ∙ ground (arith, read),
      )

  -- If the stored configuration is valid and names slot A as active, a session that ends with a reset
  -- has put into slot B an image that the key's owner signed, and whose version the floor of that
  -- configuration allows, and has asked for a swap; one that returns false has left the shared block
  -- alone.
  pub receive_installs :
      (input : Input) (e : ReceiveEnd) (st : Device D) (rest : Input)
      → ota_client_receive D E P input shared m0 ≡ some (e, st, rest)
      → ((e ≡ system_reset)
          × (st.shared ≡ pending shared)
          × IsGenuine D E slot_b_addr st.client.mem
          × (boot_config_firmware_allowed
                (boot_config_load D E m0).1
                (header_at D E slot_b_addr st.client.mem).version
              ≡ true))
        ⊎ ((e ≡ returned_false) × (st.shared ≡ shared))
  receive_installs input system_reset st rest h =
      let (c, (asks, i)) = receive_keeps input system_reset st rest h in
      let (genuine, allowed) =
        installable_lem st.client.mem
          (record { same = c.same; state = inl refl; fits = omega arith }) i in
      inl (refl, asks, genuine, allowed)
  receive_installs input returned_false st rest h =
      inr (refl, (receive_keeps input returned_false st rest h).1)
