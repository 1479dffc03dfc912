-- ===== src/OtaClient/Receive/Total.antt =====
-- The receive loop of bootloader/src/ota_client.c: when it ends, and what holds it up.
use secure_boot_loader_with.Base.{
  ℕ, true, zero, suc, ◌+◌, ◌-◌, ◌*◌, ◌≤◌, ◌<◌, ◌≡◌, ◌⊎◌, inl, inr, refl, arith, List, [], ◌∷◌, none,
  some, length, ltb, ◌==◌, Bool-cases, get_or, of_le16,
}
use secure_boot_loader_with.SharedMemory.{SharedBootBlock}
use secure_boot_loader_with.Flash.{FlashDriver}
use secure_boot_loader_with.Crypto.{Ecc}
use secure_boot_loader_with.DeltaPatch.Apply.{PatchLib}
use secure_boot_loader_with.OtaClient.{
  Input, FrameStatus, frame_ok, frame_timeout, frame_crc_bad, frame_too_big, frame_bad_soh,
  uart_ota_read, read_crc, read_data, read_header, read_frame, ota_frame_soh, OtaFrame,
}
use secure_boot_loader_with.OtaClient.Wire.{IsNoise, arriving, read_frame-noise}
use secure_boot_loader_with.OtaClient.Receive.{
  Device, ReceiveEnd, Progress, running, ended, answer, on_status, receive_round, receive_loop,
  ota_client_receive, dispatch, fresh_device, ota_op_abort, ota_op_end,
}

read_shortens : (n : ℕ) (input : Input) → length (uart_ota_read n input).1 ≤ length input
unfolding uart_ota_read
read_shortens zero input = omega arith
read_shortens (suc n) [] = omega arith
read_shortens (suc n) (none ∷ input) = omega arith
read_shortens (suc n) (some b ∷ input) = omega (arith, read_shortens n input)

read_crc_shortens :
    (hdr : List ℕ) (f : OtaFrame) (input : Input) → length (read_crc hdr f input).1 ≤ length input
unfolding read_crc
read_crc_shortens hdr f input = ground (arith, read_shortens 4 input)

read_data_shortens : (hdr : List ℕ) (input : Input) → length (read_data hdr input).1 ≤ length input
unfolding read_data
read_data_shortens hdr input =
    let len : ℕ = of_le16 (get_or hdr 3 0) (get_or hdr 4 0) in
    let (bytes, rest) = uart_ota_read len input in
    ground (
      arith,
      read_shortens len input,
      read_crc_shortens hdr
          (record {
            op = get_or hdr 0 0;
            seq = of_le16 (get_or hdr 1 0) (get_or hdr 2 0);
            len = len;
            data_bytes = bytes;
          })
          rest,
    )

read_header_shortens : (input : Input) → length (read_header input).1 ≤ length input
unfolding read_header
read_header_shortens input = ground (
  arith,
  read_shortens 5 input,
  read_data_shortens (uart_ota_read 5 input).0 (uart_ota_read 5 input).1,
)

-- `read_frame` uses up input, or there is none left.
pub read_frame_consumes :
    (input : Input)
    → (length (read_frame input).1 < length input)
      ⊎ (((read_frame input).0 ≡ frame_timeout) × (length (read_frame input).1 ≤ length input))
unfolding read_frame
read_frame_consumes [] = inr (refl, omega arith)
read_frame_consumes (none ∷ input) = inl (omega arith)
read_frame_consumes (some b ∷ input) =
    let later = read_frame_consumes input in
    let this = read_header_shortens input in
    elim (Bool-cases (b == ota_frame_soh)) [
      | inl e ↦ inl (rw e (omega arith))
      | inr e ↦ elim later [
        | inl l ↦ inl (rw e (omega arith))
        | inr l ↦ inr (rw e (l.0, omega arith))
      ]
    ]

module _ (D : FlashDriver) (E : Ecc) (P : PatchLib) where
  -- As long as fewer than 16 errors are counted, bytes other than the start byte hold up the round
  -- that reads them, however many they are: it counts no error for them, sends nothing, and comes to
  -- what it would have come to without them.
  pub noise_uncounted :
      (errs : ℕ) (noise : List ℕ) (input : Input) (st : Device D)
      → errs < 16
      → IsNoise noise
      → receive_round D E P errs (arriving noise input) st ≡ receive_round D E P errs input st
  unfolding receive_round
  noise_uncounted errs noise input st few n =
      let open_round : ltb errs 16 ≡ true = ground arith in
      rw (open_round, read_frame-noise noise input n) refl

  -- What is left of a session: rounds that use up input, and errors.
  abbrev pub weight : (Progress × Device D) × Input → ℕ
  weight ((ended e, st), input) = 0
  weight ((running errs, st), input) = 1 + 17 * length input + (16 - errs)

  frame_lighter :
      (errs n : ℕ) (f : OtaFrame) (rest : Input) (st : Device D)
      → errs < 16
      → length rest < n
      → weight (on_status D E P errs (frame_ok f) st, rest) < 1 + 17 * n + (16 - errs)
  unfolding on_status answer
  frame_lighter errs n f rest st h l = elim (Bool-cases (f.op == ota_op_abort)) [
    | inl e ↦ rw e (omega arith)
    | inr e ↦ elim (Bool-cases (dispatch D E P f st).0) [
      | inr refused ↦ rw (e, refused) (omega arith)
      | inl done ↦ elim (Bool-cases (f.op == ota_op_end)) [
        | inl last ↦ rw (e, done, last) (omega arith)
        | inr more ↦ rw (e, done, more) (omega arith)
      ]
    ]
  ]

  status_lighter :
      (errs n : ℕ) (status : FrameStatus) (rest : Input) (st : Device D)
      → errs < 16
      → (length rest < n) ⊎ ((status ≡ frame_timeout) × (length rest ≤ n))
      → weight (on_status D E P errs status st, rest) < 1 + 17 * n + (16 - errs)
  unfolding on_status answer
  status_lighter errs n (frame_ok f) rest st h c =
      frame_lighter errs n f rest st h (elim c [ inl l ↦ l | inr (e, l) ↦ absurd cc ])
  status_lighter errs n frame_timeout rest st h c = omega arith
  status_lighter errs n frame_crc_bad rest st h c = elim c [
    | inl l ↦ omega arith
    | inr (e, l) ↦ absurd cc
  ]
  status_lighter errs n frame_too_big rest st h c = elim c [
    | inl l ↦ omega arith
    | inr (e, l) ↦ absurd cc
  ]
  status_lighter errs n frame_bad_soh rest st h c = elim c [
    | inl l ↦ omega arith
    | inr (e, l) ↦ absurd cc
  ]

  round_lighter :
      (errs : ℕ) (input : Input) (st : Device D)
      → weight (receive_round D E P errs input st) < weight ((running errs, st), input)
  unfolding receive_round
  round_lighter errs input st = elim (Bool-cases (ltb errs 16)) [
    | inl e ↦
        rw e (status_lighter errs (length input) _ _ st (ground arith) (read_frame_consumes input))
    | inr e ↦ rw e (omega arith)
  ]

  -- Fuel that covers what is left is enough.
  loop_ends :
      (fuel : ℕ) (s : (Progress × Device D) × Input)
      → weight s ≤ fuel
      → (r : ReceiveEnd × Device D × Input) × (receive_loop D E P fuel s ≡ some r)
  unfolding receive_loop
  loop_ends fuel ((ended e, st), input) h = ((e, st, input), refl)
  loop_ends zero ((running errs, st), input) h = absurd (omega arith)
  loop_ends (suc n) ((running errs, st), input) h =
      loop_ends n (receive_round D E P errs input st) (omega (arith, round_lighter errs input st))

  -- If finitely many bytes and pauses arrive, whatever they are, and then nothing more, a session
  -- ends: with a reset, or by returning false.
  pub receive_ends :
      (input : Input) (shared : SharedBootBlock) (m : D.Mem)
      → (r : ReceiveEnd × Device D × Input) × (ota_client_receive D E P input shared m ≡ some r)
  unfolding ota_client_receive
  receive_ends input shared m =
      loop_ends (17 * length input + 18) ((running 0, fresh_device D shared m), input) (omega arith)
