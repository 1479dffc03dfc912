-- ===== src/OtaClient/Receive/Frames.antt =====
-- The rounds of the receive loop of bootloader/src/ota_client.c on frames that arrive intact.
use secure_boot_loader_with.Base.{
  ℕ, suc, ◌+◌, ◌-◌, ◌*◌, some, ◌≤◌, ◌<◌, ◌≡◌, refl, ap, ◌∙◌, arith, List, [], ◌∷◌, ◌++◌, true, ltb,
  length, le16, le32, append_assoc, append-nil, ==_iff,
}
use secure_boot_loader_with.Flash.{FlashDriver}
use secure_boot_loader_with.Crc32.{crc32}
use secure_boot_loader_with.Crc32.Laws.{crc32-lt}
use secure_boot_loader_with.Crypto.{Ecc}
use secure_boot_loader_with.SharedMemory.{SharedBootBlock}
use secure_boot_loader_with.DeltaPatch.Apply.{PatchLib}
use secure_boot_loader_with.OtaClient.{Input, OtaFrame, frame_ok, read_frame}
use secure_boot_loader_with.OtaClient.Wire.{
  IsFrame, arriving, covered, on_wire, header_ok, read_frame-on_wire,
}
use secure_boot_loader_with.OtaClient.Session.{
  OtaClient, handle_start, handle_start_delta, handle_data,
}
use secure_boot_loader_with.OtaClient.Transfer.{AllAccepted, handle_all}
use secure_boot_loader_with.OtaClient.Receive.{
  Device, system_reset, Progress, ota_op_start_delta, fresh_device, ota_client_receive, running,
  ended, ota_op_start, ota_op_data, ota_op_end, ota_resp_ack, send_response, handle_end, dispatch,
  answer, on_status, receive_round, receive_loop,
}

-- Frames that arrive one behind the other, intact.
abbrev pub stream : List OtaFrame → Input → Input
stream [] rest = rest
stream (f ∷ fs) rest = arriving (on_wire f (crc32 (covered f))) (stream fs rest)

-- The answers that accept them.
abbrev pub acks : List OtaFrame → List ℕ
acks [] = []
acks (f ∷ fs) = ota_resp_ack ∷ (le16 f.seq ++ acks fs)

-- All of them carry data.
abbrev pub AllData : List OtaFrame → Type 0
AllData [] = Unit {0}
AllData (f ∷ fs) = (f.op ≡ ota_op_data) × AllData fs

pub rounds_of : List OtaFrame → ℕ → ℕ
rounds_of [] n = n
rounds_of (f ∷ fs) n = suc (rounds_of fs n)

pub rounds_lem : (fs : List OtaFrame) (n : ℕ) → rounds_of fs n ≡ length fs + n
unfolding rounds_of
rounds_lem [] n = omega arith
rounds_lem (f ∷ fs) n = omega (arith, rounds_lem fs n)

arriving-longer : (bs : List ℕ) (rest : Input) → length rest ≤ length (arriving bs rest)
unfolding arriving
arriving-longer [] rest = omega arith
arriving-longer (b ∷ bs) rest = omega (arith, arriving-longer bs rest)

pub stream-longer : (fs : List OtaFrame) (rest : Input) → length fs ≤ length (stream fs rest)
unfolding arriving
stream-longer [] rest = omega arith
stream-longer (f ∷ fs) rest = omega (
  arith,
  stream-longer fs rest,
  arriving-longer (covered f ++ le32 (crc32 (covered f))) (stream fs rest),
)

module _ (D : FlashDriver) (E : Ecc) (P : PatchLib) where
  -- An intact frame is handled in one round.
  frame_round :
      (errs : ℕ) (f : OtaFrame) (rest : Input) (st : Device D)
      → errs < 16
      → IsFrame f
      → receive_round D E P errs (stream (f ∷ []) rest) st
        ≡ (on_status D E P errs (frame_ok f) st, rest)
  unfolding receive_round
  frame_round errs f rest st few h = rw (got, ltb_lem) refl
    where
      ltb_lem : ltb errs 16 ≡ true
      ltb_lem = ground arith

      got : read_frame (stream (f ∷ []) rest) ≡ (frame_ok f, rest)
      got =
          read_frame-on_wire [] f (crc32 (covered f)) rest tt h
            (crc32-lt (covered f) (header_ok f f.data_bytes h.op_byte h.data_ok))
          ∙ rw ((==_iff (crc32 (covered f)) (crc32 (covered f))).1 refl) refl

  -- The device after a handler of the transfer accepted a frame.
  abbrev pub accepted : OtaFrame → OtaClient D → Device D → Device D
  accepted f client st = send_response D ota_resp_ack f.seq (record st { client = client })

  data_round :
      (errs : ℕ) (f : OtaFrame) (rest : Input) (st : Device D)
      → errs < 16
      → IsFrame f
      → f.op ≡ ota_op_data
      → (handle_data D E f st.client).0 ≡ true
      → receive_round D E P errs (stream (f ∷ []) rest) st
        ≡ ((running 0, accepted f (handle_data D E f st.client).1 st), rest)
  unfolding on_status answer dispatch handle_data send_response
  data_round errs f rest st few h op ok = frame_round errs f rest st few h ∙ rw (op, ok) refl

  pub start_round :
      (errs : ℕ) (f : OtaFrame) (rest : Input) (st : Device D)
      → errs < 16
      → IsFrame f
      → f.op ≡ ota_op_start
      → (handle_start D E f st.client).0 ≡ true
      → receive_round D E P errs (stream (f ∷ []) rest) st
        ≡ ((running 0, accepted f (handle_start D E f st.client).1 st), rest)
  unfolding on_status answer dispatch handle_start send_response
  start_round errs f rest st few h op ok = frame_round errs f rest st few h ∙ rw (op, ok) refl

  pub start_delta_round :
      (errs : ℕ) (f : OtaFrame) (rest : Input) (st : Device D)
      → errs < 16
      → IsFrame f
      → f.op ≡ ota_op_start_delta
      → (handle_start_delta D E f st.client).0 ≡ true
      → receive_round D E P errs (stream (f ∷ []) rest) st
        ≡ ((running 0, accepted f (handle_start_delta D E f st.client).1 st), rest)
  unfolding on_status answer dispatch handle_start_delta send_response
  start_delta_round errs f rest st few h op ok = frame_round errs f rest st few h ∙ rw (op, ok) refl

  pub end_round :
      (errs : ℕ) (f : OtaFrame) (rest : Input) (st : Device D)
      → errs < 16
      → IsFrame f
      → f.op ≡ ota_op_end
      → (handle_end D E P st).0 ≡ true
      → receive_round D E P errs (stream (f ∷ []) rest) st
        ≡ ((ended system_reset, send_response D ota_resp_ack f.seq (handle_end D E P st).1), rest)
  unfolding on_status answer dispatch
  end_round errs f rest st few h op ok = frame_round errs f rest st few h ∙ rw (op, ok) refl

  -- The device behind accepted DATA frames.
  pub behind : List OtaFrame → Device D → Device D
  behind [] st = st
  behind (f ∷ fs) st = behind fs (accepted f (handle_data D E f st.client).1 st)

  pub behind_lem :
      (fs : List OtaFrame) (st : Device D)
      → behind fs st ≡ record st { client = handle_all D E fs st.client; sent = st.sent ++ acks fs }
  unfolding behind handle_all send_response
  behind_lem [] st = rw (append-nil st.sent) refl
  behind_lem (f ∷ fs) st =
      behind_lem fs (accepted f (handle_data D E f st.client).1 st)
      ∙ rw (append_assoc st.sent (ota_resp_ack ∷ le16 f.seq) (acks fs)) refl

  pub data_rounds :
      (fs : List OtaFrame) (n : ℕ) (rest : Input) (st : Device D)
      → AllData fs
      → AllAccepted D E fs st.client
      → receive_loop D E P (rounds_of fs n) ((running 0, st), stream fs rest)
        ≡ receive_loop D E P n ((running 0, behind fs st), rest)
  unfolding rounds_of behind receive_loop send_response
  data_rounds [] n rest st d a = refl
  data_rounds (f ∷ fs) n rest st d a =
      ap (λ (t : (Progress × Device D) × Input). receive_loop D E P (rounds_of fs n) t)
        (data_round 0 f (stream fs rest) st (omega arith) a.0 d.0 a.1)
      ∙ data_rounds fs n rest (accepted f (handle_data D E f st.client).1 st) d.1 a.2

  module _ (m : D.Mem) (shared : SharedBootBlock) (first : OtaFrame) (c1 : OtaClient D)
      (fs : List OtaFrame) (last : OtaFrame) where
    -- The device when the END arrives: `c1` is the transfer behind the first frame.
    abbrev pub ready : Device D
    ready = record { client = handle_all D E fs c1; shared = shared; sent = acks (first ∷ fs) }

    abbrev pub closed : Device D
    closed = send_response D ota_resp_ack last.seq (handle_end D E P ready).1

    end_sent : (st : Device D) → (handle_end D E P st).1.sent ≡ st.sent
    unfolding handle_end
    end_sent st = ground arith

    -- A session whose frames are all accepted, the first with the client `c1` as its effect.
    pub session_runs :
        (rest : Input)
        → receive_round D E P 0
            (stream (first ∷ fs) (stream (last ∷ []) rest))
            (fresh_device D shared m)
          ≡ (
            (running 0, accepted first c1 (fresh_device D shared m)),
            stream fs (stream (last ∷ []) rest),
          )
        → AllData fs
        → AllAccepted D E fs c1
        → IsFrame last
        → last.op ≡ ota_op_end
        → (handle_end D E P ready).0 ≡ true
        → (ota_client_receive D E P (stream (first ∷ fs) (stream (last ∷ []) rest)) shared m
            ≡ some (system_reset, closed, rest))
          × (closed.sent ≡ acks (first ∷ fs) ++ acks (last ∷ []))
    unfolding ota_client_receive receive_loop send_response
    session_runs rest started only_data all h2 op2 ok2 = (
      ap (λ (t : ℕ). receive_loop D E P t ((running 0, fresh_device D shared m), input)) fuel_lem
          ∙ ap
              (λ (t : (Progress × Device D) × Input).
                receive_loop D E P (rounds_of fs (suc left)) t)
              started
          ∙ data_rounds fs (suc left) tail st1 only_data all
          ∙ ap (λ (t : Device D). receive_loop D E P (suc left) ((running 0, t), tail))
              (behind_lem fs st1)
          ∙ ap (λ (t : (Progress × Device D) × Input). receive_loop D E P left t)
              (end_round 0 last rest ready (omega arith) h2 op2 ok2),
      ap (λ (bs : List ℕ). bs ++ (ota_resp_ack ∷ le16 last.seq)) (end_sent ready),
    )
      where
        input : Input
        input = stream (first ∷ fs) (stream (last ∷ []) rest)

        tail : Input
        tail = stream (last ∷ []) rest

        left : ℕ
        left = 17 * length input + 16 - length fs

        st1 : Device D
        st1 = accepted first c1 (fresh_device D shared m)

        fuel_lem : 17 * length input + 18 ≡ suc (rounds_of fs (suc left))
        fuel_lem =
            omega (
              arith,
              rounds_lem fs (suc left),
              stream-longer (first ∷ fs) (stream (last ∷ []) rest),
            )
