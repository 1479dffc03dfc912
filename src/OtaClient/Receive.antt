-- ===== src/OtaClient/Receive.antt =====
-- The rest of bootloader/src/ota_client.c: END, the answers, and the receive loop. The log is
-- write-only and left out, and so is the delay before a reset.
pub mod Rounds
pub mod Framed
pub mod Contained
pub mod Confined
pub mod Installs
pub mod Frames
pub mod Delivered
pub mod Patched
pub mod Rebuilt
pub mod Total
pub mod Example
pub mod Installable
pub mod PatchExample
pub mod PatchSession
pub mod Installed
mod Tests
use secure_boot_loader_with.Base.{
  ℕ, zero, suc, ◌+◌, ◌*◌, ◌/◌, Bool, true, false, ◌&&◌, ◌||◌, not, ltb, ◌==◌, if◌then◌else◌, List,
  [], ◌∷◌, ◌++◌, Option, none, some, length, le16,
}
use secure_boot_loader_with.MemoryMap.{firmware_header_size, firmware_magic, shared_block_magic}
use secure_boot_loader_with.SharedMemory.{SharedBootBlock}
use secure_boot_loader_with.Flash.{FlashDriver, is_ok}
use secure_boot_loader_with.FirmwareFormat.{FirmwareHeader, header_of}
use secure_boot_loader_with.Crypto.{Ecc, crypto_verify_firmware}
use secure_boot_loader_with.BootConfig.{BootConfig, boot_config_firmware_allowed}
use secure_boot_loader_with.BootConfig.Store.{boot_config_load}
use secure_boot_loader_with.DeltaPatch.Apply.{PatchLib, delta_apply_patch}
use secure_boot_loader_with.OtaClient.{
  Input, OtaFrame, FrameStatus, frame_ok, frame_timeout, frame_crc_bad, frame_too_big,
  frame_bad_soh, read_frame,
}
use secure_boot_loader_with.OtaClient.Session.{
  OtaKind, ota_kind_full, ota_kind_delta, OtaState, OtaClient, handle_start, handle_start_delta,
  handle_data,
}

abbrev pub ota_op_start : ℕ
ota_op_start = 0x21

abbrev pub ota_op_data : ℕ
ota_op_data = 0x22

abbrev pub ota_op_end : ℕ
ota_op_end = 0x23

abbrev pub ota_op_abort : ℕ
ota_op_abort = 0x2F

abbrev pub ota_op_start_delta : ℕ
ota_op_start_delta = 0x24

abbrev pub ota_resp_ack : ℕ
ota_resp_ack = 0x06

abbrev pub ota_resp_nak : ℕ
ota_resp_nak = 0x15

-- What a session acts on: the transfer and the flash, the shared block, and the bytes that were
-- sent to the host, oldest first.
pub record Device (D : FlashDriver) : Type 0 where
  pub client : OtaClient D
  pub shared : SharedBootBlock
  pub sent : List ℕ

-- How a session ends: by `bootloader_system_reset`, or by `return false`.
pub data ReceiveEnd : Type 0 where
  system_reset returned_false : ReceiveEnd

-- The loop goes on with that many consecutive errors, or it is over.
pub data Progress : Type 0 where
  running : ℕ → Progress
  ended : ReceiveEnd → Progress

-- `g_state` after the `memset`.
abbrev pub cleared_state : OtaState
cleared_state = record {
  active = false;
  kind = ota_kind_full;
  slot_addr = 0;
  xfer_total = 0;
  written = 0;
  expected_seq = 0;
  patch_tail_base = 0;
  expected_new_total = 0;
  active_slot_base = 0;
}

-- The shared block that asks the next boot for a swap.
abbrev pub pending : SharedBootBlock → SharedBootBlock
pending b = record b { magic = shared_block_magic; ota_pending = 1; boot_confirmed = 0 }

module _ (D : FlashDriver) where
  unfoldable pub send_response : ℕ → ℕ → Device D → Device D
  send_response code seq st = record st { sent = st.sent ++ (code ∷ le16 seq) }

  -- The device at the beginning of a session.
  abbrev pub fresh_device : SharedBootBlock → D.Mem → Device D
  fresh_device shared m = record {
    client = record { g_state = cleared_state; mem = m };
    shared = shared;
    sent = [];
  }

  abbrev pub with_mem : Device D → D.Mem → Device D
  with_mem st m = record st { client = record (st.client) { mem = m } }

module _ (D : FlashDriver) (E : Ecc) where
  -- The checks of END: whether the image in the slot may be installed.
  unfoldable pub installable : ℕ → D.Mem → Bool
  installable slot_addr m =
      let (status, bytes) = D.flash_read slot_addr firmware_header_size m in
      let hdr : FirmwareHeader = header_of bytes in
      crypto_verify_firmware D E slot_addr m
      && ((is_ok status && hdr.magic == firmware_magic)
          && boot_config_firmware_allowed (boot_config_load D E m).1 hdr.version)

module _ (D : FlashDriver) (E : Ecc) (P : PatchLib) where
  -- The patch of a delta transfer.
  unfoldable pub reconstruct : OtaState → D.Mem → Bool × D.Mem
  reconstruct g m = elim g.kind [
    | ota_kind_full ↦ (true, m)
    | ota_kind_delta ↦
        delta_apply_patch D P g.active_slot_base g.slot_addr g.xfer_total g.expected_new_total m
  ]

  unfoldable pub handle_end : Device D → Bool × Device D
  handle_end st =
      let g : OtaState = st.client.g_state in
      let (applied, m) = reconstruct g st.client.mem in
      if not g.active || not (g.written == g.xfer_total)
      then (false, st)
      else if applied && installable D E g.slot_addr m
      then (true, record (with_mem D st m) { shared = pending st.shared })
      else (false, with_mem D st m)

  -- A handler of the transfer, on the whole device.
  abbrev pub on_client : Bool × OtaClient D → Device D → Bool × Device D
  on_client (done, client) st = (done, record st { client = client })

  unfoldable pub dispatch : OtaFrame → Device D → Bool × Device D
  dispatch f st =
      if f.op == ota_op_start
      then on_client (handle_start D E f st.client) st
      else if f.op == ota_op_start_delta
      then on_client (handle_start_delta D E f st.client) st
      else if f.op == ota_op_data
      then on_client (handle_data D E f st.client) st
      else if f.op == ota_op_end
      then handle_end st
      else (false, st)

  -- What follows a handler.
  unfoldable pub answer : ℕ → OtaFrame → Bool × Device D → Progress × Device D
  answer errs f (done, st) = (
    if done
        then if f.op == ota_op_end then ended system_reset else running 0
        else running (errs + 1),
    send_response D (if done then ota_resp_ack else ota_resp_nak) f.seq st,
  )

  unfoldable pub on_status : ℕ → FrameStatus → Device D → Progress × Device D
  on_status errs (frame_ok f) st =
      if f.op == ota_op_abort
      then (ended returned_false, send_response D ota_resp_ack f.seq st)
      else answer errs f (dispatch f st)
  on_status errs frame_crc_bad st = (running (errs + 1), send_response D ota_resp_nak 0 st)
  on_status errs frame_too_big st = (running (errs + 1), send_response D ota_resp_nak 0 st)
  on_status errs frame_timeout st = (running (errs + 1), st)
  on_status errs frame_bad_soh st = (running (errs + 1), st)

  -- One round of the loop, or its end.
  unfoldable pub receive_round : ℕ → Input → Device D → (Progress × Device D) × Input
  receive_round errs input st =
      let (status, rest) = read_frame input in
      if ltb errs 16 then (on_status errs status st, rest) else ((ended returned_false, st), input)

  -- The rounds, on fuel; `none` is a session that is not over.
  unfoldable pub receive_loop :
      ℕ → (Progress × Device D) × Input → Option (ReceiveEnd × Device D × Input)
  receive_loop n ((ended e, st), input) = some (e, st, input)
  receive_loop zero ((running errs, st), input) = none
  receive_loop (suc n) ((running errs, st), input) = receive_loop n (receive_round errs input st)

  -- Every round uses up input or counts an error.
  unfoldable pub ota_client_receive :
      Input → SharedBootBlock → D.Mem → Option (ReceiveEnd × Device D × Input)
  ota_client_receive input shared m =
      receive_loop (17 * length input + 18) ((running 0, fresh_device D shared m), input)
