-- ===== src/OtaClient/Receive/Delivered.antt =====
-- A host that sends a whole image: the receive loop of bootloader/src/ota_client.c on a START, DATA
-- frames and an END.
use secure_boot_loader_with.Base.{
  ℕ, ◌≡◌, refl, ap, ◌∙◌, sym, arith, List, [], ◌∷◌, ◌++◌, some, true, ==_iff,
}
use secure_boot_loader_with.SharedMemory.{SharedBootBlock}
use secure_boot_loader_with.Flash.{FlashDriver, IsFlash, bytes_from}
use secure_boot_loader_with.Crypto.{Ecc}
use secure_boot_loader_with.DeltaPatch.Apply.{PatchLib}
use secure_boot_loader_with.OtaClient.{Input, OtaFrame}
use secure_boot_loader_with.OtaClient.Wire.{IsFrame}
use secure_boot_loader_with.OtaClient.Session.{
  OtaState, OtaClient, ota_kind_full, after_erase, dest_base, handle_start, handle_data,
}
use secure_boot_loader_with.OtaClient.Transfer.{
  handle_start-IsTransfer, AllAccepted, handle_all, data_of, handle_all-stores,
}
use secure_boot_loader_with.OtaClient.Receive.{
  Device, system_reset, ota_op_start, ota_op_end, ota_resp_ack, fresh_device, send_response,
  reconstruct, installable, handle_end, receive_loop, ota_client_receive,
}
use secure_boot_loader_with.OtaClient.Receive.Frames.{
  stream, acks, AllData, start_round, ready, closed, session_runs,
}

module _ (D : FlashDriver) (E : Ecc) (P : PatchLib) where
  start_full :
      (f : OtaFrame) (c : OtaClient D)
      → (handle_start D E f c).0 ≡ true
      → (handle_start D E f c).1.g_state.kind ≡ ota_kind_full
  unfolding handle_start after_erase
  start_full f c ok = ground arith

  data_kind :
      (f : OtaFrame) (c : OtaClient D) → (handle_data D E f c).1.g_state.kind ≡ c.g_state.kind
  unfolding handle_data
  data_kind f c = ground arith

  all_kind :
      (fs : List OtaFrame) (c : OtaClient D) → (handle_all D E fs c).g_state.kind ≡ c.g_state.kind
  unfolding handle_all
  all_kind [] c = refl
  all_kind (f ∷ fs) c = all_kind fs (handle_data D E f c).1 ∙ data_kind f c

  -- END leaves a full transfer as it is.
  pub end_full :
      (st : Device D)
      → st.client.g_state.kind ≡ ota_kind_full
      → (handle_end D E P st).1.client ≡ st.client
  unfolding handle_end reconstruct
  end_full st full = rw full (ground arith)

  -- END accepts a full transfer that is complete, if its image may be installed.
  pub end_accepts :
      (st : Device D)
      → st.client.g_state.active ≡ true
      → st.client.g_state.written ≡ st.client.g_state.xfer_total
      → st.client.g_state.kind ≡ ota_kind_full
      → installable D E st.client.g_state.slot_addr st.client.mem ≡ true
      → (handle_end D E P st).0 ≡ true
  unfolding handle_end reconstruct
  end_accepts st active complete full good =
      rw
        (
          active,
          (==_iff st.client.g_state.written st.client.g_state.xfer_total).1 complete,
          full,
          good,
        )
        refl

  -- A full transfer goes to the beginning of its slot.
  full_base : (g : OtaState) → g.kind ≡ ota_kind_full → dest_base D E g ≡ g.slot_addr
  full_base g full = rw full refl

  module _ (m : D.Mem) (shared : SharedBootBlock) (first : OtaFrame) (fs : List OtaFrame)
      (last : OtaFrame) where
    -- The transfer and the flash when the END arrives.
    abbrev pub transferred : OtaClient D
    transferred = handle_all D E fs (handle_start D E first (fresh_device D shared m).client).1

    abbrev pub before_end : Device D
    before_end =
        ready D E P m shared first (handle_start D E first (fresh_device D shared m).client).1 fs
          last

    -- If a host sends a START, DATA frames and an END, and the handlers accept each of them, the
    -- session ends with a reset, after exactly these frames and with each of them acknowledged in
    -- order, and what was stored at the slot's address is their data.
    pub update_delivered :
        (rest : Input)
        → IsFlash D
        → IsFrame first
        → first.op ≡ ota_op_start
        → (handle_start D E first (fresh_device D shared m).client).0 ≡ true
        → AllData fs
        → AllAccepted D E fs (handle_start D E first (fresh_device D shared m).client).1
        → IsFrame last
        → last.op ≡ ota_op_end
        → (handle_end D E P before_end).0 ≡ true
        → let after = send_response D ota_resp_ack last.seq (handle_end D E P before_end).1 in
          (ota_client_receive D E P (stream (first ∷ fs) (stream (last ∷ []) rest)) shared m
            ≡ some (system_reset, after, rest))
          × (after.sent ≡ acks (first ∷ fs) ++ acks (last ∷ []))
          × (bytes_from
                (D.byte_at after.client.mem)
                after.client.g_state.slot_addr
                after.client.g_state.written
              ≡ data_of D E fs)
    unfolding ota_client_receive receive_loop send_response bytes_from
    update_delivered rest F h1 op1 ok1 only_data all h2 op2 ok2 = (runs.0, runs.1, stored)
      where
        c1 : OtaClient D
        c1 = (handle_start D E first (fresh_device D shared m).client).1

        after : Device D
        after = closed D E P m shared first c1 fs last

        runs :
            (ota_client_receive D E P (stream (first ∷ fs) (stream (last ∷ []) rest)) shared m
              ≡ some (system_reset, after, rest))
            × (after.sent ≡ acks (first ∷ fs) ++ acks (last ∷ []))
        runs =
            session_runs D E P m shared first c1 fs last rest
              (start_round D E P 0 first (stream fs (stream (last ∷ []) rest))
                (fresh_device D shared m) (omega arith) h1 op1 ok1)
              only_data all h2 op2 ok2

        stored :
            bytes_from
              (D.byte_at after.client.mem)
              after.client.g_state.slot_addr
              after.client.g_state.written
            ≡ data_of D E fs
        stored =
            let (t, slot, none_yet) =
              handle_start-IsTransfer D E first (fresh_device D shared m).client ok1 in
            let (_, base, bytes) = handle_all-stores D E fs c1 F t all in
            let full : transferred.g_state.kind ≡ ota_kind_full =
              all_kind fs c1 ∙ start_full first (fresh_device D shared m).client ok1 in
            ap
              (λ (c : OtaClient D).
                bytes_from (D.byte_at c.mem) c.g_state.slot_addr c.g_state.written)
              (end_full before_end full)
            ∙ ap (λ (a : ℕ). bytes_from (D.byte_at transferred.mem) a transferred.g_state.written)
                (sym (full_base transferred.g_state full) ∙ base)
            ∙ bytes
            ∙ ap
                (λ (w : ℕ).
                  bytes_from (D.byte_at c1.mem) (dest_base D E c1.g_state) w ++ data_of D E fs)
                none_yet
