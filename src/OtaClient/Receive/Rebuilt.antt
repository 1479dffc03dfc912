-- ===== src/OtaClient/Receive/Rebuilt.antt =====
-- What a session with a patch leaves in slot B: bootloader/src/ota_client.c and
-- bootloader/src/delta_patch.c together.
use secure_boot_loader_with.Base.{
  ℕ, ◌+◌, ◌≤◌, ◌<◌, ◌≡◌, inl, refl, ap, ◌∙◌, sym, arith, List, [], ◌∷◌, ◌++◌, some, true, length,
  IsBytes,
}
use mathlib.Core.Path.{ap₂}
use secure_boot_loader_with.MemoryMap.{slot_a, slot_a_addr, slot_b_addr, firmware_header_size}
use secure_boot_loader_with.SharedMemory.{SharedBootBlock}
use secure_boot_loader_with.FirmwareFormat.{header_of}
use secure_boot_loader_with.Flash.{FlashDriver, IsFlash, ok, bytes_from}
use secure_boot_loader_with.Flash.Bytes.{bytes_from-eq}
use secure_boot_loader_with.Crypto.{Ecc}
use secure_boot_loader_with.BootConfig.Store.{boot_config_load}
use secure_boot_loader_with.DeltaPatch.Apply.{PatchLib, delta_apply_patch}
use secure_boot_loader_with.DeltaPatch.Replay.{replay_all}
use secure_boot_loader_with.DeltaPatch.Length.{length-replay_all}
use secure_boot_loader_with.DeltaPatch.Whole.{
  old_header, old_image, patch_bytes, apply_patch_replays,
}
use secure_boot_loader_with.OtaClient.{Input, OtaFrame}
use secure_boot_loader_with.OtaClient.Wire.{IsFrame}
use secure_boot_loader_with.OtaClient.Session.{OtaClient, dest_base, rd_u32_le, handle_start_delta}
use secure_boot_loader_with.OtaClient.Transfer.{
  handle_start_delta-IsTransfer, AllAccepted, data_of, handle_all-stores,
}
use secure_boot_loader_with.OtaClient.Receive.{
  Device, system_reset, ota_op_start_delta, ota_op_end, fresh_device, handle_end, send_response,
  ota_client_receive, ota_resp_ack,
}
use secure_boot_loader_with.OtaClient.Receive.Contained.{NotInB, handle_start_delta-Contained}
use secure_boot_loader_with.OtaClient.Receive.Frames.{
  stream, acks, AllData, start_delta_round, ready, session_runs,
}
use secure_boot_loader_with.OtaClient.Receive.Patched.{
  start-IsPatch, start_checked, all-IsPatch, all-Contained, end_applied, applied_checked,
}

module _ (D : FlashDriver) (F : IsFlash D) (E : Ecc) (P : PatchLib) (m : D.Mem) where
  -- The image in slot A, with its header.
  abbrev pub image_a : List ℕ
  image_a = old_image D F P slot_a_addr slot_b_addr m

  module _ (n : D.Mem) (same : (x : ℕ) → NotInB x → D.byte_at n x ≡ D.byte_at m x) where
    pub header_kept :
        bytes_from (D.byte_at n) slot_a_addr firmware_header_size
        ≡ bytes_from (D.byte_at m) slot_a_addr firmware_header_size
    header_kept =
        bytes_from-eq (D.byte_at n) (D.byte_at m) slot_a_addr firmware_header_size (omega arith)
          (λ x p q. same x (inl (omega arith)))

    pub size_kept :
        (old_header D F P slot_a_addr slot_b_addr n).image_size
        ≡ (old_header D F P slot_a_addr slot_b_addr m).image_size
    size_kept = ap (λ (bs : List ℕ). (header_of bs).image_size) header_kept

    -- An image that ends before the first sector of slot B is kept.
    pub image_kept :
        firmware_header_size + (old_header D F P slot_a_addr slot_b_addr m).image_size ≤ 0x6_F000
        → old_image D F P slot_a_addr slot_b_addr n ≡ image_a
    image_kept small =
        bytes_from-eq (D.byte_at n) (D.byte_at m) slot_a_addr _ (omega (arith, size_kept, small))
          (λ x p q. same x (inl (omega (arith, size_kept, small))))
        ∙ ap (λ (k : ℕ). bytes_from (D.byte_at m) slot_a_addr (firmware_header_size + k)) size_kept

  -- The same for a patch that was stored.
  rebuilds :
      (p e : ℕ) (n : D.Mem) (patch : List ℕ)
      → 0 < p
      → 0 < e
      → e + p ≤ D.flash_ota_slot_span
      → ((x : ℕ) → NotInB x → D.byte_at n x ≡ D.byte_at m x)
      → firmware_header_size + (old_header D F P slot_a_addr slot_b_addr m).image_size ≤ 0x6_F000
      → patch_bytes D F P slot_a_addr slot_b_addr n p ≡ patch
      → ((a : ℕ) (bs : List ℕ) (k : D.Mem)
          → slot_b_addr ≤ a
          → a + length bs ≤ slot_b_addr + e
          → IsBytes bs
          → (D.flash_program_bytes a bs k).0 ≡ ok)
      → (delta_apply_patch D P slot_a_addr slot_b_addr p e n).0 ≡ true
      → let out = (replay_all image_a patch e P).1 in
        ((replay_all image_a patch e P).0 ≡ true)
        × (bytes_from
              (D.byte_at (delta_apply_patch D P slot_a_addr slot_b_addr p e n).1)
              slot_b_addr
              e
            ≡ out)
  rebuilds p e n patch p_pos e_pos room same small stored programs good =
      let (magic, size) = applied_checked D E P p e n F good in
      let (verdict, bytes) =
        apply_patch_replays D F P slot_a_addr slot_b_addr n p e p_pos e_pos room magic size
          (omega (arith, size_kept n same, small)) (inl (omega arith)) (omega arith) (omega arith)
          programs in
      let made : replay_all (old_image D F P slot_a_addr slot_b_addr n)
            (patch_bytes D F P slot_a_addr slot_b_addr n p) e P
          ≡ replay_all image_a patch e P =
        ap₂ (λ (old diff : List ℕ). replay_all old diff e P) (image_kept n same small) stored in
      let well : (replay_all image_a patch e P).0 ≡ true = rw (sym made) (sym verdict ∙ good) in
      let full = length-replay_all image_a patch e P well in
      (
        well,
        ap
              (λ (k : ℕ).
                bytes_from (D.byte_at (delta_apply_patch D P slot_a_addr slot_b_addr p e n).1)
                  slot_b_addr k)
              (sym full)
            ∙ rw (sym made) bytes,
      )

  module _ (shared : SharedBootBlock) (first : OtaFrame) (fs : List OtaFrame)
      (last : OtaFrame) where
    -- The transfer behind the START_DELTA, and the device when the END arrives.
    abbrev pub begun : OtaClient D
    begun = (handle_start_delta D E first (fresh_device D shared m).client).1

    abbrev pub before_end : Device D
    before_end = ready D E P m shared first begun fs last

    -- If slot A is active by a valid record and its image ends before the first sector of slot B, and
    -- a host sends a START_DELTA, DATA frames and an END that the handlers accept, the session ends
    -- with a reset, after exactly these frames and with each of them acknowledged in order, and what
    -- stands at the beginning of slot B, in the announced length, is what the libraries make of the
    -- image in slot A and the data of the frames, provided that the flash programs what they write.
    pub patch_delivered :
        (rest : Input)
        → (boot_config_load D E m).0 ≡ true
        → (boot_config_load D E m).1.active_slot ≡ slot_a
        → firmware_header_size + (old_header D F P slot_a_addr slot_b_addr m).image_size ≤ 0x6_F000
        → IsFrame first
        → first.op ≡ ota_op_start_delta
        → (handle_start_delta D E first (fresh_device D shared m).client).0 ≡ true
        → AllData fs
        → AllAccepted D E fs begun
        → IsFrame last
        → last.op ≡ ota_op_end
        → (handle_end D E P before_end).0 ≡ true
        → ((a : ℕ) (bs : List ℕ) (k : D.Mem)
            → slot_b_addr ≤ a
            → a + length bs ≤ slot_b_addr + rd_u32_le first.data_bytes 4
            → IsBytes bs
            → (D.flash_program_bytes a bs k).0 ≡ ok)
        → let after = send_response D ota_resp_ack last.seq (handle_end D E P before_end).1 in
          let (good, out) = replay_all image_a (data_of D E fs) (rd_u32_le first.data_bytes 4) P in
          (ota_client_receive D E P (stream (first ∷ fs) (stream (last ∷ []) rest)) shared m
            ≡ some (system_reset, after, rest))
          × (after.sent ≡ acks (first ∷ fs) ++ acks (last ∷ []))
          × (good ≡ true)
          × (bytes_from (D.byte_at after.client.mem) slot_b_addr (rd_u32_le first.data_bytes 4)
              ≡ out)
    unfolding send_response
    patch_delivered rest valid in_a small h1 op1 ok1 only_data all h2 op2 ok2 programs =
        let p : ℕ = rd_u32_le first.data_bytes 0 in
        let e : ℕ = rd_u32_le first.data_bytes 4 in
        let start : OtaClient D = (fresh_device D shared m).client in
        let c : OtaClient D = before_end.client in
        let (p_pos, e_pos, room, tail) = start_checked D E first start F in_a ok1 in
        let patch = all-IsPatch D E p e fs begun (start-IsPatch D E first start in_a ok1) in
        let inside = all-Contained D E F m valid in_a fs begun all (
          handle_start_delta-Contained D E F m valid in_a first start
            (record { same = λ x o. refl; state = inl refl; fits = omega arith })) in
        let (t, _, none_yet) = handle_start_delta-IsTransfer D E first start F ok1 in
        let (_, _, bytes) = handle_all-stores D E fs begun F t all in
        let (whole, good, mem) = end_applied D E P p e before_end patch ok2 in
        let stored : patch_bytes D F P slot_a_addr slot_b_addr c.mem p ≡ data_of D E fs =
          ap₂ (λ (a k : ℕ). bytes_from (D.byte_at c.mem) a k) (sym tail) (sym whole)
          ∙ bytes
          ∙ ap
              (λ (w : ℕ).
                bytes_from (D.byte_at begun.mem) (dest_base D E begun.g_state) w ++ data_of D E fs)
              none_yet
          ∙ (unfold bytes_from in refl) in
        let (runs, sent) =
          session_runs D E P m shared first begun fs last rest
            (start_delta_round D E P 0 first (stream fs (stream (last ∷ []) rest))
              (fresh_device D shared m) (omega arith) h1 op1 ok1)
            only_data all h2 op2 ok2 in
        let (verdict, image) =
          rebuilds p e c.mem (data_of D E fs) p_pos e_pos room inside.same small stored programs
            good in
        (
          runs,
          sent,
          verdict,
          ap (λ (n : D.Mem). bytes_from (D.byte_at n) slot_b_addr e) mem ∙ image,
        )
