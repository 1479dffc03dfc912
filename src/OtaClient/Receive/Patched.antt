-- ===== src/OtaClient/Receive/Patched.antt =====
-- A host that sends a patch: the receive loop of bootloader/src/ota_client.c on a START_DELTA, DATA
-- frames and an END, with the application of the patch in bootloader/src/delta_patch.c.
use secure_boot_loader_with.Base.{
  ℕ, ◌+◌, ◌-◌, ◌≤◌, ◌<◌, ◌≡◌, refl, ap, ◌∙◌, sym, arith, List, [], ◌∷◌, ==_iff, true, Bool,
}
use secure_boot_loader_with.MemoryMap.{
  slot_a, slot_a_addr, slot_b_addr, firmware_magic, firmware_header_size, memory_map_slot_addr,
  memory_map_other_slot,
}
use secure_boot_loader_with.FirmwareFormat.{header_of}
use secure_boot_loader_with.Flash.{FlashDriver, IsFlash, bytes_from}
use secure_boot_loader_with.Crypto.{Ecc}
use secure_boot_loader_with.BootConfig.Store.{boot_config_load}
use secure_boot_loader_with.DeltaPatch.Apply.{PatchLib, delta_apply_patch}
use secure_boot_loader_with.OtaClient.{OtaFrame}
use secure_boot_loader_with.OtaClient.Session.{
  OtaState, OtaClient, ota_kind_delta, after_erase, dest_base, rd_u32_le, handle_start_delta,
  handle_data,
}
use secure_boot_loader_with.OtaClient.Transfer.{AllAccepted, handle_all}
use secure_boot_loader_with.OtaClient.Receive.{Device, reconstruct, handle_end, installable}
use secure_boot_loader_with.OtaClient.Receive.Contained.{Contained, handle_data-Contained}

module _ (D : FlashDriver) (E : Ecc) where
  -- A transfer of a patch of `p` bytes for slot B that makes an image of `e` bytes.
  pub record IsPatch (p e : ℕ) (g : OtaState) : Type 0 where
    pub kind : g.kind ≡ ota_kind_delta
    pub slot : g.slot_addr ≡ slot_b_addr
    pub total : g.xfer_total ≡ p
    pub new_total : g.expected_new_total ≡ e
    pub base : g.active_slot_base ≡ slot_a_addr

  pub start-IsPatch :
      (f : OtaFrame) (c : OtaClient D)
      → (boot_config_load D E c.mem).1.active_slot ≡ slot_a
      → (handle_start_delta D E f c).0 ≡ true
      → IsPatch
          (rd_u32_le f.data_bytes 0)
          (rd_u32_le f.data_bytes 4)
          (handle_start_delta D E f c).1.g_state
  unfolding handle_start_delta after_erase memory_map_slot_addr memory_map_other_slot
  start-IsPatch f c in_a h = record {
    kind = ground arith;
    slot = ground (arith, in_a);
    total = ground arith;
    new_total = ground arith;
    base = ground (arith, in_a);
  }

  -- What an accepted START_DELTA has checked, and where its data goes.
  pub start_checked :
      (f : OtaFrame) (c : OtaClient D)
      → IsFlash D
      → (boot_config_load D E c.mem).1.active_slot ≡ slot_a
      → (handle_start_delta D E f c).0 ≡ true
      → let p = rd_u32_le f.data_bytes 0 in
        let e = rd_u32_le f.data_bytes 4 in
        (0 < p)
        × (0 < e)
        × (e + p ≤ D.flash_ota_slot_span)
        × (dest_base D E (handle_start_delta D E f c).1.g_state
            ≡ slot_b_addr + D.flash_ota_slot_span - p)
  unfolding handle_start_delta after_erase memory_map_slot_addr memory_map_other_slot
  start_checked f c F in_a h =
      (ground arith, ground arith, ground (arith, F.span-le), ground (arith, F.span-le, in_a))

  data-IsPatch :
      (p e : ℕ) (f : OtaFrame) (c : OtaClient D)
      → IsPatch p e c.g_state
      → IsPatch p e (handle_data D E f c).1.g_state
  unfolding handle_data
  data-IsPatch p e f c h = record {
    kind = ground (arith, h.kind);
    slot = ground (arith, h.slot);
    total = ground (arith, h.total);
    new_total = ground (arith, h.new_total);
    base = ground (arith, h.base);
  }

  pub all-IsPatch :
      (p e : ℕ) (fs : List OtaFrame) (c : OtaClient D)
      → IsPatch p e c.g_state
      → IsPatch p e (handle_all D E fs c).g_state
  unfolding handle_all
  all-IsPatch p e [] c h = h
  all-IsPatch p e (f ∷ fs) c h = all-IsPatch p e fs (handle_data D E f c).1 (data-IsPatch p e f c h)

  module _ (F : IsFlash D) (m : D.Mem) (valid : (boot_config_load D E m).0 ≡ true)
      (in_a : (boot_config_load D E m).1.active_slot ≡ slot_a) where
    pub all-Contained :
        (fs : List OtaFrame) (c : OtaClient D)
        → AllAccepted D E fs c
        → Contained D E m c
        → Contained D E m (handle_all D E fs c)
    unfolding handle_all
    all-Contained [] c a h = h
    all-Contained (f ∷ fs) c (frame, _, more) h =
        all-Contained fs (handle_data D E f c).1 more
          (handle_data-Contained D E F m valid in_a f c (frame.data_len, frame.fits) h)

  -- What an accepted END of a patch has done.
  pub end_applied :
      (P : PatchLib) (p e : ℕ) (st : Device D)
      → IsPatch p e st.client.g_state
      → (handle_end D E P st).0 ≡ true
      → (st.client.g_state.written ≡ p)
        × ((delta_apply_patch D P slot_a_addr slot_b_addr p e st.client.mem).0 ≡ true)
        × ((handle_end D E P st).1.client.mem
            ≡ (delta_apply_patch D P slot_a_addr slot_b_addr p e st.client.mem).1)
  unfolding handle_end
  end_applied P p e st h good =
      let r : reconstruct D E P st.client.g_state st.client.mem
          ≡ delta_apply_patch D P slot_a_addr slot_b_addr p e st.client.mem =
        unfold reconstruct in rw (h.kind, h.slot, h.total, h.new_total, h.base) refl in
      (
        ground (arith, h.total),
        ap (λ (t : Bool × D.Mem). t.0) (sym r) ∙ ground arith,
        ground arith ∙ ap (λ (t : Bool × D.Mem). t.1) r,
      )

  -- The base that a patch was applied to.
  pub applied_checked :
      (P : PatchLib) (p e : ℕ) (m : D.Mem)
      → IsFlash D
      → (delta_apply_patch D P slot_a_addr slot_b_addr p e m).0 ≡ true
      → let hdr = header_of (bytes_from (D.byte_at m) slot_a_addr firmware_header_size) in
        (hdr.magic ≡ firmware_magic) × (0 < hdr.image_size)
  unfolding delta_apply_patch
  applied_checked P p e m F h =
      let read = F.read_lem slot_a_addr firmware_header_size m in
      (ground (arith, read), ground (arith, read))

  -- END accepts a patch that is complete, if it applies and makes an image that may be installed.
  pub end_accepts_patch :
      (P : PatchLib) (p e : ℕ) (st : Device D)
      → st.client.g_state.active ≡ true
      → st.client.g_state.written ≡ p
      → IsPatch p e st.client.g_state
      → (delta_apply_patch D P slot_a_addr slot_b_addr p e st.client.mem).0 ≡ true
      → installable D E slot_b_addr
          (delta_apply_patch D P slot_a_addr slot_b_addr p e st.client.mem).1
        ≡ true
      → (handle_end D E P st).0 ≡ true
  unfolding handle_end reconstruct
  end_accepts_patch P p e st active whole h applied good =
      rw
        (
          active,
          (==_iff st.client.g_state.written st.client.g_state.xfer_total).1 (whole ∙ sym h.total),
          h.kind,
          h.slot,
          h.total,
          h.new_total,
          h.base,
          applied,
          good,
        )
        refl
