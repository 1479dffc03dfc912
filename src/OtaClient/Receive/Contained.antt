-- ===== src/OtaClient/Receive/Contained.antt =====
-- What each handler of bootloader/src/ota_client.c can write, with slot A active.
use secure_boot_loader_with.Base.{
  ℕ, ◌+◌, ◌^◌, ◌≤◌, ◌<◌, ◌≡◌, ◌⊎◌, inl, inr, refl, ap, ◌∙◌, sym, arith, List, Bool, true, false,
  ◌==◌, ◌&&◌, ◌||◌, not, Bool-cases,
}
use secure_boot_loader_with.MemoryMap.{
  slot_a, slot_b_addr, slot_size, boot_config_addr, memory_map_slot_addr, memory_map_other_slot,
}
use secure_boot_loader_with.Flash.{FlashDriver, ok, IsFlash}
use secure_boot_loader_with.Flash.Bytes.{bytes_from-eq}
use secure_boot_loader_with.Flash.Sectors.{flash_sector_start, sector_index_for_addr}
use secure_boot_loader_with.Crypto.{Ecc}
use secure_boot_loader_with.BootConfig.{boot_config_validate, of_bytes}
use secure_boot_loader_with.BootConfig.Store.{boot_config_load}
use secure_boot_loader_with.DeltaPatch.Apply.{PatchLib}
use secure_boot_loader_with.DeltaPatch.Confined.{apply_patch_confined}
use secure_boot_loader_with.OtaClient.{OtaFrame}
use secure_boot_loader_with.OtaClient.Wire.{HasLength}
use secure_boot_loader_with.OtaClient.Session.{
  OtaState, OtaClient, after_erase, rd_u32_le, handle_start, handle_start_delta, handle_data,
}
use secure_boot_loader_with.OtaClient.Transfer.{
  IsTransfer, handle_start-IsTransfer, handle_start_delta-IsTransfer, handle_data_confined,
}
use secure_boot_loader_with.OtaClient.Receive.{
  Device, dispatch, reconstruct, installable, handle_end, ota_op_start, ota_op_start_delta,
  ota_op_data, ota_op_end,
}

-- The addresses outside the sectors of slot B.
abbrev pub NotInB : ℕ → Type 0
NotInB x = (x < 0x0808_0000) ⊎ (0x0810_0000 ≤ x)

module _ (D : FlashDriver) (E : Ecc) where
  -- A transfer into slot B.
  pub record IntoB (g : OtaState) : Type 0 where
    pub transfer : IsTransfer D E g
    pub slot : g.slot_addr ≡ slot_b_addr

  -- Nothing outside slot B has changed, and what is being transferred goes there.
  pub record Contained (m0 : D.Mem) (c : OtaClient D) : Type 0 where
    pub same : (x : ℕ) → NotInB x → D.byte_at c.mem x ≡ D.byte_at m0 x
    pub state : (c.g_state.active ≡ false) ⊎ IntoB c.g_state
    pub fits : c.g_state.expected_new_total ≤ slot_size

  start_kept :
      (f : OtaFrame) (c : OtaClient D)
      → (handle_start D E f c).0 ≡ false
      → (handle_start D E f c).1.g_state ≡ c.g_state
  unfolding handle_start after_erase
  start_kept f c e = ground arith

  start_delta_kept :
      (f : OtaFrame) (c : OtaClient D)
      → (handle_start_delta D E f c).0 ≡ false
      → (handle_start_delta D E f c).1.g_state ≡ c.g_state
  unfolding handle_start_delta after_erase
  start_delta_kept f c e = ground arith

  data_inactive :
      (f : OtaFrame) (c : OtaClient D) → c.g_state.active ≡ false → (handle_data D E f c).1 ≡ c
  unfolding handle_data
  data_inactive f c e = rw e refl

  data_keeps :
      (f : OtaFrame) (c : OtaClient D)
      → let after = (handle_data D E f c).1.g_state in
        (after.slot_addr ≡ c.g_state.slot_addr)
        × (after.expected_new_total ≡ c.g_state.expected_new_total)
  unfolding handle_data
  data_keeps f c = (ground arith, ground arith)

  -- The verdict of END.
  abbrev pub end_ok : PatchLib → Device D → Bool
  end_ok P st =
      let (applied, m) = reconstruct D E P st.client.g_state st.client.mem in
      applied && installable D E st.client.g_state.slot_addr m

  module _ (F : IsFlash D) where
    reconstruct_confined :
        (P : PatchLib) (g : OtaState) (m : D.Mem) (x : ℕ)
        → g.slot_addr + g.expected_new_total < 2 ^ 32
        → (x < g.slot_addr) ⊎ (g.slot_addr + g.expected_new_total ≤ x)
        → D.byte_at (reconstruct D E P g m).1 x ≡ D.byte_at m x
    unfolding reconstruct
    reconstruct_confined P g m x room o = ground (
      arith,
      apply_patch_confined D F P g.active_slot_base g.slot_addr g.xfer_total g.expected_new_total m
          x room o,
    )

    -- A valid record decides what is loaded.
    pub load_local :
        (m0 m : D.Mem)
        → (boot_config_load D E m0).0 ≡ true
        → ((x : ℕ) → NotInB x → D.byte_at m x ≡ D.byte_at m0 x)
        → boot_config_load D E m ≡ boot_config_load D E m0
    unfolding boot_config_load
    load_local m0 m valid same =
        let reads : D.flash_read boot_config_addr 24 m ≡ D.flash_read boot_config_addr 24 m0 =
          F.read_lem boot_config_addr 24 m
          ∙ ap (λ (bs : List ℕ). (ok, bs))
              (bytes_from-eq (D.byte_at m) (D.byte_at m0) boot_config_addr 24 (omega arith)
                (λ x p q. same x (inl (omega arith))))
          ∙ sym (F.read_lem boot_config_addr 24 m0) in
        elim (Bool-cases
          (boot_config_validate (of_bytes (D.flash_read boot_config_addr 24 m0).1))) [
            | inl e ↦ rw (reads, e) refl
            | inr e ↦ absurd (ground arith)
          ]

    module _ (m0 : D.Mem) (valid : (boot_config_load D E m0).0 ≡ true)
        (in_a : (boot_config_load D E m0).1.active_slot ≡ slot_a) where
      target_b :
          (m : D.Mem)
          → ((x : ℕ) → NotInB x → D.byte_at m x ≡ D.byte_at m0 x)
          → memory_map_slot_addr (memory_map_other_slot (boot_config_load D E m).1.active_slot)
            ≡ slot_b_addr
      unfolding memory_map_slot_addr memory_map_other_slot
      target_b m same = rw (load_local m0 m valid same, in_a) refl

      handle_start-Contained :
          (f : OtaFrame) (c : OtaClient D) → Contained m0 c → Contained m0 (handle_start D E f c).1
      unfolding handle_start after_erase flash_sector_start sector_index_for_addr
      handle_start-Contained f c h =
          let to_b = target_b c.mem h.same in
          let total = rd_u32_le f.data_bytes 0 in
          record {
            same = λ x o.
                ground (arith, h.same x o, to_b, F.erase_range-outside slot_b_addr total c.mem x);
            state = elim (Bool-cases (handle_start D E f c).0) [
              | inl e ↦
                  let (t, slot, _) = handle_start-IsTransfer D E f c e in
                  inr (record { transfer = t; slot = slot ∙ to_b })
              | inr e ↦ rw (start_kept f c e) h.state
            ];
            fits = ground (arith, h.fits);
          }

      pub handle_start_delta-Contained :
          (f : OtaFrame) (c : OtaClient D)
          → Contained m0 c
          → Contained m0 (handle_start_delta D E f c).1
      unfolding handle_start_delta after_erase flash_sector_start sector_index_for_addr
      handle_start_delta-Contained f c h =
          let to_b = target_b c.mem h.same in
          record {
            same = λ x o. ground (
              arith,
              h.same x o,
              to_b,
              F.span-le,
              F.erase_range-outside slot_b_addr D.flash_ota_slot_span c.mem x,
            );
            state = elim (Bool-cases (handle_start_delta D E f c).0) [
              | inl e ↦
                  let (t, slot, _) = handle_start_delta-IsTransfer D E f c F e in
                  inr (record { transfer = t; slot = slot ∙ to_b })
              | inr e ↦ rw (start_delta_kept f c e) h.state
            ];
            fits = ground (arith, h.fits);
          }

      pub handle_data-Contained :
          (f : OtaFrame) (c : OtaClient D)
          → HasLength f
          → Contained m0 c
          → Contained m0 (handle_data D E f c).1
      handle_data-Contained f c len h = elim h.state [
        | inl idle ↦ rw (data_inactive f c idle) h
        | inr b ↦
            let (slot, total) = data_keeps f c in
            record {
              same = λ x o.
                  (handle_data_confined D E F f c b.transfer x len (omega (arith, b.slot))).1
                  ∙ h.same x o;
              state = inr (record {
                transfer =
                    (handle_data_confined D E F f c b.transfer 0 len (omega (arith, b.slot))).0;
                slot = slot ∙ b.slot;
              });
              fits = rw total h.fits;
            }
      ]

      -- The state of the transfer is kept, and of the flash at most slot B is changed.
      reconstruct-Contained :
          (P : PatchLib) (c : OtaClient D)
          → IntoB c.g_state
          → Contained m0 c
          → Contained m0 (record c { mem = (reconstruct D E P c.g_state c.mem).1 })
      reconstruct-Contained P c b h = record {
        same = λ x o.
            reconstruct_confined P c.g_state c.mem x (omega (arith, b.slot, h.fits))
              (omega (arith, b.slot, h.fits))
            ∙ h.same x o;
        state = inr b;
        fits = h.fits;
      }

      handle_end-Contained :
          (P : PatchLib) (st : Device D)
          → Contained m0 st.client
          → Contained m0 (handle_end D E P st).1.client
      unfolding handle_end
      handle_end-Contained P st h =
          let g : OtaState = st.client.g_state in
          elim (Bool-cases (not g.active || not (g.written == g.xfer_total))) [
            | inl e ↦ rw e h
            | inr e ↦ elim h.state [
              | inl idle ↦ absurd (ground arith)
              | inr b ↦ elim (Bool-cases (end_ok P st)) [
                | inl good ↦ rw (e, good) (reconstruct-Contained P st.client b h)
                | inr bad ↦ rw (e, bad) (reconstruct-Contained P st.client b h)
              ]
            ]
          ]

      -- Every frame that is handed on keeps the session contained.
      pub dispatch-Contained :
          (P : PatchLib) (f : OtaFrame) (st : Device D)
          → HasLength f
          → Contained m0 st.client
          → Contained m0 (dispatch D E P f st).1.client
      unfolding dispatch
      dispatch-Contained P f st len h = elim (Bool-cases (f.op == ota_op_start)) [
        | inl e ↦ rw e (handle_start-Contained f st.client h)
        | inr a ↦ elim (Bool-cases (f.op == ota_op_start_delta)) [
          | inl e ↦ rw (a, e) (handle_start_delta-Contained f st.client h)
          | inr b ↦ elim (Bool-cases (f.op == ota_op_data)) [
            | inl e ↦ rw (a, b, e) (handle_data-Contained f st.client len h)
            | inr c ↦ elim (Bool-cases (f.op == ota_op_end)) [
              | inl e ↦ rw (a, b, c, e) (handle_end-Contained P st h)
              | inr d ↦ rw (a, b, c, d) h
            ]
          ]
        ]
      ]
