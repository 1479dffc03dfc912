-- ===== src/OtaClient/Transfer.antt =====
-- What a transfer may write, and what it has written: theorems on the handlers of
-- bootloader/src/ota_client.c.
use secure_boot_loader_with.Base.{
  ℕ, ◌+◌, ◌≤◌, ◌<◌, ◌^◌, ◌≡◌, ◌⊎◌, inl, inr, refl, ap, ◌∙◌, sym, List, [], ◌∷◌, ◌++◌, true, arith,
  length, u32, append_assoc, append-nil, IsBytes,
}
use mathlib.Core.Path.{ap₂}
use secure_boot_loader_with.MemoryMap.{
  slot_a_addr, slot_b_addr, slot_size, memory_map_slot_addr, memory_map_other_slot,
}
use secure_boot_loader_with.Flash.{FlashDriver, IsFlash, ok, is_ok_lem, bytes_from}
use secure_boot_loader_with.Flash.Bytes.{bytes_from-add, bytes_from-eq}
use secure_boot_loader_with.Crypto.{Ecc}
use secure_boot_loader_with.BootConfig.Store.{boot_config_load}
use secure_boot_loader_with.OtaClient.{OtaFrame}
use secure_boot_loader_with.OtaClient.Wire.{IsFrame, HasLength}
use secure_boot_loader_with.OtaClient.Session.{
  OtaState, OtaClient, after_erase, dest_base, handle_start, handle_start_delta, handle_data,
}

module _ (D : FlashDriver) (E : Ecc) where
  -- A transfer whose data lies inside one slot.
  pub record IsTransfer (g : OtaState) : Type 0 where
    pub slot : (g.slot_addr ≡ slot_a_addr) ⊎ (g.slot_addr ≡ slot_b_addr)
    pub low : g.slot_addr ≤ dest_base D E g
    pub high : dest_base D E g + g.xfer_total ≤ g.slot_addr + slot_size
    pub progress : g.written ≤ g.xfer_total

  slot_lem :
      (s : ℕ) → (memory_map_slot_addr s ≡ slot_a_addr) ⊎ (memory_map_slot_addr s ≡ slot_b_addr)
  unfolding memory_map_slot_addr
  slot_lem s = ground arith

  -- A START that is accepted begins a transfer inside the inactive slot with nothing written yet.
  pub handle_start-IsTransfer :
      (f : OtaFrame) (st : OtaClient D)
      → (handle_start D E f st).0 ≡ true
      → let after = (handle_start D E f st).1.g_state in
        IsTransfer after
        × (after.slot_addr
            ≡ memory_map_slot_addr
                (memory_map_other_slot (boot_config_load D E st.mem).1.active_slot))
        × (after.written ≡ 0)
  unfolding handle_start after_erase
  handle_start-IsTransfer f st h =
      let slot = slot_lem (memory_map_other_slot (boot_config_load D E st.mem).1.active_slot) in
      (
        record {
          slot = ground (arith, slot);
          low = ground (arith, slot);
          high = ground (arith, slot);
          progress = ground arith;
        },
        ground arith,
        ground arith,
      )

  -- A START_DELTA that is accepted begins a transfer inside the inactive slot, on a driver that keeps
  -- its promises: the patch goes to an address in the slot and ends in it.
  pub handle_start_delta-IsTransfer :
      (f : OtaFrame) (st : OtaClient D)
      → IsFlash D
      → (handle_start_delta D E f st).0 ≡ true
      → let after = (handle_start_delta D E f st).1.g_state in
        IsTransfer after
        × (after.slot_addr
            ≡ memory_map_slot_addr
                (memory_map_other_slot (boot_config_load D E st.mem).1.active_slot))
        × (after.written ≡ 0)
  unfolding handle_start_delta after_erase
  handle_start_delta-IsTransfer f st F h =
      let slot = slot_lem (memory_map_other_slot (boot_config_load D E st.mem).1.active_slot) in
      (
        record {
          slot = ground (arith, slot);
          low = ground (arith, slot, F.span-le);
          high = ground (arith, slot, F.span-le);
          progress = ground arith;
        },
        ground arith,
        ground arith,
      )

  -- Bytes that are programmed behind a run extend it.
  program_appends :
      (base w n : ℕ) (bs : List ℕ) (m : D.Mem)
      → IsFlash D
      → length bs ≡ n
      → base + (w + n) ≤ 2 ^ 32
      → IsBytes bs
      → (D.flash_program_bytes (base + w) bs m).0 ≡ ok
      → bytes_from (D.byte_at (D.flash_program_bytes (base + w) bs m).1) base (w + n)
        ≡ bytes_from (D.byte_at m) base w ++ bs
  program_appends base w n bs m F len room bytes done =
      bytes_from-add (D.byte_at after) base w n (w + n) refl
      ∙ ap₂ ◌++◌
          (bytes_from-eq (D.byte_at after) (D.byte_at m) base w (omega arith)
            (λ x p q. F.program_bytes-outside (base + w) bs m x (omega arith) (inl (omega arith))))
          (ap (λ (k : ℕ). bytes_from (D.byte_at after) (base + w) k) (sym len)
            ∙ F.program_bytes-ok (base + w) bs m (omega arith) done bytes)
    where
      after : D.Mem
      after = (D.flash_program_bytes (base + w) bs m).1

  module _ (F : IsFlash D) (f : OtaFrame) (st : OtaClient D) (t : IsTransfer st.g_state) where
    -- A DATA frame with a right length, accepted or not, keeps the transfer inside its slot and writes
    -- nothing outside.
    pub handle_data_confined :
        (x : ℕ)
        → HasLength f
        → (x < st.g_state.slot_addr) ⊎ (st.g_state.slot_addr + slot_size ≤ x)
        → IsTransfer (handle_data D E f st).1.g_state
          × (D.byte_at (handle_data D E f st).1.mem x ≡ D.byte_at st.mem x)
    unfolding handle_data
    handle_data_confined x len o = (
      record {
        slot = ground (arith, t.slot);
        low = ground (arith, t.low);
        high = ground (arith, t.high);
        progress = ground (arith, t.progress, t.high, t.slot);
      },
      ground (
        arith,
        t.slot,
        t.low,
        t.high,
        len.0,
        len.1,
        F.program_bytes-outside (u32 (dest_base D E st.g_state + st.g_state.written)) f.data_bytes
            st.mem x,
      ),
    )

    -- A DATA frame that is accepted had the expected number and appends its data: what stood in
    -- front of it is kept.
    pub handle_data_appends :
        IsFrame f
        → (handle_data D E f st).0 ≡ true
        → let after = (handle_data D E f st).1 in
          let base = dest_base D E st.g_state in
          (f.seq ≡ st.g_state.expected_seq)
          × (after.g_state.written ≡ st.g_state.written + f.len)
          × (dest_base D E after.g_state ≡ base)
          × (bytes_from (D.byte_at after.mem) base after.g_state.written
              ≡ bytes_from (D.byte_at st.mem) base st.g_state.written ++ f.data_bytes)
    unfolding handle_data
    handle_data_appends fr h = (
      ground arith,
      count,
      ground arith,
      ap₂ (λ (m : D.Mem) (k : ℕ). bytes_from (D.byte_at m) base k) flash count
          ∙ program_appends base g.written f.len f.data_bytes st.mem F fr.data_len room fr.data_ok
              done,
    )
      where
        g : OtaState
        g = st.g_state

        base : ℕ
        base = dest_base D E g

        in_range : (base + g.xfer_total < 2 ^ 32) × (g.written ≤ g.xfer_total) × (f.len ≤ 1024)
        in_range = omega (arith, t.slot, t.high, t.progress, fr.fits)

        count : (handle_data D E f st).1.g_state.written ≡ g.written + f.len
        count = ground (arith, in_range)

        room : base + (g.written + f.len) ≤ 2 ^ 32
        room = ground (arith, in_range)

        at : u32 (base + g.written) ≡ base + g.written
        at = omega (arith, in_range)

        flash :
            (handle_data D E f st).1.mem
            ≡ (D.flash_program_bytes (base + g.written) f.data_bytes st.mem).1
        flash = ground arith ∙ ap (λ (a : ℕ). (D.flash_program_bytes a f.data_bytes st.mem).1) at

        done : (D.flash_program_bytes (base + g.written) f.data_bytes st.mem).0 ≡ ok
        done =
            ap (λ (a : ℕ). (D.flash_program_bytes a f.data_bytes st.mem).0) (sym at)
            ∙ is_ok_lem _ (ground arith)

  -- A run of DATA frames, as the receive loop hands them on.
  unfoldable pub handle_all : List OtaFrame → OtaClient D → OtaClient D
  handle_all [] st = st
  handle_all (f ∷ fs) st = handle_all fs (handle_data D E f st).1

  -- Every one of them is a frame, and is accepted.
  abbrev pub AllAccepted : List OtaFrame → OtaClient D → Type 0
  AllAccepted [] st = Unit {0}
  AllAccepted (f ∷ fs) st =
      IsFrame f × ((handle_data D E f st).0 ≡ true) × AllAccepted fs (handle_data D E f st).1

  abbrev pub data_of : List OtaFrame → List ℕ
  data_of [] = []
  data_of (f ∷ fs) = f.data_bytes ++ data_of fs

  -- If every frame of a run is accepted, what the transfer has written is what it had written
  -- before, followed by the data of the frames in order, all inside the slot.
  pub handle_all-stores :
      (fs : List OtaFrame) (st : OtaClient D)
      → IsFlash D
      → IsTransfer st.g_state
      → AllAccepted fs st
      → let after = handle_all fs st in
        let base = dest_base D E st.g_state in
        IsTransfer after.g_state
        × (dest_base D E after.g_state ≡ base)
        × (bytes_from (D.byte_at after.mem) base after.g_state.written
            ≡ bytes_from (D.byte_at st.mem) base st.g_state.written ++ data_of fs)
  unfolding handle_all
  handle_all-stores [] st F t a = (t, refl, sym (append-nil _))
  handle_all-stores (f ∷ fs) st F t (frame, accepted, more) =
      let (one, _) =
        handle_data_confined F f st t (st.g_state.slot_addr + slot_size)
          (frame.data_len, frame.fits) (inr (omega arith)) in
      let (_, _, kept, appended) = handle_data_appends F f st t frame accepted in
      let (all, base, stored) = handle_all-stores fs next F one more in
      (
        all,
        base ∙ kept,
        ap (λ (b : ℕ). bytes_from (D.byte_at last.mem) b last.g_state.written) (sym kept)
            ∙ stored
            ∙ ap (λ (b : ℕ). bytes_from (D.byte_at next.mem) b next.g_state.written ++ data_of fs)
                kept
            ∙ ap (λ (bs : List ℕ). bs ++ data_of fs) appended
            ∙ append_assoc _ f.data_bytes (data_of fs),
      )
    where
      next : OtaClient D
      next = (handle_data D E f st).1

      last : OtaClient D
      last = handle_all fs next
