-- ===== src/OtaClient/Session.antt =====
-- The handlers of bootloader/src/ota_client.c that begin a transfer and take its data.
use secure_boot_loader_with.Base.{
  ℕ, ◌+◌, ◌-◌, Bool, true, false, ◌||◌, not, ltb, ◌==◌, if◌then◌else◌, List, get_or, take, drop,
  of_le32, u16, u32,
}
use secure_boot_loader_with.MemoryMap.{
  memory_map_slot_addr, memory_map_other_slot, firmware_header_size, firmware_max_payload_size,
}
use secure_boot_loader_with.Flash.{FlashDriver, Status, is_ok}
use secure_boot_loader_with.Crypto.{Ecc}
use secure_boot_loader_with.BootConfig.{BootConfig}
use secure_boot_loader_with.BootConfig.Store.{boot_config_load}
use secure_boot_loader_with.DeltaPatch.{delta_verify_active_base_sha256}
use secure_boot_loader_with.OtaClient.{OtaFrame}

pub data OtaKind : Type 0 where
  ota_kind_full ota_kind_delta : OtaKind

-- `ota_state_t`.
pub record OtaState : Type 0 where
  pub active : Bool
  pub kind : OtaKind
  pub slot_addr : ℕ
  pub xfer_total : ℕ
  pub written : ℕ
  pub expected_seq : ℕ
  pub patch_tail_base : ℕ
  pub expected_new_total : ℕ
  pub active_slot_base : ℕ

-- `g_state` and the flash.
pub record OtaClient (D : FlashDriver) : Type 0 where
  pub g_state : OtaState
  pub mem : D.Mem

abbrev pub rd_u32_le : List ℕ → ℕ → ℕ
rd_u32_le bs i =
    of_le32 (get_or bs i 0) (get_or bs (i + 1) 0) (get_or bs (i + 2) 0) (get_or bs (i + 3) 0)

abbrev pub ota_start_delta_payload : ℕ
ota_start_delta_payload = 4 + 4 + 32

-- A size that no image has.
abbrev pub bad_total : ℕ → Bool
bad_total total =
    ltb total firmware_header_size || ltb (firmware_header_size + firmware_max_payload_size) total

module _ (D : FlashDriver) (E : Ecc) where
  -- What follows the erase: `begin` is the state of the transfer.
  unfoldable pub after_erase : Status × D.Mem → OtaState → OtaState → Bool × OtaClient D
  after_erase (status, m) old begin =
      if is_ok status
      then (true, record { g_state = begin; mem = m })
      else (false, record { g_state = old; mem = m })

  unfoldable pub handle_start : OtaFrame → OtaClient D → Bool × OtaClient D
  handle_start f st =
      let cfg : BootConfig = (boot_config_load D E st.mem).1 in
      let slot_addr : ℕ = memory_map_slot_addr (memory_map_other_slot cfg.active_slot) in
      let total : ℕ = rd_u32_le f.data_bytes 0 in
      if ltb f.len 4 || bad_total total
      then (false, st)
      else after_erase (D.flash_erase_range slot_addr total st.mem) st.g_state
          (record (st.g_state) {
            active = true;
            kind = ota_kind_full;
            slot_addr = slot_addr;
            xfer_total = total;
            written = 0;
            expected_seq = u16 (f.seq + 1);
          })

  unfoldable pub handle_start_delta : OtaFrame → OtaClient D → Bool × OtaClient D
  handle_start_delta f st =
      let cfg : BootConfig = (boot_config_load D E st.mem).1 in
      let slot_addr : ℕ = memory_map_slot_addr (memory_map_other_slot cfg.active_slot) in
      let patch_total : ℕ = rd_u32_le f.data_bytes 0 in
      let expected_new : ℕ = rd_u32_le f.data_bytes 4 in
      let digest : List ℕ = take 32 (drop 8 f.data_bytes) in
      let slot_span : ℕ = D.flash_ota_slot_span in
      let active_base : ℕ = memory_map_slot_addr cfg.active_slot in
      if ltb f.len ota_start_delta_payload
        || (patch_total == 0 || ltb slot_span patch_total)
        || bad_total expected_new
        || ltb slot_span (u32 (expected_new + patch_total))
      then (false, st)
      else if delta_verify_active_base_sha256 D active_base digest st.mem
      then after_erase (D.flash_erase_range slot_addr slot_span st.mem) st.g_state (record {
        active = true;
        kind = ota_kind_delta;
        slot_addr = slot_addr;
        xfer_total = patch_total;
        expected_new_total = expected_new;
        active_slot_base = active_base;
        patch_tail_base = u32 (slot_addr + slot_span - patch_total);
        written = 0;
        expected_seq = u16 (f.seq + 1);
      })
      else (false, st)

  -- Where the data of a transfer goes.
  abbrev pub dest_base : OtaState → ℕ
  dest_base g = elim g.kind [ ota_kind_delta ↦ g.patch_tail_base | ota_kind_full ↦ g.slot_addr ]

  unfoldable pub handle_data : OtaFrame → OtaClient D → Bool × OtaClient D
  handle_data f st =
      let g : OtaState = st.g_state in
      let (status, m) = D.flash_program_bytes (u32 (dest_base g + g.written)) f.data_bytes st.mem in
      if not g.active
        || not (f.seq == g.expected_seq)
        || f.len == 0
        || ltb g.xfer_total (u32 (g.written + f.len))
      then (false, st)
      else if is_ok status
      then (
        true,
        record {
          g_state = record g {
            written = u32 (g.written + f.len);
            expected_seq = u16 (g.expected_seq + 1);
          };
          mem = m;
        },
      )
      else (false, record st { mem = m })
