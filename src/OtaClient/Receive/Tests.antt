-- ===== src/OtaClient/Receive/Tests.antt =====
-- The theorems on sessions at the example.
use secure_boot_loader_with.Base.{◌≡◌, ◌⊎◌, refl, [], ◌∷◌, ◌++◌, some, true}
use secure_boot_loader_with.MemoryMap.{slot_b_addr}
use secure_boot_loader_with.Flash.{bytes_from}
use secure_boot_loader_with.Flash.Sim.{shadow_byte}
use secure_boot_loader_with.Flash.Sim.Driver.{sim_driver, sim_driver-IsFlash}
use secure_boot_loader_with.BootConfig.{boot_config_firmware_allowed}
use secure_boot_loader_with.BootConfig.Store.{boot_config_load}
use secure_boot_loader_with.OtaClient.{Input}
use secure_boot_loader_with.Crypto.Verify.{IsGenuine, header_at}
use secure_boot_loader_with.OtaClient.Receive.Contained.{Contained}
use secure_boot_loader_with.OtaClient.Receive.Total.{receive_ends, noise_uncounted}
use secure_boot_loader_with.OtaClient.Wire.{arriving}
use secure_boot_loader_with.OtaClient.Receive.{receive_round, fresh_device}
use secure_boot_loader_with.OtaClient.Receive.Confined.{receive_confined}
use secure_boot_loader_with.OtaClient.Receive.Installs.{receive_installs}
use secure_boot_loader_with.OtaClient.Receive.Delivered.{update_delivered}
use secure_boot_loader_with.OtaClient.Receive.Frames.{acks}
use secure_boot_loader_with.OtaClient.Receive.{
  pending, Device, ReceiveEnd, system_reset, returned_false, ota_client_receive,
}
use secure_boot_loader_with.DeltaPatch.Replay.{replay_all}
use secure_boot_loader_with.OtaClient.Receive.{send_response, handle_end, ota_resp_ack}
use secure_boot_loader_with.OtaClient.Receive.Frames.{stream}
use secure_boot_loader_with.OtaClient.Receive.Rebuilt.{image_a, before_end, patch_delivered}
use secure_boot_loader_with.OtaClient.Receive.PatchExample.{
  header_lib, patch, delta_frame, patch_frame,
}
use secure_boot_loader_with.OtaClient.Receive.PatchSession.{
  IsFrame-delta_frame, start_accepted_delta, patch-AllAccepted, patch_end_accepted, slot_b_programs,
  one_byte_a,
}
use secure_boot_loader_with.Base.{arith}
use secure_boot_loader_with.Example.{example_ecc, image, quiet_block}
use secure_boot_loader_with.OtaClient.Receive.Example.{
  example_patch_lib, start_frame, data_frame, end_frame, flash, IsFrame-start_frame,
  IsFrame-end_frame, start_accepted, all_accepted,
}
use secure_boot_loader_with.OtaClient.Receive.Installable.{valid_record, in_a}
use secure_boot_loader_with.OtaClient.Receive.Installed.{
  end_accepted, session, at_end, session_resets,
}

update_delivered_example :
    (ota_client_receive sim_driver example_ecc example_patch_lib session quiet_block flash
      ≡ some (system_reset, at_end, []))
    × (at_end.sent ≡ acks (start_frame ∷ data_frame ∷ []) ++ acks (end_frame ∷ []))
    × (bytes_from
          (shadow_byte at_end.client.mem)
          at_end.client.g_state.slot_addr
          at_end.client.g_state.written
        ≡ image 3 ++ [])
update_delivered_example =
    update_delivered sim_driver example_ecc example_patch_lib flash quiet_block start_frame
      (data_frame ∷ []) end_frame [] sim_driver-IsFlash IsFrame-start_frame refl start_accepted
      (refl, tt) all_accepted IsFrame-end_frame refl end_accepted

receive_ends_example :
    (r : ReceiveEnd × Device sim_driver × Input) × (ota_client_receive sim_driver example_ecc
        example_patch_lib session quiet_block flash
      ≡ some r)
receive_ends_example =
    receive_ends sim_driver example_ecc example_patch_lib session quiet_block flash

receive_confined_example : Contained sim_driver example_ecc flash at_end.client
receive_confined_example =
    receive_confined sim_driver example_ecc example_patch_lib sim_driver-IsFlash flash valid_record
      in_a session quiet_block system_reset at_end [] session_resets

receive_installs_example :
    ((system_reset ≡ system_reset)
      × (at_end.shared ≡ pending quiet_block)
      × IsGenuine sim_driver example_ecc slot_b_addr at_end.client.mem
      × (boot_config_firmware_allowed
            (boot_config_load sim_driver example_ecc flash).1
            (header_at sim_driver example_ecc slot_b_addr at_end.client.mem).version
          ≡ true))
    ⊎ ((system_reset ≡ returned_false) × (at_end.shared ≡ quiet_block))
receive_installs_example =
    receive_installs sim_driver example_ecc example_patch_lib sim_driver-IsFlash flash valid_record
      in_a quiet_block session system_reset at_end [] session_resets

patch_delivered_example :
    let after =
      send_response sim_driver ota_resp_ack 3
        (handle_end sim_driver example_ecc header_lib (
          before_end sim_driver sim_driver-IsFlash example_ecc header_lib flash quiet_block
            delta_frame
            (patch_frame ∷ [])
            end_frame)).1 in
    let (good, out) =
      replay_all
        (image_a sim_driver sim_driver-IsFlash example_ecc header_lib flash)
        (patch ++ [])
        513
        header_lib in
    (ota_client_receive sim_driver example_ecc header_lib
        (stream (delta_frame ∷ patch_frame ∷ []) (stream (end_frame ∷ []) []))
        quiet_block
        flash
      ≡ some (system_reset, after, []))
    × (after.sent ≡ acks (delta_frame ∷ patch_frame ∷ []) ++ acks (end_frame ∷ []))
    × (good ≡ true)
    × (bytes_from (shadow_byte after.client.mem) slot_b_addr 513 ≡ out)
patch_delivered_example =
    patch_delivered sim_driver sim_driver-IsFlash example_ecc header_lib flash quiet_block
      delta_frame (patch_frame ∷ []) end_frame [] valid_record in_a (omega (arith, one_byte_a))
      IsFrame-delta_frame refl start_accepted_delta (refl, tt) patch-AllAccepted IsFrame-end_frame
      refl patch_end_accepted slot_b_programs

noise_uncounted_example :
    let st = fresh_device sim_driver quiet_block flash in
    receive_round sim_driver example_ecc example_patch_lib 3
      (arriving (0xFF ∷ 0x55 ∷ 0 ∷ []) session)
      st
    ≡ receive_round sim_driver example_ecc example_patch_lib 3 session st
noise_uncounted_example =
    noise_uncounted sim_driver example_ecc example_patch_lib 3 (0xFF ∷ 0x55 ∷ 0 ∷ []) session
      (fresh_device sim_driver quiet_block flash) (omega arith) (omega arith)
