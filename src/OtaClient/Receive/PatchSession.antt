-- ===== src/OtaClient/Receive/PatchSession.antt =====
-- The rest of the session with a patch at the example: its DATA, its END and its end.
use secure_boot_loader_with.Base.{
  ℕ, ◌+◌, ◌-◌, ◌≤◌, ◌≡◌, inl, inr, refl, ap, ◌∙◌, sym, subst, arith, List, [], ◌∷◌, Bool, true,
  length, IsBytes,
}
use mathlib.Core.Path.{ap₂}
use secure_boot_loader_with.MemoryMap.{slot_a_addr, slot_b_addr}
use secure_boot_loader_with.FirmwareFormat.{header_of}
use secure_boot_loader_with.Flash.{ok, bytes_from}
use secure_boot_loader_with.Flash.Sim.{
  Shadow, shadow_byte, shadow_byte_ptr, load, flash_program_bytes, flash_ota_slot_span,
}
use secure_boot_loader_with.Flash.Sim.Driver.{sim_driver, sim_driver-IsFlash}
use secure_boot_loader_with.Flash.Sim.Program.{program_bytes-succeeds_b}
use secure_boot_loader_with.DeltaPatch.Apply.{delta_apply_patch}
use secure_boot_loader_with.DeltaPatch.Confined.{apply_patch_confined}
use secure_boot_loader_with.DeltaPatch.Replay.{replay_all}
use secure_boot_loader_with.DeltaPatch.Whole.{old_image, patch_bytes, apply_patch_replays}
use secure_boot_loader_with.OtaClient.Wire.{IsFrame}
use secure_boot_loader_with.OtaClient.Session.{OtaClient, handle_start_delta, handle_data}
use secure_boot_loader_with.OtaClient.Transfer.{
  IsTransfer, AllAccepted, handle_all, handle_all-stores,
}
use secure_boot_loader_with.OtaClient.Receive.{Device, handle_end}
use secure_boot_loader_with.OtaClient.Receive.Contained.{
  NotInB, Contained, handle_start_delta-Contained,
}
use secure_boot_loader_with.OtaClient.Receive.Frames.{ready}
use secure_boot_loader_with.OtaClient.Receive.Patched.{
  IsPatch, all-IsPatch, all-Contained, end_accepts_patch,
}
use secure_boot_loader_with.OtaClient.Receive.Rebuilt.{header_kept, image_kept, begun, before_end}
use secure_boot_loader_with.OtaClient.Receive.Example.{
  flash, fresh, end_frame, all_bytes, IsBytes-all_bytes,
}
use secure_boot_loader_with.OtaClient.Receive.Installable.{valid_record, in_a, installable-image}
use secure_boot_loader_with.OtaClient.Receive.PatchExample.{
  header_lib, patch, made, delta_frame, patch_frame, image_a_bytes, base_magic, begun_patch, begins,
}
use secure_boot_loader_with.Example.{example_ecc, image, quiet_block}

pub IsFrame-delta_frame : IsFrame delta_frame
unfolding all_bytes
IsFrame-delta_frame = record {
  op_byte = omega arith;
  seq_word = omega arith;
  data_len = refl;
  fits = omega arith;
  data_ok = IsBytes-all_bytes delta_frame.data_bytes refl;
}

IsFrame-patch_frame : IsFrame patch_frame
unfolding all_bytes
IsFrame-patch_frame = record {
  op_byte = omega arith;
  seq_word = omega arith;
  data_len = refl;
  fits = omega arith;
  data_ok = IsBytes-all_bytes patch refl;
}

abbrev stored_delta : OtaClient sim_driver
stored_delta = (handle_data sim_driver example_ecc patch_frame begun_patch).1

tail_programs :
    (flash_program_bytes (slot_b_addr + flash_ota_slot_span - 514) patch begun_patch.mem).0 ≡ ok
unfolding flash_ota_slot_span
tail_programs =
    program_bytes-succeeds_b _ patch begun_patch.mem (omega arith) (omega arith)
      (IsFrame-patch_frame.data_ok)

patch_accepted : (handle_data sim_driver example_ecc patch_frame begun_patch).0 ≡ true
unfolding handle_data flash_ota_slot_span
patch_accepted = rw tail_programs refl

patch_all : AllAccepted sim_driver example_ecc (patch_frame ∷ []) begun_patch
patch_all = (IsFrame-patch_frame, patch_accepted, tt)

whole_patch : stored_delta.g_state.written ≡ 514
unfolding handle_data flash_ota_slot_span
whole_patch = rw (stored_delta, tail_programs) refl

starts_patch : begun_patch ≡ (handle_start_delta sim_driver example_ecc delta_frame fresh).1
starts_patch = ap (λ (t : Bool × OtaClient sim_driver). t.1) (sym begins)

stored_delta-Contained : Contained sim_driver example_ecc flash stored_delta
unfolding handle_all
stored_delta-Contained =
    all-Contained sim_driver example_ecc sim_driver-IsFlash flash valid_record in_a
      (patch_frame ∷ []) begun_patch patch_all
      (subst (λ (c : OtaClient sim_driver). Contained sim_driver example_ecc flash c)
        (sym starts_patch)
        (handle_start_delta-Contained sim_driver example_ecc sim_driver-IsFlash flash valid_record
          in_a delta_frame fresh
          (record { same = λ x o. refl; state = inl refl; fits = omega arith })))

patch_stored :
    patch_bytes sim_driver sim_driver-IsFlash header_lib slot_a_addr slot_b_addr stored_delta.mem
      514
    ≡ patch
unfolding handle_all bytes_from flash_ota_slot_span
patch_stored =
    let transfer : IsTransfer sim_driver example_ecc begun_patch.g_state = record {
      slot = inr refl;
      low = omega arith;
      high = omega arith;
      progress = omega arith;
    } in
    let (_, _, bytes) =
      handle_all-stores sim_driver example_ecc (patch_frame ∷ []) begun_patch sim_driver-IsFlash
        transfer patch_all in
    ap
      (λ (n : ℕ).
        bytes_from (shadow_byte stored_delta.mem) (slot_b_addr + flash_ota_slot_span - 514) n)
      (sym whole_patch)
    ∙ bytes

pub slot_b_programs :
    (a : ℕ) (bs : List ℕ) (k : Shadow)
    → slot_b_addr ≤ a
    → a + length bs ≤ slot_b_addr + 513
    → IsBytes bs
    → (flash_program_bytes a bs k).0 ≡ ok
unfolding flash_ota_slot_span
slot_b_programs a bs k lo hi b = program_bytes-succeeds_b a bs k lo (omega (arith, hi)) b

image_a_kept :
    old_image sim_driver sim_driver-IsFlash header_lib slot_a_addr slot_b_addr stored_delta.mem
    ≡ image 2
unfolding bytes_from shadow_byte shadow_byte_ptr load header_of
image_a_kept =
    image_kept sim_driver sim_driver-IsFlash example_ecc header_lib flash stored_delta.mem
      stored_delta-Contained.same (omega arith)
    ∙ image_a_bytes

header_a_kept :
    bytes_from (shadow_byte stored_delta.mem) slot_a_addr 512
    ≡ bytes_from (shadow_byte flash) slot_a_addr 512
header_a_kept =
    header_kept sim_driver sim_driver-IsFlash example_ecc header_lib flash stored_delta.mem
      stored_delta-Contained.same

pub one_byte_a : (header_of (bytes_from (shadow_byte flash) slot_a_addr 512)).image_size ≡ 1
unfolding bytes_from shadow_byte shadow_byte_ptr load header_of
one_byte_a = refl

one_byte_kept :
    (header_of (bytes_from (shadow_byte stored_delta.mem) slot_a_addr 512)).image_size ≡ 1
one_byte_kept = ap (λ (bs : List ℕ). (header_of bs).image_size) header_a_kept ∙ one_byte_a

replayed :
    replay_all
      (old_image sim_driver sim_driver-IsFlash header_lib slot_a_addr slot_b_addr stored_delta.mem)
      (patch_bytes sim_driver sim_driver-IsFlash header_lib slot_a_addr slot_b_addr stored_delta.mem
        514)
      513
      header_lib
    ≡ (true, image 3)
replayed =
    ap₂ (λ (old diff : List ℕ). replay_all old diff 513 header_lib) image_a_kept patch_stored ∙ made

abbrev applied : Bool × Shadow
applied = delta_apply_patch sim_driver header_lib slot_a_addr slot_b_addr 514 513 stored_delta.mem

applies : (applied.0 ≡ true) × (bytes_from (shadow_byte applied.1) slot_b_addr 513 ≡ image 3)
unfolding flash_ota_slot_span
applies =
    let (verdict, bytes) =
      apply_patch_replays sim_driver sim_driver-IsFlash header_lib slot_a_addr slot_b_addr
        stored_delta.mem 514 513 (omega arith) (omega arith) (omega arith)
        (ap (λ (bs : List ℕ). (header_of bs).magic) header_a_kept ∙ base_magic)
        (omega (arith, one_byte_kept)) (omega (arith, one_byte_kept)) (inl (omega arith))
        (omega arith) (omega arith) slot_b_programs in
    (
      verdict ∙ ap (λ (t : Bool × List ℕ). t.0) replayed,
      subst (λ (out : List ℕ). bytes_from (shadow_byte applied.1) slot_b_addr (length out) ≡ out)
          (ap (λ (t : Bool × List ℕ). t.1) replayed) bytes,
    )

applied_same : (x : ℕ) → NotInB x → shadow_byte applied.1 x ≡ shadow_byte flash x
applied_same x o =
    apply_patch_confined sim_driver sim_driver-IsFlash header_lib slot_a_addr slot_b_addr 514 513
      stored_delta.mem x (omega arith) (omega arith)
    ∙ stored_delta-Contained.same x o

abbrev pub ready_patch : Device sim_driver
ready_patch =
    ready sim_driver example_ecc header_lib flash quiet_block delta_frame begun_patch
      (patch_frame ∷ []) end_frame

open_patch : stored_delta.g_state.active ≡ true
unfolding handle_data flash_ota_slot_span
open_patch = rw (stored_delta, tail_programs) refl

stored_delta-IsPatch : IsPatch sim_driver example_ecc 514 513 stored_delta.g_state
unfolding handle_all
stored_delta-IsPatch =
    all-IsPatch sim_driver example_ecc 514 513 (patch_frame ∷ []) begun_patch
      (record { kind = refl; slot = refl; total = refl; new_total = refl; base = refl })

patch_end : (handle_end sim_driver example_ecc header_lib ready_patch).0 ≡ true
unfolding handle_all
patch_end =
    end_accepts_patch sim_driver example_ecc header_lib 514 513 ready_patch open_patch whole_patch
      stored_delta-IsPatch applies.0 (installable-image applied.1 applies.1 applied_same)

-- The same for what the START_DELTA leaves.
abbrev pub after_start : OtaClient sim_driver
after_start =
    begun sim_driver sim_driver-IsFlash example_ecc header_lib flash quiet_block delta_frame
      (patch_frame ∷ []) end_frame

pub start_accepted_delta : (handle_start_delta sim_driver example_ecc delta_frame fresh).0 ≡ true
start_accepted_delta = ap (λ (t : Bool × OtaClient sim_driver). t.0) begins

pub patch-AllAccepted : AllAccepted sim_driver example_ecc (patch_frame ∷ []) after_start
patch-AllAccepted =
    subst (λ (c : OtaClient sim_driver). AllAccepted sim_driver example_ecc (patch_frame ∷ []) c)
      starts_patch patch_all

pub patch_end_accepted :
    (handle_end sim_driver example_ecc header_lib (
      before_end sim_driver sim_driver-IsFlash example_ecc header_lib flash quiet_block delta_frame
        (patch_frame ∷ [])
        end_frame)).0
    ≡ true
patch_end_accepted =
    subst
      (λ (c : OtaClient sim_driver).
        (handle_end sim_driver example_ecc header_lib (
          ready sim_driver example_ecc header_lib flash quiet_block delta_frame c (patch_frame ∷ [])
            end_frame)).0
        ≡ true)
      starts_patch patch_end
