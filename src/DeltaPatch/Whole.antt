-- ===== src/DeltaPatch/Whole.antt =====
-- `delta_apply_patch` of bootloader/src/delta_patch.c does on the flash what the replay does on lists.
use secure_boot_loader_with.Base.{
  ℕ, ◌+◌, ◌-◌, ◌^◌, ◌≤◌, ◌<◌, ◌≡◌, ◌⊎◌, inl, inr, refl, ap, List, [], Option, none, some, true,
  false, Bool-cases, ==_iff, arith, u32, length, ltb, leb, ◌==◌, ◌||◌, if◌then◌else◌, IsBytes,
}
use secure_boot_loader_with.Flash.{FlashDriver, IsFlash, ok, bytes_from}
use secure_boot_loader_with.Flash.Bytes.{length-bytes_from}
use secure_boot_loader_with.DeltaPatch.Apply.{
  CompressType, compress_type_no, compress_type_tuz, compress_type_other, PatchLib, DeltaListener,
  sub32, call, hpatch_tuz_reserved_mem_size, patch_with, patch_opened, delta_run_patch, run_sized,
  run_opened, delta_tuz_dict_max, listener, delta_apply_patch,
}
use secure_boot_loader_with.DeltaPatch.Replay.{
  Replay, replay, replay_with, replay_opened, replay_sized, replay_patch, replay_kind, replay_all,
}
use secure_boot_loader_with.DeltaPatch.Refine.{Layout, Holds, Matches, at, call-Matches}
use secure_boot_loader_with.MemoryMap.{firmware_magic, firmware_header_size, slot_size}
use secure_boot_loader_with.FirmwareFormat.{FirmwareHeader, header_of}

module _ (D : FlashDriver) (F : IsFlash D) (active inactive tail expected : ℕ) (old diff : List ℕ)
    (L : Layout active inactive tail expected old diff)
    (programs : (a : ℕ) (bs : List ℕ) (m : D.Mem)
      → inactive ≤ a
      → a + length bs ≤ inactive + expected
      → IsBytes bs
      → (D.flash_program_bytes a bs m).0 ≡ ok)
    (P : PatchLib) where
  with-Matches :
      (tuz : Option P.TuzStream) (new_size : ℕ) (r : Replay) (m : D.Mem)
      → Holds D F active inactive tail expected old diff L programs r m
      → Matches D F active inactive tail expected old diff L programs
          (patch_with D P tuz new_size
            (at D F active inactive tail expected old diff L programs r m))
          (replay_with old diff expected P tuz new_size r)
  unfolding patch_with replay_with
  with-Matches tuz new_size r m h =
      let (m1, e, h1) =
        call-Matches D F active inactive tail expected old diff L programs
          (P.hpatch_lite_patch tuz new_size) r m h in
      rw e (m1, refl, h1)

  opened-Matches :
      (new_size : ℕ) (o : Option P.TuzStream) (r : Replay) (m : D.Mem)
      → Holds D F active inactive tail expected old diff L programs r m
      → Matches D F active inactive tail expected old diff L programs
          (patch_opened D P new_size
            (o, at D F active inactive tail expected old diff L programs r m))
          (replay_opened old diff expected P new_size (o, r))
  unfolding patch_opened replay_opened
  opened-Matches new_size none r m h = (m, refl, h)
  opened-Matches new_size (some tuz) r m h = with-Matches (some tuz) new_size r m h

  sized-Matches :
      (new_size size : ℕ) (r : Replay) (m : D.Mem)
      → Holds D F active inactive tail expected old diff L programs r m
      → Matches D F active inactive tail expected old diff L programs
          (run_sized D P new_size (
            if leb P.tuz_k_max_of_dict_size (sub32 size 1) then 0 else size,
            at D F active inactive tail expected old diff L programs r m,
          ))
          (replay_sized old diff expected P new_size (size, r))
  unfolding run_sized replay_sized
  sized-Matches new_size size r m h =
      let dict_size : ℕ = if leb P.tuz_k_max_of_dict_size (sub32 size 1) then 0 else size in
      let opened = replay old diff expected (P.tuz_tstream_open dict_size) r in
      elim (Bool-cases (dict_size == 0 || ltb delta_tuz_dict_max dict_size)) [
        | inl e ↦ rw e (m, refl, h)
        | inr e ↦
            let (m1, c, h1) =
              call-Matches D F active inactive tail expected old diff L programs
                (P.tuz_tstream_open dict_size) r m h in
            rw (e, c) (opened-Matches new_size opened.0 opened.1 m1 h1)
      ]

  patch-Matches :
      (ct : CompressType) (new_size : ℕ) (r : Replay) (m : D.Mem)
      → Holds D F active inactive tail expected old diff L programs r m
      → Matches D F active inactive tail expected old diff L programs
          (delta_run_patch D P ct new_size
            (at D F active inactive tail expected old diff L programs r m))
          (replay_patch old diff expected P ct new_size r)
  unfolding delta_run_patch replay_patch hpatch_tuz_reserved_mem_size
  patch-Matches compress_type_no new_size r m h = with-Matches none new_size r m h
  patch-Matches compress_type_other new_size r m h = (m, refl, h)
  patch-Matches compress_type_tuz new_size r m h =
      let (m1, e, h1) =
        call-Matches D F active inactive tail expected old diff L programs
          P.tuz_tstream_read_dict_size r m h in
      let (size, r1) = replay old diff expected P.tuz_tstream_read_dict_size r in
      rw e (sized-Matches new_size size r1 m1 h1)

  kind-Matches :
      (o : Option (CompressType × ℕ)) (r : Replay) (m : D.Mem)
      → Holds D F active inactive tail expected old diff L programs r m
      → Matches D F active inactive tail expected old diff L programs
          (run_opened D P expected
            (o, at D F active inactive tail expected old diff L programs r m))
          (replay_kind old diff expected P (o, r))
  unfolding run_opened replay_kind
  kind-Matches none r m h = (m, refl, h)
  kind-Matches (some (ct, new_size)) r m h = elim (Bool-cases (new_size == expected)) [
    | inl e ↦ rw e (patch-Matches ct new_size r m h)
    | inr e ↦ rw e (m, refl, h)
  ]

  -- The whole application, on the listener that it sets up.
  pub run_matches :
      (m : D.Mem)
      → Holds D F active inactive tail expected old diff L programs (record { pos = 0; out = [] }) m
      → let (good, l) = run_opened D P expected (
          call D P.hpatch_lite_open (
            at D F active inactive tail expected old diff L programs
              (record { pos = 0; out = [] })
              m)) in
        let (good', out) = replay_all old diff expected P in
        (good ≡ good') × (bytes_from (D.byte_at l.mem) inactive (length out) ≡ out)
  unfolding replay_all
  run_matches m h =
      let (m1, e, h1) =
        call-Matches D F active inactive tail expected old diff L programs P.hpatch_lite_open
          (record { pos = 0; out = [] }) m h in
      let (o, r1) = replay old diff expected P.hpatch_lite_open (record { pos = 0; out = [] }) in
      let (m2, e2, h2) = kind-Matches o r1 m1 h1 in rw (e, e2) (refl, h2.out_is)

module _ (D : FlashDriver) (F : IsFlash D) (P : PatchLib) (active inactive : ℕ) (m : D.Mem) where
  -- The header in front of the old image, the old image, and the patch at the end of the other slot.
  abbrev pub old_header : FirmwareHeader
  old_header = header_of (bytes_from (D.byte_at m) active firmware_header_size)

  abbrev pub old_image : List ℕ
  old_image = bytes_from (D.byte_at m) active (firmware_header_size + old_header.image_size)

  abbrev pub patch_bytes : ℕ → List ℕ
  patch_bytes patch_total =
      bytes_from (D.byte_at m) (inactive + D.flash_ota_slot_span - patch_total) patch_total

  -- With a base image that its header describes, two slots that do not meet, and room for the patch
  -- behind the new image, the application of a patch succeeds exactly if the replay does, and leaves
  -- the bytes that the replay writes at the beginning of the inactive slot, provided that the flash
  -- programs them.
  pub apply_patch_replays :
      (patch_total expected : ℕ)
      → 0 < patch_total
      → 0 < expected
      → expected + patch_total ≤ D.flash_ota_slot_span
      → old_header.magic ≡ firmware_magic
      → 0 < old_header.image_size
      → firmware_header_size + old_header.image_size ≤ slot_size
      → (active + slot_size ≤ inactive) ⊎ (inactive + slot_size ≤ active)
      → active + slot_size < 2 ^ 32
      → inactive + slot_size < 2 ^ 32
      → ((a : ℕ) (bs : List ℕ) (n : D.Mem)
          → inactive ≤ a
          → a + length bs ≤ inactive + expected
          → IsBytes bs
          → (D.flash_program_bytes a bs n).0 ≡ ok)
      → let (good, after) = delta_apply_patch D P active inactive patch_total expected m in
        let (good', out) = replay_all old_image (patch_bytes patch_total) expected P in
        (good ≡ good') × (bytes_from (D.byte_at after) inactive (length out) ≡ out)
  unfolding delta_apply_patch
  apply_patch_replays patch_total expected p q fits magic size small apart ra ri programs =
      let tail : ℕ = inactive + D.flash_ota_slot_span - patch_total in
      let len_old =
        length-bytes_from (D.byte_at m) active (firmware_header_size + old_header.image_size) in
      let len_diff = length-bytes_from (D.byte_at m) tail patch_total in
      let span = F.span-le in
      let L : Layout active inactive tail expected old_image (patch_bytes patch_total) = record {
        old_room = omega (arith, len_old, small, ra);
        new_room = omega (arith, fits, q);
        diff_room = omega (arith, len_diff, fits, span, ri);
        apart = ground (arith, len_old, small, apart, fits, span);
      } in
      let start : Holds D F active inactive tail expected old_image (patch_bytes patch_total) L
          programs (record { pos = 0; out = [] }) m =
        record {
          fits = omega arith;
          read = omega arith;
          old_is = ap (λ (k : ℕ). bytes_from (D.byte_at m) active k) len_old;
          diff_is = ap (λ (k : ℕ). bytes_from (D.byte_at m) tail k) len_diff;
          out_is = unfold bytes_from in refl;
        } in
      let run =
        run_matches D F active inactive tail expected old_image (patch_bytes patch_total) L programs
          P m start in
      let hdr = old_header in
      let whole : u32 (firmware_header_size + hdr.image_size) ≡ length old_image =
        omega (arith, len_old, small) in
      let base : sub32 (inactive + D.flash_ota_slot_span) patch_total ≡ tail =
        omega (arith, fits, span, ri) in
      let t1 : (patch_total == 0 || expected == 0) ≡ false = ground (arith, p, q) in
      let t2 : ltb D.flash_ota_slot_span (u32 (expected + patch_total)) ≡ false =
        ground (arith, fits, span) in
      let t3 : (hdr.magic == firmware_magic) ≡ true = (==_iff hdr.magic firmware_magic).1 magic in
      let t4 : (hdr.image_size == 0) ≡ false = ground (arith, size) in
      let t5 : ltb slot_size (length old_image) ≡ false = ground (arith, len_old, small) in
      let begin : DeltaListener D =
        at D F active inactive tail expected old_image (patch_bytes patch_total) L programs
          (record { pos = 0; out = [] }) m in
      let same : listener D active inactive patch_total expected (length old_image) m ≡ begin =
        rw (base, len_diff) refl in
      let result = run_opened D P expected (call D P.hpatch_lite_open begin) in
      let reduced : delta_apply_patch D P active inactive patch_total expected m
          ≡ (result.0, result.1.mem) =
        rw (t1, t2, F.read_lem active firmware_header_size m, t3, t4, whole, t5, same) refl in
      rw reduced run
