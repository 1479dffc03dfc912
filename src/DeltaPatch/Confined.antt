-- ===== src/DeltaPatch/Confined.antt =====
-- Where the application of a patch may write: bootloader/src/delta_patch.c.
use secure_boot_loader_with.Base.{
  ℕ, suc, ◌+◌, ◌^◌, ◌≤◌, ◌<◌, ◌≡◌, ◌⊎◌, inl, inr, refl, ap, ◌∙◌, List, [], ◌∷◌, map, Option, none,
  some, Bool-cases, arith, u8, u32, length, ltb, ◌==◌, ◌||◌,
}
use secure_boot_loader_with.MemoryMap.{firmware_header_size}
use secure_boot_loader_with.Flash.{FlashDriver, IsFlash}
use secure_boot_loader_with.FirmwareFormat.{header_of}
use secure_boot_loader_with.DeltaPatch.Apply.{
  Run, done, read_diff, read_old, write_new, CompressType, compress_type_no, compress_type_tuz,
  compress_type_other, PatchLib, DeltaListener, diff_stream_read, read_old_cb, write_new_cb, call,
  hpatch_tuz_reserved_mem_size, patch_with, patch_opened, delta_run_patch, run_sized, run_opened,
  delta_tuz_dict_max, listener, delta_apply_patch,
}

same_length : (bs : List ℕ) → length (map u8 bs) ≡ length bs
same_length [] = refl
same_length (b ∷ bs) = ap suc (same_length bs)

module _ (D : FlashDriver) where
  -- The output fits, and so far no more than that was written.
  pub record RoomLeft (l : DeltaListener D) : Type 0 where
    pub room : l.inactive_base + l.new_expected < 2 ^ 32
    pub progress : l.new_written ≤ l.new_expected

  -- From one state to a later one only the output changed.
  pub record ChangesOutput (l l' : DeltaListener D) : Type 0 where
    pub same_base : l'.inactive_base ≡ l.inactive_base
    pub same_expected : l'.new_expected ≡ l.new_expected
    pub bytes :
        (x : ℕ)
        → (x < l.inactive_base) ⊎ (l.inactive_base + l.new_expected ≤ x)
        → D.byte_at l'.mem x ≡ D.byte_at l.mem x

  OnlyOutput-trans :
      (l m n : DeltaListener D) → ChangesOutput l m → ChangesOutput m n → ChangesOutput l n
  OnlyOutput-trans l m n p q = record {
    same_base = q.same_base ∙ p.same_base;
    same_expected = q.same_expected ∙ p.same_expected;
    bytes = λ x o. q.bytes x (ground (arith, p.same_base, p.same_expected)) ∙ p.bytes x o;
  }

  OnlyOutput-refl : (l : DeltaListener D) → ChangesOutput l l
  OnlyOutput-refl l = record { same_base = refl; same_expected = refl; bytes = λ x o. refl }

  -- The two together.
  abbrev pub StaysInside : DeltaListener D → DeltaListener D → Type 0
  StaysInside l l' = RoomLeft l' × ChangesOutput l l'

  Confined-trans : (l m n : DeltaListener D) → ChangesOutput l m → StaysInside m n → StaysInside l n
  Confined-trans l m n p (i, q) = (i, OnlyOutput-trans l m n p q)

  diff-confined :
      (n : ℕ) (l : DeltaListener D) → RoomLeft l → StaysInside l (diff_stream_read D n l).1
  unfolding diff_stream_read
  diff-confined n l i = (
    record { room = ground (arith, i.room); progress = ground (arith, i.progress) },
    record { same_base = ground arith; same_expected = ground arith; bytes = λ x o. ground arith },
  )

  module _ (F : IsFlash D) where
    write-confined :
        (bs : List ℕ) (l : DeltaListener D) → RoomLeft l → StaysInside l (write_new_cb D bs l).1
    unfolding write_new_cb
    write-confined bs l i = (
      record { room = ground (arith, i.room); progress = ground (arith, i.progress, i.room) },
      record {
        same_base = ground arith;
        same_expected = ground arith;
        bytes = λ x o. ground (
          arith,
          i.room,
          i.progress,
          same_length bs,
          F.program_bytes-outside (u32 (l.inactive_base + l.new_written)) (map u8 bs) l.mem x,
        );
      },
    )

    -- Whatever a library does with its callbacks, it changes only the output.
    call-confined :
        {A : Type 0} (r : Run A) (l : DeltaListener D) → RoomLeft l → StaysInside l (call D r l).1
    unfolding call
    call-confined (done a) l i = (i, OnlyOutput-refl l)
    call-confined (read_diff n k) l i =
        let (i', o) = diff-confined n l i in
        Confined-trans l (diff_stream_read D n l).1 _ o
          (call-confined (k (diff_stream_read D n l).0) (diff_stream_read D n l).1 i')
    call-confined (read_old pos n k) l i = call-confined (k (read_old_cb D pos n l)) l i
    call-confined (write_new bs k) l i =
        let (i', o) = write-confined bs l i in
        Confined-trans l (write_new_cb D bs l).1 _ o
          (call-confined (k (write_new_cb D bs l).0) (write_new_cb D bs l).1 i')

    module _ (P : PatchLib) where
      patch_with-confined :
          (tuz : Option P.TuzStream) (new_size : ℕ) (l : DeltaListener D)
          → RoomLeft l
          → StaysInside l (patch_with D P tuz new_size l).1
      unfolding patch_with
      patch_with-confined tuz new_size l i = call-confined (P.hpatch_lite_patch tuz new_size) l i

      patch_opened-confined :
          (new_size : ℕ) (o : Option P.TuzStream) (l : DeltaListener D)
          → RoomLeft l
          → StaysInside l (patch_opened D P new_size (o, l)).1
      unfolding patch_opened
      patch_opened-confined new_size none l i = (i, OnlyOutput-refl l)
      patch_opened-confined new_size (some tuz) l i = patch_with-confined (some tuz) new_size l i

      run_sized-confined :
          (new_size dict_size : ℕ) (l : DeltaListener D)
          → RoomLeft l
          → StaysInside l (run_sized D P new_size (dict_size, l)).1
      unfolding run_sized
      run_sized-confined new_size dict_size l i =
          let (o, l') = call D (P.tuz_tstream_open dict_size) l in
          let (i', q) = call-confined (P.tuz_tstream_open dict_size) l i in
          elim (Bool-cases (dict_size == 0 || ltb delta_tuz_dict_max dict_size)) [
            | inl e ↦ rw e (i, OnlyOutput-refl l)
            | inr e ↦ rw e (Confined-trans l l' _ q (patch_opened-confined new_size o l' i'))
          ]

      run_patch-confined :
          (ct : CompressType) (new_size : ℕ) (l : DeltaListener D)
          → RoomLeft l
          → StaysInside l (delta_run_patch D P ct new_size l).1
      unfolding delta_run_patch hpatch_tuz_reserved_mem_size
      run_patch-confined compress_type_no new_size l i = patch_with-confined none new_size l i
      run_patch-confined compress_type_other new_size l i = (i, OnlyOutput-refl l)
      run_patch-confined compress_type_tuz new_size l i =
          let (i', q) = call-confined P.tuz_tstream_read_dict_size l i in
          Confined-trans l (call D P.tuz_tstream_read_dict_size l).1 _ q
            (run_sized-confined new_size _ (call D P.tuz_tstream_read_dict_size l).1 i')

      run_opened-confined :
          (expected : ℕ) (o : Option (CompressType × ℕ)) (l : DeltaListener D)
          → RoomLeft l
          → StaysInside l (run_opened D P expected (o, l)).1
      unfolding run_opened
      run_opened-confined expected none l i = (i, OnlyOutput-refl l)
      run_opened-confined expected (some (ct, new_size)) l i =
          elim (Bool-cases (new_size == expected)) [
            | inl e ↦ rw e (run_patch-confined ct new_size l i)
            | inr e ↦ rw e (i, OnlyOutput-refl l)
          ]

      -- Whatever the libraries do with a patch, its application changes only the bytes of the new
      -- image at the beginning of the inactive slot.
      pub apply_patch_confined :
          (active inactive patch_total expected : ℕ) (m : D.Mem) (x : ℕ)
          → inactive + expected < 2 ^ 32
          → (x < inactive) ⊎ (inactive + expected ≤ x)
          → D.byte_at (delta_apply_patch D P active inactive patch_total expected m).1 x
            ≡ D.byte_at m x
      unfolding delta_apply_patch
      apply_patch_confined active inactive patch_total expected m x room o =
          let total : ℕ = u32 (
            firmware_header_size
            + (header_of (D.flash_read active firmware_header_size m).1).image_size) in
          let start : DeltaListener D = listener D active inactive patch_total expected total m in
          let (o', l) = call D P.hpatch_lite_open start in
          let (i, q) =
            call-confined P.hpatch_lite_open start
              (record { room = room; progress = omega arith }) in
          let (i', q') = run_opened-confined expected o' l i in
          let r = OnlyOutput-trans start l (run_opened D P expected (o', l)).1 q q' in
          ground (arith, r.bytes x o)
