-- ===== src/DeltaPatch/Apply.antt =====
-- `delta_apply_patch` of bootloader/src/delta_patch.c and the glue in
-- bootloader/include/hpatch_decompress_tuz.h. HPatchLite and tinyuz are a parameter: what they do is
-- a sequence of the callbacks that they are given.
use secure_boot_loader_with.Base.{
  ℕ, ◌+◌, ◌-◌, ◌*◌, ◌^◌, Option, none, some, Bool, true, false, List, [], map, ltb, leb, ◌==◌, ◌&&◌,
  ◌||◌, not, if◌then◌else◌, u8, u32, length,
}
use secure_boot_loader_with.MemoryMap.{firmware_magic, firmware_header_size, slot_size}
use secure_boot_loader_with.Flash.{FlashDriver, is_ok}
use secure_boot_loader_with.FirmwareFormat.{FirmwareHeader, header_of}

-- A run of a library: the callbacks that it makes, each with what it does on every answer, up to
-- its result. A read that fails answers `none`.
pub data Run (A : Type 0) : Type 0 where
  done : A → Run A
  read_diff : ℕ → (Option (List ℕ) → Run A) → Run A
  read_old : ℕ → ℕ → (Option (List ℕ) → Run A) → Run A
  write_new : List ℕ → (Bool → Run A) → Run A

-- `hpi_compressType`, of which the code names two.
pub data CompressType : Type 0 where
  compress_type_no compress_type_tuz compress_type_other : CompressType

-- The calls of the libraries. The patch is read directly, or through an open tinyuz stream.
pub record PatchLib : Type 1 where
  pub TuzStream : Type 0
  pub hpatch_lite_open : Run (Option (CompressType × ℕ))
  pub tuz_tstream_read_dict_size : Run ℕ
  pub tuz_k_max_of_dict_size : ℕ
  pub tuz_tstream_open : ℕ → Run (Option TuzStream)
  pub hpatch_lite_patch : Option TuzStream → ℕ → Run Bool

abbrev pub delta_tuz_dict_max : ℕ
delta_tuz_dict_max = 8 * 1024

-- The difference of two `uint32_t`.
abbrev pub sub32 : ℕ → ℕ → ℕ
sub32 a b = u32 (a + 2 ^ 32 - b)

-- `flash_diff_stream_t`.
pub record FlashDiffStream : Type 0 where
  pub base : ℕ
  pub pos : ℕ
  pub len : ℕ

-- `delta_listener_t`, with the stream and the flash behind its callbacks.
pub record DeltaListener (D : FlashDriver) : Type 0 where
  pub active_base : ℕ
  pub inactive_base : ℕ
  pub new_written : ℕ
  pub new_expected : ℕ
  pub active_logical_total : ℕ
  pub stream : FlashDiffStream
  pub mem : D.Mem

module _ (D : FlashDriver) where
  unfoldable pub diff_stream_read : ℕ → DeltaListener D → Option (List ℕ) × DeltaListener D
  diff_stream_read data_size l =
      let s : FlashDiffStream = l.stream in
      let rem : ℕ = sub32 s.len s.pos in
      let want : ℕ = if ltb rem data_size then rem else data_size in
      let (status, bytes) = D.flash_read (u32 (s.base + s.pos)) want l.mem in
      if data_size == 0
      then (some [], l)
      else if want == 0
      then (none, l)
      else if is_ok status
      then (some bytes, record l { stream = record s { pos = u32 (s.pos + want) } })
      else (none, l)

  unfoldable pub read_old_cb : ℕ → ℕ → DeltaListener D → Option (List ℕ)
  read_old_cb read_from_pos data_size l =
      let (status, bytes) = D.flash_read (u32 (l.active_base + read_from_pos)) data_size l.mem in
      if ltb l.active_logical_total read_from_pos
      then none
      else if ltb (l.active_logical_total - read_from_pos) data_size
      then none
      else if is_ok status
      then some bytes
      else none

  -- The library hands over bytes.
  unfoldable pub write_new_cb : List ℕ → DeltaListener D → Bool × DeltaListener D
  write_new_cb bytes l =
      let (status, m) =
        D.flash_program_bytes (u32 (l.inactive_base + l.new_written)) (map u8 bytes) l.mem in
      if ltb (sub32 l.new_expected l.new_written) (length bytes)
      then (false, l)
      else if is_ok status
      then (true, record l { new_written = u32 (l.new_written + length bytes); mem = m })
      else (false, record l { mem = m })

  -- A call of a library, with its callbacks carried out.
  unfoldable pub call : {A : Type 0} → Run A → DeltaListener D → A × DeltaListener D
  call (done a) l = (a, l)
  call (read_diff n k) l = let (answer, l') = diff_stream_read n l in call (k answer) l'
  call (read_old pos n k) l = call (k (read_old_cb pos n l)) l
  call (write_new bytes k) l = let (answer, l') = write_new_cb bytes l in call (k answer) l'

  -- The listener that is set up.
  abbrev pub listener : ℕ → ℕ → ℕ → ℕ → ℕ → D.Mem → DeltaListener D
  listener active_slot_base inactive_slot_base patch_total expected logical_total m = record {
    active_base = active_slot_base;
    inactive_base = inactive_slot_base;
    new_written = 0;
    new_expected = expected;
    active_logical_total = logical_total;
    stream = record {
      base = sub32 (inactive_slot_base + D.flash_ota_slot_span) patch_total;
      pos = 0;
      len = patch_total;
    };
    mem = m;
  }

  module _ (P : PatchLib) where
    unfoldable pub hpatch_tuz_reserved_mem_size : DeltaListener D → ℕ × DeltaListener D
    hpatch_tuz_reserved_mem_size l =
        let (dict_size, l') = call P.tuz_tstream_read_dict_size l in
        (if leb P.tuz_k_max_of_dict_size (sub32 dict_size 1) then 0 else dict_size, l')

    -- The patch itself, from the stream that was set up, and the test of the counters.
    unfoldable pub patch_with : Option P.TuzStream → ℕ → DeltaListener D → Bool × DeltaListener D
    patch_with tuz new_size l =
        let (patched, l') = call (P.hpatch_lite_patch tuz new_size) l in
        (patched && (l'.new_written == l'.new_expected && new_size == l'.new_written), l')

    -- What follows the opening of the decompressor.
    unfoldable pub patch_opened : ℕ → Option P.TuzStream × DeltaListener D → Bool × DeltaListener D
    patch_opened new_size (none, l) = (false, l)
    patch_opened new_size (some tuz, l) = patch_with (some tuz) new_size l

    -- What follows the size of the dictionary.
    unfoldable pub run_sized : ℕ → ℕ × DeltaListener D → Bool × DeltaListener D
    run_sized new_size (dict_size, l) =
        if dict_size == 0 || ltb delta_tuz_dict_max dict_size
        then (false, l)
        else patch_opened new_size (call (P.tuz_tstream_open dict_size) l)

    unfoldable pub delta_run_patch : CompressType → ℕ → DeltaListener D → Bool × DeltaListener D
    delta_run_patch compress_type_tuz new_size l =
        run_sized new_size (hpatch_tuz_reserved_mem_size l)
    delta_run_patch compress_type_no new_size l = patch_with none new_size l
    delta_run_patch compress_type_other new_size l = (false, l)

    -- What follows the opening of the patch.
    unfoldable pub run_opened :
        ℕ → Option (CompressType × ℕ) × DeltaListener D → Bool × DeltaListener D
    run_opened expected (none, l) = (false, l)
    run_opened expected (some (ct, new_size), l) =
        if new_size == expected then delta_run_patch ct new_size l else (false, l)

    unfoldable pub delta_apply_patch : ℕ → ℕ → ℕ → ℕ → D.Mem → Bool × D.Mem
    delta_apply_patch active_slot_base inactive_slot_base patch_total expected_new_total m =
        let (status, bytes) = D.flash_read active_slot_base firmware_header_size m in
        let active_hdr : FirmwareHeader = header_of bytes in
        let logical_total : ℕ = u32 (firmware_header_size + active_hdr.image_size) in
        let start : DeltaListener D =
          listener active_slot_base inactive_slot_base patch_total expected_new_total logical_total
            m in
        let (result, l) = run_opened expected_new_total (call P.hpatch_lite_open start) in
        if patch_total == 0 || expected_new_total == 0
        then (false, m)
        else if ltb D.flash_ota_slot_span (u32 (expected_new_total + patch_total))
        then (false, m)
        else if is_ok status
            && (active_hdr.magic == firmware_magic && not (active_hdr.image_size == 0))
        then if ltb slot_size logical_total then (false, m) else (result, l.mem)
        else (false, m)
