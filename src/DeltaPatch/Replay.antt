-- ===== src/DeltaPatch/Replay.antt =====
-- What the application of a patch in bootloader/src/delta_patch.c is meant to compute, without a flash:
-- the callbacks of the libraries on the old image, the patch and the new image as lists of bytes.
use secure_boot_loader_with.Base.{
  ℕ, ◌+◌, ◌-◌, Option, none, some, Bool, true, false, List, [], ◌++◌, map, ltb, leb, ◌==◌, ◌&&◌,
  ◌||◌, if◌then◌else◌, u8, length, take, drop,
}
use secure_boot_loader_with.DeltaPatch.Apply.{
  Run, done, read_diff, read_old, write_new, CompressType, compress_type_no, compress_type_tuz,
  compress_type_other, PatchLib, delta_tuz_dict_max, sub32,
}

-- How far the patch was read, and the new image so far.
pub record Replay : Type 0 where
  pub pos : ℕ
  pub out : List ℕ

module _ (old diff : List ℕ) (expected : ℕ) where
  -- The next bytes of the patch, at most as many as are left; none at its end.
  unfoldable pub next_diff : ℕ → Replay → Option (List ℕ) × Replay
  next_diff n r =
      let left : ℕ = length diff - r.pos in
      let want : ℕ = if ltb left n then left else n in
      if n == 0
      then (some [], r)
      else if want == 0
      then (none, r)
      else (some (take want (drop r.pos diff)), record r { pos = r.pos + want })

  -- Bytes of the old image, if they are all inside it.
  unfoldable pub old_bytes : ℕ → ℕ → Option (List ℕ)
  old_bytes pos n =
      if ltb (length old) pos
      then none
      else if ltb (length old - pos) n
      then none
      else some (take n (drop pos old))

  -- Bytes behind the new image, if they fit.
  unfoldable pub append_new : List ℕ → Replay → Bool × Replay
  append_new bytes r =
      if ltb (expected - length r.out) (length bytes)
      then (false, r)
      else (true, record r { out = r.out ++ map u8 bytes })

  unfoldable pub replay : {A : Type 0} → Run A → Replay → A × Replay
  replay (done a) r = (a, r)
  replay (read_diff n k) r = let (answer, r') = next_diff n r in replay (k answer) r'
  replay (read_old pos n k) r = replay (k (old_bytes pos n)) r
  replay (write_new bytes k) r = let (answer, r') = append_new bytes r in replay (k answer) r'

  module _ (P : PatchLib) where
    unfoldable pub replay_with : Option P.TuzStream → ℕ → Replay → Bool × Replay
    replay_with tuz new_size r =
        let (patched, r') = replay (P.hpatch_lite_patch tuz new_size) r in
        (patched && (length r'.out == expected && new_size == length r'.out), r')

    unfoldable pub replay_opened : ℕ → Option P.TuzStream × Replay → Bool × Replay
    replay_opened new_size (none, r) = (false, r)
    replay_opened new_size (some tuz, r) = replay_with (some tuz) new_size r

    unfoldable pub replay_sized : ℕ → ℕ × Replay → Bool × Replay
    replay_sized new_size (size, r) =
        let dict_size : ℕ = if leb P.tuz_k_max_of_dict_size (sub32 size 1) then 0 else size in
        if dict_size == 0 || ltb delta_tuz_dict_max dict_size
        then (false, r)
        else replay_opened new_size (replay (P.tuz_tstream_open dict_size) r)

    unfoldable pub replay_patch : CompressType → ℕ → Replay → Bool × Replay
    replay_patch compress_type_tuz new_size r =
        replay_sized new_size (replay P.tuz_tstream_read_dict_size r)
    replay_patch compress_type_no new_size r = replay_with none new_size r
    replay_patch compress_type_other new_size r = (false, r)

    unfoldable pub replay_kind : Option (CompressType × ℕ) × Replay → Bool × Replay
    replay_kind (none, r) = (false, r)
    replay_kind (some (ct, new_size), r) =
        if new_size == expected then replay_patch ct new_size r else (false, r)

    -- Whether the patch is good, and the image that it makes.
    unfoldable pub replay_all : Bool × List ℕ
    replay_all =
        let (good, r) = replay_kind (replay P.hpatch_lite_open (record { pos = 0; out = [] })) in
        (good, r.out)
