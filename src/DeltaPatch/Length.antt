-- ===== src/DeltaPatch/Length.antt =====
-- The length of an image that the replay of a patch finds good.
use secure_boot_loader_with.Base.{
  ℕ, ◌≡◌, arith, Option, none, some, Bool, true, inl, inr, List, [], length, Bool-cases, leb, ltb,
  ◌==◌, ◌||◌, if◌then◌else◌,
}
use secure_boot_loader_with.DeltaPatch.Apply.{
  CompressType, compress_type_no, compress_type_tuz, compress_type_other, PatchLib,
  delta_tuz_dict_max, sub32,
}
use secure_boot_loader_with.DeltaPatch.Replay.{
  Replay, replay, replay_with, replay_opened, replay_sized, replay_patch, replay_kind, replay_all,
}

module _ (old diff : List ℕ) (expected : ℕ) (P : PatchLib) where
  -- A verdict, and the image that was made.
  abbrev HasRightLength : Bool × Replay → Type 0
  HasRightLength t = t.0 ≡ true → length t.1.out ≡ expected

  with-HasRightLength :
      (tuz : Option P.TuzStream) (new_size : ℕ) (r : Replay)
      → HasRightLength (replay_with old diff expected P tuz new_size r)
  unfolding replay_with
  with-HasRightLength tuz new_size r h = ground arith

  opened-HasRightLength :
      (new_size : ℕ) (o : Option P.TuzStream) (r : Replay)
      → HasRightLength (replay_opened old diff expected P new_size (o, r))
  unfolding replay_opened
  opened-HasRightLength new_size none r h = absurd (ground arith)
  opened-HasRightLength new_size (some tuz) r h = with-HasRightLength (some tuz) new_size r h

  sized-HasRightLength :
      (new_size size : ℕ) (r : Replay)
      → HasRightLength (replay_sized old diff expected P new_size (size, r))
  unfolding replay_sized
  sized-HasRightLength new_size size r =
      let dict_size : ℕ = if leb P.tuz_k_max_of_dict_size (sub32 size 1) then 0 else size in
      let (o, r1) = replay old diff expected (P.tuz_tstream_open dict_size) r in
      elim (Bool-cases (dict_size == 0 || ltb delta_tuz_dict_max dict_size)) [
        | inl e ↦ rw e (λ h. absurd (ground arith))
        | inr e ↦ rw e (opened-HasRightLength new_size o r1)
      ]

  patch-HasRightLength :
      (ct : CompressType) (new_size : ℕ) (r : Replay)
      → HasRightLength (replay_patch old diff expected P ct new_size r)
  unfolding replay_patch
  patch-HasRightLength compress_type_no new_size r = with-HasRightLength none new_size r
  patch-HasRightLength compress_type_other new_size r = λ h. absurd (ground arith)
  patch-HasRightLength compress_type_tuz new_size r =
      let (size, r1) = replay old diff expected P.tuz_tstream_read_dict_size r in
      sized-HasRightLength new_size size r1

  kind-HasRightLength :
      (o : Option (CompressType × ℕ)) (r : Replay)
      → HasRightLength (replay_kind old diff expected P (o, r))
  unfolding replay_kind
  kind-HasRightLength none r = λ h. absurd (ground arith)
  kind-HasRightLength (some (ct, new_size)) r = elim (Bool-cases (new_size == expected)) [
    | inl e ↦ rw e (patch-HasRightLength ct new_size r)
    | inr e ↦ rw e (λ h. absurd (ground arith))
  ]

  -- An image that is good has the announced length.
  pub length-replay_all :
      (replay_all old diff expected P).0 ≡ true
      → length (replay_all old diff expected P).1 ≡ expected
  unfolding replay_all
  length-replay_all =
      let (o, r) = replay old diff expected P.hpatch_lite_open (record { pos = 0; out = [] }) in
      kind-HasRightLength o r
