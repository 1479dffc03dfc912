-- ===== src/DeltaPatch/Refine.antt =====
-- The application of a patch in bootloader/src/delta_patch.c does on the flash what the replay does on
-- lists.
use mathlib.Core.Path.{ap₂}
use secure_boot_loader_with.Base.{
  ℕ, ◌+◌, ◌-◌, ◌^◌, ◌≤◌, ◌<◌, ◌≡◌, ◌⊎◌, inl, inr, refl, ap, ◌∙◌, sym, List, [], ◌∷◌, ◌++◌, map,
  some, Bool-cases, arith, u8, u32, length, ltb, ◌==◌, if◌then◌else◌, take, drop, length-append,
  length-map, IsBytes,
}
use secure_boot_loader_with.Flash.{FlashDriver, IsFlash, ok, bytes_from}
use secure_boot_loader_with.Flash.Bytes.{bytes_from-add, bytes_from-eq, length-bytes_from}
use secure_boot_loader_with.DeltaPatch.Apply.{
  Run, done, read_diff, read_old, write_new, DeltaListener, sub32, diff_stream_read, read_old_cb,
  write_new_cb, call,
}
use secure_boot_loader_with.DeltaPatch.Replay.{Replay, next_diff, old_bytes, append_new, replay}

drop_front : (xs ys : List ℕ) → drop (length xs) (xs ++ ys) ≡ ys
drop_front [] ys = refl
drop_front (x ∷ xs) ys = drop_front xs ys

take_front : (xs ys : List ℕ) → take (length xs) (xs ++ ys) ≡ xs
take_front [] ys = refl
take_front (x ∷ xs) ys = ap (λ (t : List ℕ). x ∷ t) (take_front xs ys)

-- A part of a run of bytes in memory.
pub bytes_from-slice :
    (f : ℕ → ℕ) (a total k n : ℕ)
    → k + n ≤ total
    → bytes_from f (a + k) n ≡ take n (drop k (bytes_from f a total))
bytes_from-slice f a total k n fits =
    let rest : ℕ = total - (k + n) in
    let whole = bytes_from-add f a k (n + rest) total (omega arith) in
    let tail = bytes_from-add f (a + k) n rest (n + rest) refl in
    sym (
      ap (λ (t : List ℕ). take n (drop k t)) whole
      ∙ ap (λ (j : ℕ). take n (drop j (bytes_from f a k ++ bytes_from f (a + k) (n + rest))))
          {x = k} {y = length (bytes_from f a k)} (sym (length-bytes_from f a k))
      ∙ ap (λ (t : List ℕ). take n t)
          (drop_front (bytes_from f a k) (bytes_from f (a + k) (n + rest)) ∙ tail)
      ∙ ap (λ (j : ℕ). take j (bytes_from f (a + k) n ++ bytes_from f (a + k + n) rest)) {x = n}
          {y = length (bytes_from f (a + k) n)} (sym (length-bytes_from f (a + k) n))
      ∙ take_front (bytes_from f (a + k) n) (bytes_from f (a + k + n) rest))

-- Where the old image, the new one and the patch stand: none of them meets another.
pub record Layout (active inactive tail expected : ℕ) (old diff : List ℕ) : Type 0 where
  pub old_room : active + length old < 2 ^ 32
  pub new_room : inactive + expected ≤ tail
  pub diff_room : tail + length diff < 2 ^ 32
  pub apart : (active + length old ≤ inactive) ⊎ (inactive + expected ≤ active)

module _ (D : FlashDriver) (F : IsFlash D) (active inactive tail expected : ℕ) (old diff : List ℕ)
    (L : Layout active inactive tail expected old diff)
    (programs : (a : ℕ) (bs : List ℕ) (m : D.Mem)
      → inactive ≤ a
      → a + length bs ≤ inactive + expected
      → IsBytes bs
      → (D.flash_program_bytes a bs m).0 ≡ ok) where
  -- The listener at a point of the replay.
  abbrev pub at : Replay → D.Mem → DeltaListener D
  at r m = record {
    active_base = active;
    inactive_base = inactive;
    new_written = length r.out;
    new_expected = expected;
    active_logical_total = length old;
    stream = record { base = tail; pos = r.pos; len = length diff };
    mem = m;
  }

  -- The flash holds the old image, the patch, and the new image so far.
  pub record Holds (r : Replay) (m : D.Mem) : Type 0 where
    pub fits : length r.out ≤ expected
    pub read : r.pos ≤ length diff
    pub old_is : bytes_from (D.byte_at m) active (length old) ≡ old
    pub diff_is : bytes_from (D.byte_at m) tail (length diff) ≡ diff
    pub out_is : bytes_from (D.byte_at m) inactive (length r.out) ≡ r.out

  -- A step that answers, and leaves the listener at the next point.
  abbrev pub Matches : {A : Type 0} → A × DeltaListener D → A × Replay → Type 0
  Matches {A} s t = (m' : D.Mem) × (◌≡◌ {A = A × DeltaListener D} s (t.0, at t.1 m')) × Holds t.1 m'

  diff-Matches :
      (n : ℕ) (r : Replay) (m : D.Mem)
      → Holds r m
      → Matches (diff_stream_read D n (at r m)) (next_diff old diff expected n r)
  unfolding diff_stream_read next_diff
  diff-Matches n r m h =
      let left : ℕ = length diff - r.pos in
      let want : ℕ = if ltb left n then left else n in
      let rem : sub32 (length diff) r.pos ≡ left = omega (arith, h.read, L.diff_room) in
      let small : want ≤ left = ground arith in
      let base : u32 (tail + r.pos) ≡ tail + r.pos = omega (arith, h.read, L.diff_room) in
      let slice : bytes_from (D.byte_at m) (tail + r.pos) want ≡ take want (drop r.pos diff) =
        bytes_from-slice (D.byte_at m) tail (length diff) r.pos want (omega (arith, small, h.read))
        ∙ ap (λ (t : List ℕ). take want (drop r.pos t)) h.diff_is in
      let next : u32 (r.pos + want) ≡ r.pos + want = omega (arith, small, h.read, L.diff_room) in
      let further : Holds (record r { pos = r.pos + want }) m = record {
        fits = h.fits;
        read = omega (arith, small, h.read);
        old_is = h.old_is;
        diff_is = h.diff_is;
        out_is = h.out_is;
      } in
      elim (Bool-cases (n == 0)) [
        | inl e ↦ rw e (m, refl, h)
        | inr e ↦ elim (Bool-cases (want == 0)) [
          | inl w ↦ rw (rem, e, w) (m, refl, h)
          | inr w ↦
              rw (rem, e, w, base, F.read_lem (tail + r.pos) want m, slice, next) (m, refl, further)
        ]
      ]

  old_matches :
      (pos n : ℕ) (r : Replay) (m : D.Mem)
      → Holds r m
      → read_old_cb D pos n (at r m) ≡ old_bytes old diff expected pos n
  unfolding read_old_cb old_bytes
  old_matches pos n r m h = elim (Bool-cases (ltb (length old) pos)) [
    | inl e ↦ rw e refl
    | inr e ↦ elim (Bool-cases (ltb (length old - pos) n)) [
      | inl e' ↦ rw (e, e') refl
      | inr e' ↦
          let inside : pos + n ≤ length old = ground (arith, e, e') in
          let base : u32 (active + pos) ≡ active + pos = omega (arith, inside, L.old_room) in
          rw (e, e', base, F.read_lem (active + pos) n m)
            (ap some (
              bytes_from-slice (D.byte_at m) active (length old) pos n inside
              ∙ ap (λ (t : List ℕ). take n (drop pos t)) h.old_is))
    ]
  ]

  map-u8-IsBytes : (bs : List ℕ) → IsBytes (map u8 bs)
  map-u8-IsBytes [] = tt
  map-u8-IsBytes (b ∷ bs) = (omega arith, map-u8-IsBytes bs)

  write-Matches :
      (bs : List ℕ) (r : Replay) (m : D.Mem)
      → Holds r m
      → Matches (write_new_cb D bs (at r m)) (append_new old diff expected bs r)
  unfolding write_new_cb append_new
  write-Matches bs r m h =
      let w : ℕ = length r.out in
      let len : length (map u8 bs) ≡ length bs = length-map bs u8 in
      let room : sub32 expected w ≡ expected - w = omega (arith, h.fits, L.new_room, L.diff_room) in
      elim (Bool-cases (ltb (expected - w) (length bs))) [
        | inl e ↦ rw (room, e) (m, refl, h)
        | inr e ↦
            let fit : w + length bs ≤ expected = ground (arith, e, h.fits) in
            let base : u32 (inactive + w) ≡ inactive + w =
              omega (arith, fit, L.new_room, L.diff_room) in
            let next : u32 (w + length bs) ≡ w + length bs =
              omega (arith, fit, L.new_room, L.diff_room) in
            let m' : D.Mem = (D.flash_program_bytes (inactive + w) (map u8 bs) m).1 in
            let done_ok =
              programs (inactive + w) (map u8 bs) m (omega arith) (omega (arith, fit, len))
                (map-u8-IsBytes bs) in
            let count : length (r.out ++ map u8 bs) ≡ w + length bs =
              length-append r.out (map u8 bs) ∙ omega (arith, len) in
            let same = λ (x : ℕ) (o : (x < inactive + w) ⊎ (inactive + w + length bs ≤ x)).
              F.program_bytes-outside (inactive + w) (map u8 bs) m x
                (omega (arith, fit, len, L.new_room, L.diff_room)) (ground (arith, o, len)) in
            let stored : bytes_from (D.byte_at m') (inactive + w) (length bs) ≡ map u8 bs =
              ap (λ (k : ℕ). bytes_from (D.byte_at m') (inactive + w) k) (sym len)
              ∙ F.program_bytes-ok (inactive + w) (map u8 bs) m
                  (omega (arith, fit, len, L.new_room, L.diff_room)) done_ok (map-u8-IsBytes bs) in
            let more : Holds (record r { out = r.out ++ map u8 bs }) m' = record {
              fits = omega (arith, count, fit);
              read = h.read;
              old_is =
                  bytes_from-eq (D.byte_at m') (D.byte_at m) active (length old)
                    (omega (arith, L.old_room))
                    (λ x lo hi. same x (ground (arith, L.apart, fit, lo, hi)))
                  ∙ h.old_is;
              diff_is =
                  bytes_from-eq (D.byte_at m') (D.byte_at m) tail (length diff)
                    (omega (arith, L.diff_room))
                    (λ x lo hi. same x (inr (omega (arith, L.new_room, fit, lo))))
                  ∙ h.diff_is;
              out_is =
                  ap (λ (k : ℕ). bytes_from (D.byte_at m') inactive k) count
                  ∙ bytes_from-add (D.byte_at m') inactive w (length bs) (w + length bs) refl
                  ∙ ap₂ ◌++◌
                      (bytes_from-eq (D.byte_at m') (D.byte_at m) inactive w
                          (omega (arith, fit, L.new_room, L.diff_room))
                          (λ x lo hi. same x (inl (omega (arith, hi))))
                        ∙ h.out_is)
                      stored;
            } in
            rw (room, e, base, done_ok, next, sym count) (m', refl, more)
      ]

  -- Whatever a library asks for, the callbacks answer as the replay does.
  pub call-Matches :
      {A : Type 0} (run : Run A) (r : Replay) (m : D.Mem)
      → Holds r m
      → Matches (call D run (at r m)) (replay old diff expected run r)
  unfolding call replay
  call-Matches (done a) r m h = (m, refl, h)
  call-Matches (read_old pos n k) r m h =
      rw (old_matches pos n r m h) (call-Matches (k (old_bytes old diff expected pos n)) r m h)
  call-Matches (read_diff n k) r m h =
      let (m1, e, h1) = diff-Matches n r m h in
      let (ans, r1) = next_diff old diff expected n r in rw e (call-Matches (k ans) r1 m1 h1)
  call-Matches (write_new bs k) r m h =
      let (m1, e, h1) = write-Matches bs r m h in
      let (ans, r1) = append_new old diff expected bs r in rw e (call-Matches (k ans) r1 m1 h1)
