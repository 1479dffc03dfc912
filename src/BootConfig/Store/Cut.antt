-- ===== src/BootConfig/Store/Cut.antt =====
-- `boot_config_save` of bootloader/src/boot_config.c when the power goes in the middle: a driver that
-- programs only so many bytes more, and what the next boot finds.
use secure_boot_loader_with.Base.{
  ℕ, zero, suc, ◌+◌, ◌-◌, ◌<◌, ◌≤◌, ◌≡◌, ◌⊎◌, inl, inr, refl, ap, List, [], ◌∷◌, ◌++◌, ◌∙◌, sym,
  dec_lt, ltb, le32, take-append_le, length-take, IsBytes, length, take, replicate, arith, true,
  false, Bool-cases, if◌then◌else◌, lt→ltb,
}
use mathlib.Core.Path.{ap₂}
use secure_boot_loader_with.MemoryMap.{boot_config_addr, boot_config_magic}
use secure_boot_loader_with.Flash.{FlashDriver, IsFlash, ok, err_prog, bytes_from}
use secure_boot_loader_with.Flash.Bytes.{bytes_from-add, bytes_from-eq, bytes_from-replicate}
use secure_boot_loader_with.Flash.Sectors.{flash_sector_start, sector_index_for_addr}
use secure_boot_loader_with.Crypto.{Ecc}
use secure_boot_loader_with.BootConfig.{
  BootConfig, IsRecord, body, bytes_of, of_bytes, boot_config_stamp_crc, boot_config_validate,
}
use secure_boot_loader_with.BootConfig.Bytes.{
  body-IsBytes, stamp_crc-IsRecord, stamp_crc-validate, of_bytes-bytes_of,
}
use secure_boot_loader_with.BootConfig.Store.{
  save_readback, save_crc, save_body, boot_config_save, boot_config_load,
}
use secure_boot_loader_with.BootConfig.Store.Success.{record_stored}
use secure_boot_loader_with.BootConfig.Torn.{torn, torn_write_atomic}

-- The driver on a flash whose power goes after a number of programmed bytes: what is programmed
-- behind them is lost, and reported as an error.
abbrev pub cut_driver : FlashDriver → FlashDriver
cut_driver D = record {
  Mem = D.Mem × ℕ;
  byte_at = λ m x. D.byte_at m.0 x;
  bus_at = λ m x. D.bus_at m.0 x;
  flash_init = λ m. (D.flash_init m.0, m.1);
  flash_read = λ a n m. D.flash_read a n m.0;
  flash_erase_range = λ a n m. let (s, m') = D.flash_erase_range a n m.0 in (s, (m', m.1));
  flash_program_word = λ a w m.
      if ltb m.1 4
      then (err_prog, ((D.flash_program_bytes a (take m.1 (le32 w)) m.0).1, 0))
      else (let (s, m') = D.flash_program_word a w m.0 in (s, (m', m.1 - 4)));
  flash_program_bytes = λ a bs m.
      if ltb m.1 (length bs)
      then (err_prog, ((D.flash_program_bytes a (take m.1 bs) m.0).1, 0))
      else (let (s, m') = D.flash_program_bytes a bs m.0 in (s, (m', m.1 - length bs)));
  flash_ota_slot_span = D.flash_ota_slot_span;
}

IsBytes-take : (k : ℕ) (xs : List ℕ) → IsBytes xs → IsBytes (take k xs)
IsBytes-take zero xs h = tt
IsBytes-take (suc k) [] h = tt
IsBytes-take (suc k) (x ∷ xs) h = (h.0, IsBytes-take k xs h.1)

module _ (D : FlashDriver) (F : IsFlash D) where
  -- Bytes that are programmed behind a run, in front of erased ones.
  fill :
      (w : ℕ) (xs bs : List ℕ) (n : D.Mem)
      → w + length bs ≤ 24
      → ((x : ℕ) → boot_config_addr + w ≤ x → x < boot_config_addr + 24 → D.byte_at n x ≡ 0xFF)
      → bytes_from (D.byte_at n) boot_config_addr w ≡ xs
      → IsBytes bs
      → (D.flash_program_bytes (boot_config_addr + w) bs n).0 ≡ ok
      → bytes_from
          (D.byte_at (D.flash_program_bytes (boot_config_addr + w) bs n).1)
          boot_config_addr
          24
        ≡ xs ++ (bs ++ replicate (24 - (w + length bs)) 0xFF)
  fill w xs bs n room blank before bytes done =
      bytes_from-add (D.byte_at after) boot_config_addr w (24 - w) 24 (omega arith)
      ∙ ap₂ ◌++◌
          (bytes_from-eq (D.byte_at after) (D.byte_at n) boot_config_addr w (omega arith) (λ x p q.
              F.program_bytes-outside (boot_config_addr + w) bs n x (omega arith)
                (inl (omega arith)))
            ∙ before)
          (bytes_from-add (D.byte_at after) (boot_config_addr + w) (length bs)
              (24 - (w + length bs)) (24 - w) (omega arith)
            ∙ ap₂ ◌++◌ (F.program_bytes-ok (boot_config_addr + w) bs n (omega arith) done bytes) (
                bytes_from-replicate (D.byte_at after) (boot_config_addr + w + length bs)
                  (24 - (w + length bs)) 0xFF (omega arith)
                  (λ x p q.
                    F.program_bytes-outside (boot_config_addr + w) bs n x (omega arith)
                      (inr (omega arith))
                    ∙ blank x (omega arith) (omega arith))))
    where
      after : D.Mem
      after = (D.flash_program_bytes (boot_config_addr + w) bs n).1

  module _ (buf : BootConfig) (r : IsRecord buf) (k : ℕ) (n : D.Mem)
      (blank : (x : ℕ) → boot_config_addr ≤ x → x < boot_config_addr + 24 → D.byte_at n x ≡ 0xFF)
      (programs : (a : ℕ) (bs : List ℕ) (t : D.Mem)
        → boot_config_addr ≤ a
        → a + length bs ≤ boot_config_addr + 24
        → IsBytes bs
        → (D.flash_program_bytes a bs t).0 ≡ ok)
      (word_programs : (t : D.Mem)
        → (D.flash_program_word (boot_config_addr + 20) buf.crc32 t).0 ≡ ok) where
    -- What stands in the place of the record.
    abbrev cut_record : D.Mem × ℕ → List ℕ
    cut_record m = bytes_from (D.byte_at m.0) boot_config_addr 24

    abbrev n1 : D.Mem
    n1 = (D.flash_program_bytes boot_config_addr (body buf) n).1

    -- The power goes in the body.
    cut_early : k < 20 → cut_record (save_body (cut_driver D) buf true (n, k)).1 ≡ torn buf k
    unfolding save_body save_crc
    cut_early h =
        let len : length (take k (body buf)) ≡ k = omega (arith, length-take k (body buf)) in
        let len0 : 0 + length (take k (body buf)) ≡ k = omega (arith, len) in
        let part =
          fill 0 [] (take k (body buf)) n (omega (arith, len)) (λ x p q. blank x (omega arith) q)
            (unfold bytes_from in refl) (IsBytes-take k (body buf) (body-IsBytes buf r))
            (programs boot_config_addr (take k (body buf)) n (omega arith) (omega (arith, len))
              (IsBytes-take k (body buf) (body-IsBytes buf r))) in
        rw (lt→ltb k 20 h) (
          part
          ∙ ap₂ (λ (xs : List ℕ) (t : ℕ). xs ++ replicate (24 - t) 0xFF)
              (sym (take-append_le k (body buf) (le32 buf.crc32) (omega arith))) len0)

    body_stored :
        (bytes_from (D.byte_at n1) boot_config_addr 20 ≡ body buf)
        × ((D.flash_program_bytes boot_config_addr (body buf) n).0 ≡ ok)
    body_stored =
        let done =
          programs boot_config_addr (body buf) n (omega arith) (omega arith) (body-IsBytes buf r) in
        (
          F.program_bytes-ok boot_config_addr (body buf) n (omega arith) done (body-IsBytes buf r),
          done,
        )

    -- The power goes in the checksum.
    late_torn :
        (t : ℕ)
        → t < 4
        → body buf ++ (take t (le32 buf.crc32) ++ replicate (24 - (20 + t)) 0xFF)
          ≡ torn buf (20 + t)
    late_torn zero h = refl
    late_torn (suc zero) h = refl
    late_torn (suc (suc zero)) h = refl
    late_torn (suc (suc (suc zero))) h = refl
    late_torn (suc (suc (suc (suc t)))) h = absurd (omega arith)

    cut_late :
        20 ≤ k → k < 24 → cut_record (save_body (cut_driver D) buf true (n, k)).1 ≡ torn buf k
    unfolding save_body save_crc save_readback
    cut_late p q =
        let t : ℕ = k - 20 in
        let (stored, done) = body_stored in
        let len : length (take t (le32 buf.crc32)) ≡ t =
          omega (arith, length-take t (le32 buf.crc32)) in
        let bytes : IsBytes (take t (le32 buf.crc32)) =
          IsBytes-take t (le32 buf.crc32) (omega arith) in
        let whole : ltb k 20 ≡ false = ground arith in
        let short : ltb t 4 ≡ true = ground arith in
        let part =
          fill 20 (body buf) (take t (le32 buf.crc32)) n1 (omega (arith, len))
            (λ x lo hi.
              F.program_bytes-outside boot_config_addr (body buf) n x (omega arith)
                (inr (omega arith))
              ∙ blank x (omega arith) hi)
            stored bytes
            (programs (boot_config_addr + 20) (take t (le32 buf.crc32)) n1 (omega arith)
              (omega (arith, len)) bytes) in
        rw (whole, done, short)
          (part
            ∙ ap
                (λ (l : ℕ). body buf ++ (take t (le32 buf.crc32) ++ replicate (24 - (20 + l)) 0xFF))
                len
            ∙ late_torn t (omega arith)
            ∙ ap (λ (l : ℕ). torn buf l) {x = 20 + t} {y = k} (omega arith))

    -- The power holds.
    uncut : 24 ≤ k → cut_record (save_body (cut_driver D) buf true (n, k)).1 ≡ bytes_of buf
    unfolding save_body save_crc save_readback
    uncut p =
        let (_, done) = body_stored in
        let whole : ltb k 20 ≡ false = ground arith in
        let all : ltb (k - 20) 4 ≡ false = ground arith in
        rw (whole, done, all, word_programs n1) (record_stored D F buf n r done (word_programs n1))

    -- The first `k` bytes stand and the rest is erased, or the record is whole.
    cut_bytes :
        ((k < 24) × (cut_record (save_body (cut_driver D) buf true (n, k)).1 ≡ torn buf k))
        ⊎ (cut_record (save_body (cut_driver D) buf true (n, k)).1 ≡ bytes_of buf)
    cut_bytes = elim (dec_lt k 24) [
      | no q ↦ inr (uncut (omega arith))
      | yes q ↦
          inl (q, elim (dec_lt k 20) [ yes p ↦ cut_early p | no p ↦ cut_late (omega arith) q ])
    ]

  erased :
      (m : D.Mem) (x : ℕ)
      → (D.flash_erase_range boot_config_addr 24 m).0 ≡ ok
      → boot_config_addr ≤ x
      → x < boot_config_addr + 24
      → D.byte_at (D.flash_erase_range boot_config_addr 24 m).1 x ≡ 0xFF
  unfolding flash_sector_start sector_index_for_addr
  erased m x done lo hi =
      F.erase_range-inside boot_config_addr 24 m x (omega arith) (omega arith) done (ground arith)
        (ground arith) (omega arith) (inl (omega arith, omega arith))

  module _ (E : Ecc) where
    -- What a load makes of the bytes in the place of the record.
    load_bytes :
        (buf : BootConfig) (m : D.Mem)
        → IsRecord buf
        → boot_config_validate (of_bytes (bytes_from (D.byte_at m) boot_config_addr 24)) ≡ true
        → bytes_from (D.byte_at m) boot_config_addr 24 ≡ bytes_of buf
        → boot_config_load D E m ≡ (true, buf)
    unfolding boot_config_load
    load_bytes buf m r v same =
        rw (F.read_lem boot_config_addr 24 m, v)
          (ap (λ (bs : List ℕ). (true, of_bytes bs)) same
            ∙ ap (λ (c : BootConfig). (true, c)) (of_bytes-bytes_of buf r))

    load_refused :
        (m : D.Mem)
        → boot_config_validate (of_bytes (bytes_from (D.byte_at m) boot_config_addr 24)) ≡ false
        → (boot_config_load D E m).0 ≡ false
    unfolding boot_config_load
    load_refused m v = rw (F.read_lem boot_config_addr 24 m, v) refl

    -- When the power goes during a save of a configuration with the magic, after the erase and after
    -- any number of programmed bytes, the next load finds no valid record, or finds exactly the
    -- configuration that was saved, and from 24 bytes on always that, provided that until then the
    -- flash erases and programs the place of the record.
    pub cut_save_atomic :
        (cfg : BootConfig) (m : D.Mem) (k : ℕ)
        → IsRecord cfg
        → cfg.magic ≡ boot_config_magic
        → (D.flash_erase_range boot_config_addr 24 m).0 ≡ ok
        → ((a : ℕ) (bs : List ℕ) (t : D.Mem)
            → boot_config_addr ≤ a
            → a + length bs ≤ boot_config_addr + 24
            → IsBytes bs
            → (D.flash_program_bytes a bs t).0 ≡ ok)
        → ((t : D.Mem)
            → (D.flash_program_word (boot_config_addr + 20) (boot_config_stamp_crc cfg).crc32 t).0
              ≡ ok)
        → let found = boot_config_load D E (boot_config_save (cut_driver D) cfg (m, k)).1.0 in
          ((k < 24) × (found.0 ≡ false)) ⊎ (found ≡ (true, boot_config_stamp_crc cfg))
    unfolding boot_config_save
    cut_save_atomic cfg m k r g e programs word_programs =
        let buf : BootConfig = boot_config_stamp_crc cfg in
        let rb : IsRecord buf = stamp_crc-IsRecord cfg r in
        let n : D.Mem = (D.flash_erase_range boot_config_addr 24 m).1 in
        let after : D.Mem = (save_body (cut_driver D) buf true (n, k)).1.0 in
        rw e (elim (cut_bytes buf rb k n (λ x lo hi. erased m x e lo hi) programs word_programs) [
          | inr whole ↦ inr (
              load_bytes buf after rb
                (ap (λ (bs : List ℕ). boot_config_validate (of_bytes bs)) whole
                  ∙ stamp_crc-validate cfg r g)
                whole)
          | inl (q, part) ↦ elim (Bool-cases (boot_config_validate (of_bytes (torn buf k)))) [
            | inr bad ↦ inl (
              q,
              load_refused after
                  (ap (λ (bs : List ℕ). boot_config_validate (of_bytes bs)) part ∙ bad),
            )
            | inl good ↦ inr (
                load_bytes buf after rb
                  (ap (λ (bs : List ℕ). boot_config_validate (of_bytes bs)) part ∙ good)
                  (part ∙ torn_write_atomic cfg k r (omega arith) good))
          ]
        ])
