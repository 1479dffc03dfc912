-- ===== src/Crypto/Chunks.antt =====
-- The chunked loops over flash read what one read of the whole range gives.
use secure_boot_loader_with.Base.{
  ℕ, zero, suc, ◌+◌, ◌-◌, ◌^◌, ◌<◌, ◌≤◌, ◌≡◌, ap, ◌∙◌, sym, List, [], ◌++◌, some, arith, lt→ltb,
  u32,
}
use secure_boot_loader_with.Flash.{FlashDriver, IsFlash, bytes_from}
use secure_boot_loader_with.Flash.Bytes.{bytes_from-add}
use secure_boot_loader_with.Crypto.{read_chunks, chunk_size}

module _ {ℓ} {S : Type ℓ} (D : FlashDriver) (F : IsFlash D) (limit : ℕ) (pos : 0 < limit)
    (feed : S → List ℕ → S) (feed-nil : (acc : S) → feed acc [] ≡ acc)
    (feed-append : (acc : S) (xs ys : List ℕ) → feed acc (xs ++ ys) ≡ feed (feed acc xs) ys)
    (m : D.Mem) where
  one_chunk :
      (fuel addr remaining : ℕ) (acc : S)
      → 0 < remaining
      → let chunk = chunk_size limit remaining in
        read_chunks D limit feed m (suc fuel) addr remaining acc
        ≡ read_chunks D limit feed m fuel
            (u32 (addr + chunk))
            (remaining - chunk)
            (feed acc (bytes_from (D.byte_at m) addr chunk))
  unfolding read_chunks
  one_chunk fuel addr remaining acc h =
      rw (F.read_lem addr (chunk_size limit remaining) m, lt→ltb 0 remaining h)

  -- With fuel above the count, the loop reads the whole range and always returns.
  pub read_chunks_total :
      (fuel addr remaining : ℕ) (acc : S)
      → remaining < fuel
      → addr + remaining < 2 ^ 32
      → read_chunks D limit feed m fuel addr remaining acc
        ≡ some (feed acc (bytes_from (D.byte_at m) addr remaining))
  read_chunks_total zero addr remaining acc h k = absurd (omega arith)
  read_chunks_total (suc fuel) addr zero acc h k =
      unfold read_chunks bytes_from in ap (λ (t : S). some t) (sym (feed-nil acc))
  read_chunks_total (suc fuel) addr (suc r) acc h k =
      one_chunk fuel addr (suc r) acc (omega arith)
      ∙ ap
          (λ (t : ℕ).
            read_chunks D limit feed m fuel t (suc r - chunk)
              (feed acc (bytes_from (D.byte_at m) addr chunk)))
          {y = addr + chunk} (omega (arith, bounds))
      ∙ read_chunks_total fuel (addr + chunk) (suc r - chunk)
          (feed acc (bytes_from (D.byte_at m) addr chunk)) (omega (arith, bounds))
          (omega (arith, bounds))
      ∙ ap (λ (t : S). some t)
          (sym (
            feed-append acc (bytes_from (D.byte_at m) addr chunk)
              (bytes_from (D.byte_at m) (addr + chunk) (suc r - chunk))))
      ∙ ap (λ (t : List ℕ). some (feed acc t))
          (sym (
            bytes_from-add (D.byte_at m) addr chunk (suc r - chunk) (suc r)
              (omega (arith, bounds))))
    where
      chunk : ℕ
      chunk = chunk_size limit (suc r)

      bounds : (0 < chunk) × (chunk ≤ suc r)
      bounds = unfold chunk_size in ground arith
