-- ===== src/Sha256/Reference/Final.antt =====
-- `sha256_final` writes the padding of the reference into its buffer.
use mathlib.Core.Path.{ap₂}
use secure_boot_loader_with.Base.{
  lt→ltb, ltb, false, ℕ, suc, ◌+◌, ◌-◌, ◌*◌, ◌/◌, ◌%◌, ◌≤◌, ◌<◌, ◌≡◌, refl, ap, ◌∙◌, sym, List, [],
  ◌∷◌, ◌++◌, u64, length, take, set, replicate, take-set, take_all, length-set, length-append,
  length-take, length-replicate, append_assoc, arith, dec_lt,
}
use secure_boot_loader_with.Sha256.{
  Context, initial_state, digest_bytes, sha256_init, sha256_update, sha256_transform, zero_fill,
  put_bitlen, sha256_final, sha256,
}
use secure_boot_loader_with.Sha256.Reference.Blocks.{
  compress, compress-snoc, be64, pad, reference_sha256,
}
use secure_boot_loader_with.Sha256.Reference.Fill.{
  length-zero_fill, take-zero_fill, put_bitlen_lem, replicate-add,
}
use secure_boot_loader_with.Sha256.Reference.Absorb.{Absorbed, init-Absorbed, update-Absorbed}

module _ (msg : List ℕ) (ctx : Context) (a : Absorbed msg ctx) where
  abbrev pending : List ℕ
  pending = take ctx.datalen ctx.block

  abbrev marked : List ℕ
  marked = set ctx.block ctx.datalen 0x80

  marked-length : length marked ≡ 64
  marked-length = length-set ctx.block ctx.datalen 0x80 ∙ a.buffer

  -- `n` bytes are pending, then comes the mark, then `z` zeros up to index `k`.
  marked_then_zeros :
      (z k : ℕ)
      → ctx.datalen + 1 + z ≡ k
      → k ≤ 64
      → take k (zero_fill z (ctx.datalen + 1) marked) ≡ pending ++ (0x80 ∷ replicate z 0)
  marked_then_zeros z k e h =
      take-zero_fill z (ctx.datalen + 1) k marked e (omega (arith, marked-length))
      ∙ ap (λ (t : List ℕ). t ++ replicate z 0) grown
      ∙ append_assoc pending (0x80 ∷ []) (replicate z 0)
    where
      grown : take (ctx.datalen + 1) marked ≡ pending ++ (0x80 ∷ [])
      grown =
          ap (λ (t : ℕ). take t marked) {y = suc ctx.datalen} (omega arith)
          ∙ take-set ctx.datalen ctx.block 0x80 (omega (arith, a.room, a.buffer))

  pending-length : length pending ≡ ctx.datalen
  pending-length = omega (arith, length-take ctx.datalen ctx.block, a.room, a.buffer)

  msg_length : length msg ≡ 64 * a.full + ctx.datalen
  msg_length =
      ap length a.split ∙ omega (arith, length-append a.done pending, a.done_length, pending-length)

  abbrev bitlen : ℕ
  bitlen = u64 (8 * length msg)

  bitlen_lem : u64 (ctx.bitlen + ctx.datalen * 8) ≡ bitlen
  bitlen_lem = omega (arith, a.bits, msg_length)

  -- The padded message is the whole blocks, what is pending, the mark, the zeros and the length.
  pad_lem :
      (z : ℕ)
      → (119 - ctx.datalen) % 64 ≡ z
      → pad msg ≡ a.done ++ (pending ++ (0x80 ∷ (replicate z 0 ++ be64 bitlen)))
  pad_lem z e =
      ap (λ (t : ℕ). msg ++ (0x80 ∷ (replicate t 0 ++ be64 bitlen))) zeros
      ∙ ap (λ (t : List ℕ). t ++ (0x80 ∷ (replicate z 0 ++ be64 bitlen))) a.split
      ∙ append_assoc a.done pending (0x80 ∷ (replicate z 0 ++ be64 bitlen))
    where
      zeros : (119 - length msg % 64) % 64 ≡ z
      zeros = omega (arith, msg_length, a.room)

  reference_at :
      (k : ℕ) (padded : List ℕ)
      → pad msg ≡ padded
      → length (pad msg) / 64 ≡ k
      → reference_sha256 msg ≡ digest_bytes (compress k initial_state padded)
  unfolding reference_sha256
  reference_at k padded p q =
      ap (λ (t : List ℕ). digest_bytes t)
        (ap₂ (λ (i : ℕ) (t : List ℕ). compress i initial_state t) q p)

  -- With room for the length in the block: one more block.
  module _ (short : ctx.datalen < 56) where
    abbrev last : List ℕ
    last = put_bitlen bitlen (zero_fill (56 - (ctx.datalen + 1)) (ctx.datalen + 1) marked)

    last_lem : last ≡ pending ++ (0x80 ∷ (replicate (56 - (ctx.datalen + 1)) 0 ++ be64 bitlen))
    last_lem =
        put_bitlen_lem bitlen (zero_fill (56 - (ctx.datalen + 1)) (ctx.datalen + 1) marked)
          (length-zero_fill (56 - (ctx.datalen + 1)) (ctx.datalen + 1) marked ∙ marked-length)
        ∙ ap (λ (t : List ℕ). t ++ be64 bitlen)
            (marked_then_zeros (56 - (ctx.datalen + 1)) 56 (omega arith) (omega arith))
        ∙ append_assoc pending (0x80 ∷ replicate (56 - (ctx.datalen + 1)) 0) (be64 bitlen)

    last-length : length last ≡ 64
    last-length =
        ap length last_lem
        ∙ omega (
          arith,
          length-append pending (0x80 ∷ (replicate (56 - (ctx.datalen + 1)) 0 ++ be64 bitlen)),
          length-append (replicate (56 - (ctx.datalen + 1)) 0) (be64 bitlen),
          length-replicate {A = ℕ} (56 - (ctx.datalen + 1)) 0,
          pending-length,
        )

    pad_short : pad msg ≡ a.done ++ last
    pad_short =
        pad_lem (56 - (ctx.datalen + 1)) (omega arith)
        ∙ ap (λ (t : List ℕ). a.done ++ t) (sym last_lem)

    blocks_short : length (pad msg) / 64 ≡ suc a.full
    blocks_short =
        rw pad_short (omega (arith, length-append a.done last, a.done_length, last-length))

    final_short : sha256_final ctx ≡ reference_sha256 msg
    unfolding sha256_final
    final_short =
        rw (lt→ltb ctx.datalen 56 short) (
          ap
            (λ (t : ℕ). digest_bytes (
              sha256_transform ctx.state
                (put_bitlen t (zero_fill (56 - (ctx.datalen + 1)) (ctx.datalen + 1) marked))))
            bitlen_lem)
        ∙ ap (λ (t : List ℕ). digest_bytes (sha256_transform t last)) a.compressed
        ∙ ap (λ (t : List ℕ). digest_bytes t)
            (sym (compress-snoc a.full initial_state a.done last a.done_length last-length))
        ∙ sym (reference_at (suc a.full) (a.done ++ last) pad_short blocks_short)

  -- Without: the mark and zeros fill this block, and zeros and the length one more.
  module _ (long : 56 ≤ ctx.datalen) where
    abbrev filled : List ℕ
    filled = zero_fill (64 - (ctx.datalen + 1)) (ctx.datalen + 1) marked

    abbrev tail : List ℕ
    tail = put_bitlen bitlen (zero_fill 56 0 filled)

    filled-length : length filled ≡ 64
    filled-length =
        length-zero_fill (64 - (ctx.datalen + 1)) (ctx.datalen + 1) marked ∙ marked-length

    filled_lem : filled ≡ pending ++ (0x80 ∷ replicate (64 - (ctx.datalen + 1)) 0)
    filled_lem =
        sym (take_all 64 filled (omega (arith, filled-length)))
        ∙ marked_then_zeros (64 - (ctx.datalen + 1)) 64 (omega (arith, a.room)) (omega arith)

    tail_lem : tail ≡ replicate 56 0 ++ be64 bitlen
    tail_lem =
        put_bitlen_lem bitlen (zero_fill 56 0 filled) (length-zero_fill 56 0 filled ∙ filled-length)
        ∙ ap (λ (t : List ℕ). t ++ be64 bitlen)
            (take-zero_fill 56 0 56 filled (omega arith) (omega (arith, filled-length)))

    tail-length : length tail ≡ 64
    tail-length = rw tail_lem refl

    pad_long : pad msg ≡ (a.done ++ filled) ++ tail
    pad_long =
        pad_lem (119 - ctx.datalen) (omega (arith, a.room))
        ∙ ap (λ (t : List ℕ). a.done ++ (pending ++ (0x80 ∷ (t ++ be64 bitlen))))
            (sym (
              replicate-add (64 - (ctx.datalen + 1)) 56 (119 - ctx.datalen)
                (omega (arith, a.room))))
        ∙ rw (tail_lem, filled_lem) (simp append_assoc)

    blocks_long : length (pad msg) / 64 ≡ suc (suc a.full)
    blocks_long = rw pad_long (
        omega (
          arith,
          length-append (a.done ++ filled) tail,
          length-append a.done filled,
          a.done_length,
          filled-length,
          tail-length,
        ))

    final_long : sha256_final ctx ≡ reference_sha256 msg
    unfolding sha256_final
    final_long =
        rw (not_short) (
          ap
            (λ (t : ℕ). digest_bytes (
              sha256_transform (sha256_transform ctx.state filled)
                (put_bitlen t (zero_fill 56 0 filled))))
            bitlen_lem)
        ∙ ap (λ (t : List ℕ). digest_bytes (sha256_transform (sha256_transform t filled) tail))
            a.compressed
        ∙ ap (λ (t : List ℕ). digest_bytes (sha256_transform t tail))
            (sym (compress-snoc a.full initial_state a.done filled a.done_length filled-length))
        ∙ ap (λ (t : List ℕ). digest_bytes t)
            (sym (
              compress-snoc (suc a.full) initial_state (a.done ++ filled) tail
                (omega (arith, length-append a.done filled, a.done_length, filled-length))
                tail-length))
        ∙ sym (reference_at (suc (suc a.full)) ((a.done ++ filled) ++ tail) pad_long blocks_long)
      where
        not_short : ltb ctx.datalen 56 ≡ false
        not_short = ground arith

-- The streaming implementation computes SHA-256: for every message, and whatever the context's
-- buffer held before, its digest is that of the padded message compressed block by block.
pub sha256-eq-reference :
    (stale msg : List ℕ) → length stale ≡ 64 → sha256 stale msg ≡ reference_sha256 msg
unfolding sha256
sha256-eq-reference stale msg h = elim (dec_lt ctx.datalen 56) [
  | yes p ↦ final_short msg ctx a p
  | no p ↦ final_long msg ctx a (omega arith)
]
  where
    ctx : Context
    ctx = sha256_update (sha256_init stale) msg

    a : Absorbed msg ctx
    a = update-Absorbed [] (sha256_init stale) msg (init-Absorbed stale h)
