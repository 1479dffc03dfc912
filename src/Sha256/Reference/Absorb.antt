-- ===== src/Sha256/Reference/Absorb.antt =====
-- What a context knows of the message that it was fed: whole blocks in its state, the rest in its
-- buffer.
use secure_boot_loader_with.Base.{
  ℕ, suc, ◌+◌, ◌*◌, ◌<◌, ◌≡◌, ◌≢◌, refl, ◌∙◌, sym, List, [], ◌∷◌, ◌++◌, u64, length, take, set,
  take-set, take_all, length-set, length-append, append_assoc, append-nil, arith, ℕ_discrete, subst,
}
use secure_boot_loader_with.Sha256.{
  Context, initial_state, sha256_init, update_byte, sha256_update, sha256_transform,
}
use secure_boot_loader_with.Sha256.Reference.Blocks.{compress, compress-snoc}

pub record Absorbed (msg : List ℕ) (ctx : Context) : Type 0 where
  pub full : ℕ
  pub done : List ℕ
  pub split : msg ≡ done ++ take ctx.datalen ctx.block
  pub done_length : length done ≡ 64 * full
  pub buffer : length ctx.block ≡ 64
  pub room : ctx.datalen < 64
  pub compressed : ctx.state ≡ compress full initial_state done
  pub bits : ctx.bitlen ≡ u64 (512 * full)

pub init-Absorbed : (stale : List ℕ) → length stale ≡ 64 → Absorbed [] (sha256_init stale)
unfolding sha256_init
init-Absorbed stale h = record {
  full = 0;
  done = [];
  split = refl;
  done_length = refl;
  buffer = h;
  room = omega arith;
  compressed = unfold compress in refl;
  bits = refl;
}

module _ (msg : List ℕ) (ctx : Context) (b : ℕ) (a : Absorbed msg ctx) where
  grown :
      take (suc ctx.datalen) (set ctx.block ctx.datalen b) ≡ take ctx.datalen ctx.block ++ (b ∷ [])
  grown = take-set ctx.datalen ctx.block b (omega (arith, a.room, a.buffer))

  whole : msg ++ (b ∷ []) ≡ a.done ++ take (suc ctx.datalen) (set ctx.block ctx.datalen b)
  whole = rw (grown, a.split) (append_assoc a.done (take ctx.datalen ctx.block) (b ∷ []))

  part_of_block :
      suc ctx.datalen ≢ 64
      → Absorbed
          (msg ++ (b ∷ []))
          (record ctx { block = set ctx.block ctx.datalen b; datalen = suc ctx.datalen })
  part_of_block ne = record {
    full = a.full;
    done = a.done;
    split = whole;
    done_length = a.done_length;
    buffer = length-set ctx.block ctx.datalen b ∙ a.buffer;
    room = omega (arith, a.room);
    compressed = a.compressed;
    bits = a.bits;
  }

  end_of_block :
      suc ctx.datalen ≡ 64
      → Absorbed (msg ++ (b ∷ [])) (record {
        block = set ctx.block ctx.datalen b;
        datalen = 0;
        bitlen = u64 (ctx.bitlen + 512);
        state = sha256_transform ctx.state (set ctx.block ctx.datalen b);
      })
  end_of_block e = record {
    full = suc a.full;
    done = a.done ++ block;
    split = whole ∙ rw (take_all (suc ctx.datalen) block (omega (arith, len)), append-nil);
    done_length = omega (arith, length-append a.done block, a.done_length, len);
    buffer = len;
    room = omega arith;
    compressed =
        rw a.compressed (sym (compress-snoc a.full initial_state a.done block a.done_length len));
    bits = omega (arith, a.bits);
  }
    where
      block : List ℕ
      block = set ctx.block ctx.datalen b

      len : length block ≡ 64
      len = length-set ctx.block ctx.datalen b ∙ a.buffer

  update_byte-Absorbed : Absorbed (msg ++ (b ∷ [])) (update_byte ctx b)
  update_byte-Absorbed = elim (ℕ_discrete (suc ctx.datalen) 64) [
    | yes e ↦ subst (Absorbed (msg ++ (b ∷ []))) (sym (full_step e)) (end_of_block e)
    | no ne ↦ subst (Absorbed (msg ++ (b ∷ []))) (sym (part_step ne)) (part_of_block ne)
  ]
    where
      full_step :
          suc ctx.datalen ≡ 64
          → update_byte ctx b ≡ record {
            block = set ctx.block ctx.datalen b;
            datalen = 0;
            bitlen = u64 (ctx.bitlen + 512);
            state = sha256_transform ctx.state (set ctx.block ctx.datalen b);
          }
      full_step e = unfold update_byte in ground arith

      part_step :
          suc ctx.datalen ≢ 64
          → update_byte ctx b
            ≡ record ctx { block = set ctx.block ctx.datalen b; datalen = suc ctx.datalen }
      part_step ne = let r : ctx.datalen < 64 = a.room in unfold update_byte in ground arith

-- Feeding bytes appends them to the message.
pub update-Absorbed :
    (msg : List ℕ) (ctx : Context) (bs : List ℕ)
    → Absorbed msg ctx
    → Absorbed (msg ++ bs) (sha256_update ctx bs)
unfolding sha256_update
update-Absorbed msg ctx [] a = rw append-nil a
update-Absorbed msg ctx (b ∷ bs) a =
    subst (λ (t : List ℕ). Absorbed t (sha256_update (update_byte ctx b) bs))
      (append_assoc msg (b ∷ []) bs)
      (update-Absorbed (msg ++ (b ∷ [])) (update_byte ctx b) bs (update_byte-Absorbed msg ctx b a))
