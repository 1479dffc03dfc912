-- ===== src/Sha256.antt =====
-- bootloader/src/sha256.c: SHA-256 as a stream. The words are below 2 ^ 32, so `~x` is what is
-- left to 2 ^ 32 - 1, and sums are cut to 32 bits.
pub mod Stream
pub mod Reference
mod Tests
use secure_boot_loader_with.Base.{
  ℕ, zero, suc, ◌+◌, ◌-◌, ◌*◌, ◌/◌, ◌%◌, ◌^◌, List, [], ◌∷◌, ◌++◌, bit_and, bit_or, bit_xor, u8,
  u32, u64, ◌<<◌, ◌>>◌, get_or, set, ltb, ◌==◌, if◌then◌else◌, replicate,
}

abbrev pub rotr : ℕ → ℕ → ℕ
rotr x n = bit_or (x >> n) (u32 (x << (32 - n)))

abbrev pub ch : ℕ → ℕ → ℕ → ℕ
ch x y z = bit_xor (bit_and x y) (bit_and (0xFFFF_FFFF - x) z)

abbrev pub maj : ℕ → ℕ → ℕ → ℕ
maj x y z = bit_xor (bit_xor (bit_and x y) (bit_and x z)) (bit_and y z)

abbrev pub ep0 : ℕ → ℕ
ep0 x = bit_xor (bit_xor (rotr x 2) (rotr x 13)) (rotr x 22)

abbrev pub ep1 : ℕ → ℕ
ep1 x = bit_xor (bit_xor (rotr x 6) (rotr x 11)) (rotr x 25)

abbrev pub sig0 : ℕ → ℕ
sig0 x = bit_xor (bit_xor (rotr x 7) (rotr x 18)) (x >> 3)

abbrev pub sig1 : ℕ → ℕ
sig1 x = bit_xor (bit_xor (rotr x 17) (rotr x 19)) (x >> 10)

abbrev pub k_table : List ℕ
k_table =
    0x428a2f98 ∷ 0x71374491 ∷ 0xb5c0fbcf ∷ 0xe9b5dba5 ∷ 0x3956c25b ∷ 0x59f111f1 ∷ 0x923f82a4
    ∷ 0xab1c5ed5 ∷ 0xd807aa98 ∷ 0x12835b01 ∷ 0x243185be ∷ 0x550c7dc3 ∷ 0x72be5d74 ∷ 0x80deb1fe
    ∷ 0x9bdc06a7 ∷ 0xc19bf174 ∷ 0xe49b69c1 ∷ 0xefbe4786 ∷ 0x0fc19dc6 ∷ 0x240ca1cc ∷ 0x2de92c6f
    ∷ 0x4a7484aa ∷ 0x5cb0a9dc ∷ 0x76f988da ∷ 0x983e5152 ∷ 0xa831c66d ∷ 0xb00327c8 ∷ 0xbf597fc7
    ∷ 0xc6e00bf3 ∷ 0xd5a79147 ∷ 0x06ca6351 ∷ 0x14292967 ∷ 0x27b70a85 ∷ 0x2e1b2138 ∷ 0x4d2c6dfc
    ∷ 0x53380d13 ∷ 0x650a7354 ∷ 0x766a0abb ∷ 0x81c2c92e ∷ 0x92722c85 ∷ 0xa2bfe8a1 ∷ 0xa81a664b
    ∷ 0xc24b8b70 ∷ 0xc76c51a3 ∷ 0xd192e819 ∷ 0xd6990624 ∷ 0xf40e3585 ∷ 0x106aa070 ∷ 0x19a4c116
    ∷ 0x1e376c08 ∷ 0x2748774c ∷ 0x34b0bcb5 ∷ 0x391c0cb3 ∷ 0x4ed8aa4a ∷ 0x5b9cca4f ∷ 0x682e6ff3
    ∷ 0x748f82ee ∷ 0x78a5636f ∷ 0x84c87814 ∷ 0x8cc70208 ∷ 0x90befffa ∷ 0xa4506ceb ∷ 0xbef9a3f7
    ∷ 0xc67178f2 ∷ []

-- `sha256_ctx_t`; `block` is its `data`.
pub record Context : Type 0 where
  pub block : List ℕ  -- 64 bytes
  pub datalen : ℕ  -- uint32_t
  pub bitlen : ℕ  -- uint64_t
  pub state : List ℕ  -- 8 words

-- m[0 .. 15]: the block as big-endian words, by the words left.
pub load_words : ℕ → ℕ → List ℕ → List ℕ
load_words zero j block = []
load_words (suc n) j block =
    bit_or (bit_or (get_or block j 0 << 24) (get_or block (j + 1) 0 << 16))
      (bit_or (get_or block (j + 2) 0 << 8) (get_or block (j + 3) 0))
    ∷ load_words n (j + 4) block

-- m[16 .. 63], by the words left.
pub extend : ℕ → ℕ → List ℕ → List ℕ
extend zero i m = m
extend (suc n) i m = extend n (i + 1) (
    m
    ++ (u32 (
          sig1 (get_or m (i - 2) 0)
          + get_or m (i - 7) 0
          + sig0 (get_or m (i - 15) 0)
          + get_or m (i - 16) 0)
        ∷ []))

-- The working variables.
pub record Regs : Type 0 where
  pub a : ℕ
  pub b : ℕ
  pub c : ℕ
  pub d : ℕ
  pub e : ℕ
  pub f : ℕ
  pub g : ℕ
  pub h : ℕ

-- The 64 rounds, by the rounds left.
pub rounds : ℕ → ℕ → List ℕ → Regs → Regs
rounds zero i m r = r
rounds (suc n) i m r =
    let t1 : ℕ = u32 (r.h + ep1 r.e + ch r.e r.f r.g + get_or k_table i 0 + get_or m i 0) in
    let t2 : ℕ = u32 (ep0 r.a + maj r.a r.b r.c) in
    rounds n (i + 1) m (record {
      a = u32 (t1 + t2);
      b = r.a;
      c = r.b;
      d = r.c;
      e = u32 (r.d + t1);
      f = r.e;
      g = r.f;
      h = r.g;
    })

-- `sha256_transform` changes nothing of the context but its state.
unfoldable pub sha256_transform : List ℕ → List ℕ → List ℕ
unfolding load_words extend rounds
sha256_transform state block =
    let m : List ℕ = extend 48 16 (load_words 16 0 block) in
    let at : ℕ → ℕ = λ i. get_or state i 0 in
    let r : Regs =
      rounds 64 0 m (record {
        a = at 0;
        b = at 1;
        c = at 2;
        d = at 3;
        e = at 4;
        f = at 5;
        g = at 6;
        h = at 7;
      }) in
    u32 (at 0 + r.a)
    ∷ u32 (at 1 + r.b)
    ∷ u32 (at 2 + r.c)
    ∷ u32 (at 3 + r.d)
    ∷ u32 (at 4 + r.e)
    ∷ u32 (at 5 + r.f)
    ∷ u32 (at 6 + r.g)
    ∷ u32 (at 7 + r.h)
    ∷ []

abbrev pub initial_state : List ℕ
initial_state =
    0x6a09e667 ∷ 0xbb67ae85 ∷ 0x3c6ef372 ∷ 0xa54ff53a ∷ 0x510e527f ∷ 0x9b05688c ∷ 0x1f83d9ab
    ∷ 0x5be0cd19 ∷ []

-- `sha256_init` leaves the block as the stack had it: `stale`.
unfoldable pub sha256_init : List ℕ → Context
sha256_init stale = record { block = stale; datalen = 0; bitlen = 0; state = initial_state }

-- The body of the loop of `sha256_update`.
unfoldable pub update_byte : Context → ℕ → Context
update_byte ctx b =
    let block : List ℕ = set ctx.block ctx.datalen b in
    let datalen : ℕ = u32 (ctx.datalen + 1) in
    if datalen == 64
    then record {
      block = block;
      datalen = 0;
      bitlen = u64 (ctx.bitlen + 512);
      state = sha256_transform ctx.state block;
    }
    else record ctx { block = block; datalen = datalen }

unfoldable pub sha256_update : Context → List ℕ → Context
sha256_update ctx [] = ctx
sha256_update ctx (b ∷ bs) = sha256_update (update_byte ctx b) bs

-- `while (i < end) data[i++] = 0`, by the bytes left.
unfoldable pub zero_fill : ℕ → ℕ → List ℕ → List ℕ
zero_fill zero i block = block
zero_fill (suc n) i block = zero_fill n (i + 1) (set block i 0)

-- The eight length bytes, from data[63] down.
unfoldable pub put_bitlen : ℕ → List ℕ → List ℕ
put_bitlen n block =
    let b63 : List ℕ = set block 63 (u8 n) in
    let b62 : List ℕ = set b63 62 (u8 (n >> 8)) in
    let b61 : List ℕ = set b62 61 (u8 (n >> 16)) in
    let b60 : List ℕ = set b61 60 (u8 (n >> 24)) in
    let b59 : List ℕ = set b60 59 (u8 (n >> 32)) in
    let b58 : List ℕ = set b59 58 (u8 (n >> 40)) in
    let b57 : List ℕ = set b58 57 (u8 (n >> 48)) in set b57 56 (u8 (n >> 56))

-- The byte of every state word at one shift.
abbrev pub digest_bytes : List ℕ → List ℕ
digest_bytes [] = []
digest_bytes (w ∷ ws) = u8 (w >> 24) ∷ u8 (w >> 16) ∷ u8 (w >> 8) ∷ u8 w ∷ digest_bytes ws

unfoldable pub sha256_final : Context → List ℕ
sha256_final ctx =
    let n : ℕ = ctx.datalen in
    let marked : List ℕ = set ctx.block n 0x80 in
    let bitlen : ℕ = u64 (ctx.bitlen + n * 8) in
    if ltb n 56
    then digest_bytes
        (sha256_transform ctx.state (put_bitlen bitlen (zero_fill (56 - (n + 1)) (n + 1) marked)))
    else let full : List ℕ = zero_fill (64 - (n + 1)) (n + 1) marked in
      let state : List ℕ = sha256_transform ctx.state full in
      digest_bytes (sha256_transform state (put_bitlen bitlen (zero_fill 56 0 full)))

unfoldable pub sha256 : List ℕ → List ℕ → List ℕ
sha256 stale bs = sha256_final (sha256_update (sha256_init stale) bs)
