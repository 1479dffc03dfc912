-- ===== src/Flash/Sim/Program.antt =====
-- Programming: what a success leaves on flash, and what no outcome touches.
use secure_boot_loader_with.Base.{
  ℕ, ◌+◌, ◌^◌, ◌<◌, ◌≤◌, ◌≡◌, ◌⊎◌, inl, inr, refl, u32, le32, arith, Option-cases, List, [], ◌∷◌,
  length, IsBytes,
}
use secure_boot_loader_with.MemoryMap.{slot_b_addr}
use secure_boot_loader_with.Flash.{ok, bytes_from}
use secure_boot_loader_with.Flash.Sim.{
  Shadow, shadow_byte_ptr, store, shadow_byte, program_loop, flash_program_word,
  flash_program_bytes, flash_ota_slot_span,
}
use secure_boot_loader_with.Flash.Sim.Cells.{
  InShadow, shadow_byte_ptr-InShadow, load-store, shadow_byte-store,
}

-- Outside the range nothing changes, whatever the outcome.
pub program_loop-outside :
    (a : ℕ) (bs : List ℕ) (s : Shadow) (x : ℕ)
    → a + length bs ≤ 2 ^ 32
    → (x < a) ⊎ (a + length bs ≤ x)
    → shadow_byte (program_loop a bs s).1 x ≡ shadow_byte s x
unfolding program_loop
program_loop-outside a [] s x h o = refl
program_loop-outside a (d ∷ ds) s x h o = elim (Option-cases (shadow_byte_ptr (u32 a))) [
  | inl e ↦ ground arith
  | inr (p, e) ↦
      ground (
        arith,
        shadow_byte-store (u32 a) x d p s e,
        program_loop-outside (a + 1) ds (store p d s) x,
      )
]

-- A success has stored every byte.
pub program_loop-ok :
    (a : ℕ) (bs : List ℕ) (s : Shadow)
    → a + length bs ≤ 2 ^ 32
    → (program_loop a bs s).0 ≡ ok
    → IsBytes bs
    → bytes_from (shadow_byte (program_loop a bs s).1) a (length bs) ≡ bs
unfolding program_loop bytes_from
program_loop-ok a [] s h e b = refl
program_loop-ok a (d ∷ ds) s h e b = elim (Option-cases (shadow_byte_ptr (u32 a))) [
  | inl n ↦ ground arith
  | inr (p, n) ↦ ground (
    arith,
    shadow_byte-store (u32 a) (u32 a) d p s n,
    program_loop-outside (a + 1) ds (store p d s) (u32 a),
    program_loop-ok (a + 1) ds (store p d s),
  )
]

pub flash_program_word-outside :
    (a w : ℕ) (s : Shadow) (x : ℕ)
    → a + 4 ≤ 2 ^ 32
    → (x < a) ⊎ (a + 4 ≤ x)
    → shadow_byte (flash_program_word a w s).1 x ≡ shadow_byte s x
unfolding flash_program_word
flash_program_word-outside a w s x h o = ground (arith, program_loop-outside a (le32 w) s x)

pub flash_program_word-ok :
    (a w : ℕ) (s : Shadow)
    → a + 4 ≤ 2 ^ 32
    → (flash_program_word a w s).0 ≡ ok
    → bytes_from (shadow_byte (flash_program_word a w s).1) a 4 ≡ le32 w
unfolding flash_program_word
flash_program_word-ok a w s h e = ground (arith, program_loop-ok a (le32 w) s)

-- Programming inside the shadow never fails.
pub program_loop-succeeds :
    (a : ℕ) (bs : List ℕ) (s : Shadow)
    → a + length bs ≤ 2 ^ 32
    → ((x : ℕ) → a ≤ x → x < a + length bs → InShadow x)
    → IsBytes bs
    → (program_loop a bs s).0 ≡ ok
unfolding program_loop
program_loop-succeeds a [] s room i b = refl
program_loop-succeeds a (d ∷ ds) s room i b =
    let (p, e) = shadow_byte_ptr-InShadow (u32 a) (i (u32 a) (omega arith) (omega arith)) in
    ground (
      arith,
      e,
      load-store p d s,
      program_loop-succeeds (a + 1) ds (store p d s) (omega arith)
          (λ x lo hi. i x (omega arith) (omega arith)) b.1,
    )

-- Slot B can be programmed.
pub program_bytes-succeeds_b :
    (a : ℕ) (bs : List ℕ) (s : Shadow)
    → slot_b_addr ≤ a
    → a + length bs ≤ slot_b_addr + flash_ota_slot_span
    → IsBytes bs
    → (flash_program_bytes a bs s).0 ≡ ok
unfolding flash_program_bytes flash_ota_slot_span
program_bytes-succeeds_b a bs s lo hi b =
    program_loop-succeeds a bs s (omega arith) (λ x p q. inr (inr (omega (arith, lo, hi, p, q)))) b
