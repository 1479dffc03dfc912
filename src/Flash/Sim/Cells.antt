-- ===== src/Flash/Sim/Cells.antt =====
-- A store through the shadow's pointers is seen at its own address and at no other.
use secure_boot_loader_with.Base.{
  ℕ, ◌+◌, ◌^◌, ◌<◌, ◌≤◌, ◌≡◌, ◌≢◌, ◌⊎◌, inl, inr, some, ◌==◌, if◌then◌else◌, u8, arith,
  Option-cases,
}
use secure_boot_loader_with.MemoryMap.{boot_config_addr, slot_a_addr, slot_b_addr}
use secure_boot_loader_with.Flash.Sim.{
  Shadow, Cell, shadow_config_size, shadow_slot_size, shadow_byte_ptr, load, store, shadow_byte,
  poke,
}

-- The three windows that can be written.
abbrev pub InShadow : ℕ → Type 0
InShadow x =
    ((boot_config_addr ≤ x) × (x < boot_config_addr + shadow_config_size))
    ⊎ ((slot_a_addr ≤ x) × (x < slot_a_addr + shadow_slot_size))
    ⊎ ((slot_b_addr ≤ x) × (x < slot_b_addr + shadow_slot_size))

pub shadow_byte-lt : (s : Shadow) (x : ℕ) → shadow_byte s x < 2 ^ 8
unfolding shadow_byte load shadow_byte_ptr
shadow_byte-lt s x = ground arith

pub load-store : (p : Cell) (v : ℕ) (s : Shadow) → load p (store p v s) ≡ u8 v
unfolding load store
load-store p v s = ground arith

pub shadow_byte-store :
    (a x : ℕ) (v : ℕ) (p : Cell) (s : Shadow)
    → shadow_byte_ptr a ≡ some p
    → shadow_byte (store p v s) x ≡ (if a == x then u8 v else shadow_byte s x)
unfolding shadow_byte shadow_byte_ptr load store
shadow_byte-store a x v p s h = ground arith

pub shadow_byte_ptr-InShadow : (a : ℕ) → InShadow a → (p : Cell) × (shadow_byte_ptr a ≡ some p)
shadow_byte_ptr-InShadow a h = elim (Option-cases (shadow_byte_ptr a)) [
  | inl e ↦ absurd (unfold shadow_byte_ptr in ground arith)
  | inr q ↦ q
]

pub shadow_byte-poke_ne :
    (a x v : ℕ) (s : Shadow) → a ≢ x → shadow_byte (poke a v s) x ≡ shadow_byte s x
unfolding poke
shadow_byte-poke_ne a x v s ne = elim (Option-cases (shadow_byte_ptr a)) [
  | inl e ↦ ground arith
  | inr (p, e) ↦ ground (arith, shadow_byte-store a x v p s e)
]

pub shadow_byte-poke_self : (a v : ℕ) (s : Shadow) → InShadow a → shadow_byte (poke a v s) a ≡ u8 v
unfolding poke
shadow_byte-poke_self a v s h = elim (Option-cases (shadow_byte_ptr a)) [
  | inl e ↦ absurd (unfold shadow_byte_ptr in ground arith)
  | inr (p, e) ↦ ground (arith, shadow_byte-store a a v p s e)
]
