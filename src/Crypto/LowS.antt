-- ===== src/Crypto/LowS.antt =====
-- The canonical low-S check, on the numbers that the bytes stand for.
use native.Mathlib.Nat.{pow-suc, one-le-pow}
use secure_boot_loader_with.Base.{
  ℕ, zero, suc, ◌+◌, ◌*◌, ◌^◌, ◌≤◌, ◌<◌, ◌≡◌, ◌≢◌, ◌↔◌, ◌⊎◌, ◌/◌, replicate, inr, refl, ap, ◌∙◌,
  sym, List, [], ◌∷◌, Bool, true, false, ◌||◌, ◌==◌, length, length-take, length-drop, IsBytes-take,
  IsBytes-drop, take, drop, arith, IsBytes, if◌then◌else◌,
}
use secure_boot_loader_with.Crypto.Compare.{or_bytes-zero, or_bytes_zeros}
use secure_boot_loader_with.Crypto.{borrow, or_bytes, is_canonical_low_s, k_secp256r1_half_order}

-- A big-endian number.
abbrev pub number : List ℕ → ℕ
number [] = 0
number (b ∷ bs) = b * 256 ^ length bs + number bs

mul_step : (x y p : ℕ) → x < y → x * p + p ≤ y * p
mul_step x y p h = grind arith

number-lt : (bs : List ℕ) → IsBytes bs → number bs < 256 ^ length bs
number-lt [] h = omega arith
number-lt (b ∷ bs) h =
    omega (arith, pow-suc 256 (length bs), mul_step b 256 (256 ^ length bs) h.0, number-lt bs h.1)

-- The subtraction borrows exactly if the second number is the greater one.
borrow_lem :
    (hs ss : List ℕ)
    → IsBytes hs
    → IsBytes ss
    → length hs ≡ length ss
    → ((borrow hs ss ≡ 1) × (number hs < number ss))
      ⊎ ((borrow hs ss ≡ 0) × (number ss ≤ number hs))
unfolding borrow
borrow_lem [] [] p q e = inr (refl, omega arith)
borrow_lem [] (s ∷ ss) p q e = absurd (omega arith)
borrow_lem (h ∷ hs) [] p q e = absurd (omega arith)
borrow_lem (h ∷ hs) (s ∷ ss) p q e = ground (
  arith,
  borrow_lem hs ss p.1 q.1,
  number-lt hs p.1,
  number-lt ss q.1,
  ap (λ (t : ℕ). 256 ^ t) {x = length hs} {y = length ss} (omega arith),
  mul_step h s (256 ^ length hs),
  mul_step s h (256 ^ length hs),
)

number-replicate : (n : ℕ) → number (replicate n 0) ≡ 0
number-replicate zero = refl
number-replicate (suc n) = omega (arith, number-replicate n)

-- An or over all bytes is 0 exactly if they are the number 0.
or_bytes-number : (bs : List ℕ) → (or_bytes 0 bs ≡ 0) ↔ (number bs ≡ 0)
or_bytes-number bs = (
  λ h. ap (λ (t : List ℕ). number t) (or_bytes-zero 0 bs h).1 ∙ number-replicate (length bs),
  λ h. ap (λ (t : List ℕ). or_bytes 0 t) (zeros bs h) ∙ or_bytes_zeros (length bs),
)
  where
    zeros : (bs : List ℕ) → number bs ≡ 0 → bs ≡ replicate (length bs) 0
    zeros [] h = refl
    zeros (zero ∷ bs) h = ap (λ (t : List ℕ). 0 ∷ t) (zeros bs (omega arith))
    zeros (suc b ∷ bs) h =
        absurd (omega (arith, one-le-pow (length bs) 256, mul_step 0 (suc b) (256 ^ length bs)))

-- The order of the group of secp256r1.
abbrev pub order : ℕ
order = 0xFFFFFFFF_00000000_FFFFFFFF_FFFFFFFF_BCE6FAAD_A7179E84_F3B9CAC2_FC632551

abbrev pub r_of : List ℕ → ℕ
r_of sig = number (take 32 sig)

abbrev pub s_of : List ℕ → ℕ
s_of sig = number (take 32 (drop 32 sig))

half_order : number k_secp256r1_half_order ≡ order / 2
half_order = refl

half_order-IsBytes : IsBytes k_secp256r1_half_order
half_order-IsBytes = omega arith

module _ (r s : List ℕ) (b : IsBytes s) (n : length s ≡ 32) where
  abbrev check : Bool
  check =
      if or_bytes 0 r == 0 || or_bytes 0 s == 0 then false else borrow k_secp256r1_half_order s == 0

  check_sound : check ≡ true → (number r ≢ 0) × (number s ≢ 0) × (number s ≤ order / 2)
  check_sound h = (
    ground (arith, (or_bytes-number r).1),
    ground (arith, (or_bytes-number s).1),
    ground (arith, half_order, borrow_lem k_secp256r1_half_order s half_order-IsBytes b (sym n)),
  )

  check_complete : number r ≢ 0 → number s ≢ 0 → number s ≤ order / 2 → check ≡ true
  check_complete p q h = ground (
    arith,
    (or_bytes-number r).0,
    (or_bytes-number s).0,
    half_order,
    borrow_lem k_secp256r1_half_order s half_order-IsBytes b (sym n),
  )

-- A signature of 64 bytes is taken for canonical exactly if neither number is 0 and the second one
-- is at most half the group's order.
pub canonical_low_s_iff :
    (sig : List ℕ)
    → length sig ≡ 64
    → IsBytes sig
    → (is_canonical_low_s sig ≡ true) ↔ ((r_of sig ≢ 0) × (s_of sig ≢ 0) × (s_of sig ≤ order / 2))
unfolding is_canonical_low_s
canonical_low_s_iff sig n b =
    let bytes = IsBytes-take 32 (drop 32 sig) (IsBytes-drop 32 sig b) in
    let len : length (take 32 (drop 32 sig)) ≡ 32 =
      omega (arith, length-take 32 (drop 32 sig), length-drop 32 sig, n) in
    (
      check_sound (take 32 sig) (take 32 (drop 32 sig)) bytes len,
      λ h. check_complete (take 32 sig) (take 32 (drop 32 sig)) bytes len h.0 h.1 h.2,
    )
