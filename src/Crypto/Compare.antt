-- ===== src/Crypto/Compare.antt =====
-- The constant-time comparison is equality.
use secure_boot_loader_with.Base.{
  ℕ, zero, suc, ◌^◌, ◌<◌, ◌≡◌, ◌↔◌, refl, List, [], ◌∷◌, bit_or, bit_xor, u8, true, length, arith,
  IsBytes, ==_iff, ◌==◌, subst, replicate,
}
use mathlib.Core.Path.{ap₂}
use secure_boot_loader_with.Base.Or.{bit_or-eq-zero}
use secure_boot_loader_with.Base.Xor.{bit_xor_self, bit_xor-eq-zero, bit_xor-lt}
use secure_boot_loader_with.Crypto.{diff_bytes, crypto_constant_time_equal, or_bytes}

diff_bytes-zero :
    (d : ℕ) (xs ys : List ℕ)
    → IsBytes xs
    → IsBytes ys
    → length xs ≡ length ys
    → diff_bytes d xs ys ≡ 0
    → (d ≡ 0) × (xs ≡ ys)
unfolding diff_bytes
diff_bytes-zero d [] [] p q e h = (h, refl)
diff_bytes-zero d [] (b ∷ ys) p q e h = absurd (omega arith)
diff_bytes-zero d (a ∷ xs) [] p q e h = absurd (omega arith)
diff_bytes-zero d (a ∷ xs) (b ∷ ys) p q e h =
    let rest = diff_bytes-zero (bit_or d (u8 (bit_xor a b))) xs ys p.1 q.1 (omega arith) h in
    let both = bit_or-eq-zero d (u8 (bit_xor a b)) rest.0 in
    let small : bit_xor a b < 2 ^ 8 = bit_xor-lt 8 a b p.0 q.0 in
    (both.0, ap₂ ◌∷◌ (bit_xor-eq-zero a b (omega (arith, both.1))) rest.1)

diff_bytes_self : (xs : List ℕ) → diff_bytes 0 xs xs ≡ 0
unfolding diff_bytes
diff_bytes_self [] = refl
diff_bytes_self (a ∷ xs) = rw (bit_xor_self a) (diff_bytes_self xs)

-- On two buffers of one length the constant-time comparison, which always runs over all bytes,
-- answers true exactly if they are equal.
pub constant_time_equal_iff :
    (xs ys : List ℕ)
    → IsBytes xs
    → IsBytes ys
    → length xs ≡ length ys
    → (crypto_constant_time_equal xs ys ≡ true) ↔ (xs ≡ ys)
unfolding crypto_constant_time_equal
constant_time_equal_iff xs ys p q e = (
  λ h. (diff_bytes-zero 0 xs ys p q e ((==_iff (diff_bytes 0 xs ys) 0).0 h)).1,
  λ same.
      subst (λ (t : List ℕ). (diff_bytes 0 xs t == 0) ≡ true) same
        ((==_iff (diff_bytes 0 xs xs) 0).1 (diff_bytes_self xs)),
)

-- The or of all bytes is 0 exactly if every byte is.
pub or_bytes-zero :
    (acc : ℕ) (bs : List ℕ) → or_bytes acc bs ≡ 0 → (acc ≡ 0) × (bs ≡ replicate (length bs) 0)
unfolding or_bytes
or_bytes-zero acc [] h = (h, refl)
or_bytes-zero acc (b ∷ bs) h =
    let rest = or_bytes-zero (bit_or acc b) bs h in
    let both = bit_or-eq-zero acc b rest.0 in (both.0, ap₂ ◌∷◌ both.1 rest.1)

pub or_bytes_zeros : (n : ℕ) → or_bytes 0 (replicate n 0) ≡ 0
unfolding or_bytes
or_bytes_zeros zero = refl
or_bytes_zeros (suc n) = or_bytes_zeros n
