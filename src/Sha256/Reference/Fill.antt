-- ===== src/Sha256/Reference/Fill.antt =====
-- What the two loops of `sha256_final` write into the block: zeros, and the length at its end.
use secure_boot_loader_with.Base.{
  ℕ, zero, suc, ◌+◌, ◌≤◌, ◌≡◌, refl, ap, ◌∙◌, sym, List, [], ◌∷◌, ◌++◌, length, take, drop, set,
  replicate, take-set, length-set, length-take, length-drop, append_assoc, append-nil, arith,
  set-append, take-append-drop,
}
use secure_boot_loader_with.Sha256.{zero_fill, put_bitlen}
use secure_boot_loader_with.Sha256.Reference.Blocks.{be64}

pub length-zero_fill : (n i : ℕ) (block : List ℕ) → length (zero_fill n i block) ≡ length block
unfolding zero_fill
length-zero_fill zero i block = refl
length-zero_fill (suc n) i block = length-zero_fill n (i + 1) (set block i 0) ∙ length-set block i 0

-- Zeros behind a prefix.
pub take-zero_fill :
    (n i k : ℕ) (block : List ℕ)
    → i + n ≡ k
    → k ≤ length block
    → take k (zero_fill n i block) ≡ take i block ++ replicate n 0
unfolding zero_fill
take-zero_fill zero i k block e h =
    ap (λ (t : ℕ). take t block) (omega arith) ∙ sym (append-nil (take i block))
take-zero_fill (suc n) i k block e h =
    take-zero_fill n (i + 1) k (set block i 0) (omega arith) (omega (arith, length-set block i 0))
    ∙ ap (λ (t : List ℕ). t ++ replicate n 0) grown
    ∙ append_assoc (take i block) (0 ∷ []) (replicate n 0)
  where
    grown : take (i + 1) (set block i 0) ≡ take i block ++ (0 ∷ [])
    grown =
        ap (λ (t : ℕ). take t (set block i 0)) {y = suc i} (omega arith)
        ∙ take-set i block 0 (omega arith)

-- The last eight bytes of a block, written from the end.
pub put_on_eight :
    (n : ℕ) (xs ys : List ℕ)
    → length xs ≡ 56
    → length ys ≡ 8
    → put_bitlen n (xs ++ ys) ≡ xs ++ be64 n
unfolding put_bitlen
put_on_eight n xs (a ∷ b ∷ c ∷ d ∷ e ∷ f ∷ g ∷ h ∷ []) p q = rw (
  set-append xs _ 63 7 _ (omega (arith, p)),
  set-append xs _ 62 6 _ (omega (arith, p)),
  set-append xs _ 61 5 _ (omega (arith, p)),
  set-append xs _ 60 4 _ (omega (arith, p)),
  set-append xs _ 59 3 _ (omega (arith, p)),
  set-append xs _ 58 2 _ (omega (arith, p)),
  set-append xs _ 57 1 _ (omega (arith, p)),
  set-append xs _ 56 0 _ (omega (arith, p)),
)
put_on_eight n xs _ p q = absurd (omega arith)

pub put_bitlen_lem :
    (n : ℕ) (block : List ℕ) → length block ≡ 64 → put_bitlen n block ≡ take 56 block ++ be64 n
put_bitlen_lem n block h =
    ap (λ (t : List ℕ). put_bitlen n t) (sym (take-append-drop 56 block))
    ∙ put_on_eight n (take 56 block) (drop 56 block) (omega (arith, length-take 56 block))
        (omega (arith, length-drop 56 block))

pub replicate-add : (m n k : ℕ) → m + n ≡ k → replicate {A = ℕ} m 0 ++ replicate n 0 ≡ replicate k 0
replicate-add zero n k e = ap (λ (t : ℕ). replicate t 0) (omega arith)
replicate-add (suc m) n zero e = absurd (omega arith)
replicate-add (suc m) n (suc k) e = ap (λ (t : List ℕ). 0 ∷ t) (replicate-add m n k (omega arith))
