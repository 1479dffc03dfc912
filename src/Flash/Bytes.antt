-- ===== src/Flash/Bytes.antt =====
-- Reading runs of bytes.
use secure_boot_loader_with.Base.{
  dec_lt, subst, [], ℕ, zero, suc, ◌+◌, ◌^◌, ◌<◌, ◌≤◌, ◌≡◌, refl, ap, ◌∙◌, List, ◌∷◌, ◌++◌, u32,
  length, arith, IsBytes, replicate,
}
use secure_boot_loader_with.Flash.{bytes_from}

pub length-bytes_from : (get : ℕ → ℕ) (a n : ℕ) → length (bytes_from get a n) ≡ n
unfolding bytes_from
length-bytes_from get a zero = refl
length-bytes_from get a (suc n) = ap suc (length-bytes_from get (a + 1) n)

pub bytes_from-IsBytes :
    (get : ℕ → ℕ) → ((x : ℕ) → get x < 2 ^ 8) → (a n : ℕ) → IsBytes (bytes_from get a n)
unfolding bytes_from
bytes_from-IsBytes get h a zero = tt
bytes_from-IsBytes get h a (suc n) = (h (u32 a), bytes_from-IsBytes get h (a + 1) n)

-- A run is read in two parts.
pub bytes_from-add :
    (get : ℕ → ℕ) (a n m k : ℕ)
    → n + m ≡ k
    → bytes_from get a k ≡ bytes_from get a n ++ bytes_from get (a + n) m
unfolding bytes_from
bytes_from-add get a zero m k e =
    ap (λ (t : ℕ). bytes_from get a t) (omega arith)
    ∙ ap (λ (t : ℕ). bytes_from get t m) {y = a + 0} (omega arith)
bytes_from-add get a (suc n) m zero e = absurd (omega arith)
bytes_from-add get a (suc n) m (suc k) e =
    ap (λ (t : List ℕ). get (u32 a) ∷ t)
      (bytes_from-add get (a + 1) n m k (omega arith)
        ∙ ap (λ (t : ℕ). bytes_from get (a + 1) n ++ bytes_from get t m) {y = a + suc n}
            (omega arith))

-- Two memories that agree on a range read alike there.
pub bytes_from-eq :
    (f g : ℕ → ℕ) (a n : ℕ)
    → a + n ≤ 2 ^ 32
    → ((x : ℕ) → a ≤ x → x < a + n → f x ≡ g x)
    → bytes_from f a n ≡ bytes_from g a n
unfolding bytes_from
bytes_from-eq f g a zero h same = refl
bytes_from-eq f g a (suc n) h same = rw (same (u32 a) (omega arith) (omega arith)) (
    ap (λ (t : List ℕ). g (u32 a) ∷ t)
      (bytes_from-eq f g (a + 1) n (omega arith) (λ x p q. same x (omega arith) (omega arith))))

-- The byte at an address inside a run.
pub bytes_from-replicate :
    (f : ℕ → ℕ) (a n v : ℕ)
    → a + n ≤ 2 ^ 32
    → ((x : ℕ) → a ≤ x → x < a + n → f x ≡ v)
    → bytes_from f a n ≡ replicate n v
unfolding bytes_from
bytes_from-replicate f a zero v h same = refl
bytes_from-replicate f a (suc n) v h same = rw (same (u32 a) (omega arith) (omega arith)) (
    ap (λ (t : List ℕ). v ∷ t)
      (bytes_from-replicate f (a + 1) n v (omega arith)
        (λ x p q. same x (omega arith) (omega arith))))

head_or : List ℕ → ℕ
head_or [] = 0
head_or (x ∷ xs) = x

tail_of : List ℕ → List ℕ
tail_of [] = []
tail_of (x ∷ xs) = xs

-- Two runs that are the same have the same bytes.
pub bytes_from-pointwise :
    (f g : ℕ → ℕ) (a n x : ℕ)
    → a + n ≤ 2 ^ 32
    → bytes_from f a n ≡ bytes_from g a n
    → a ≤ x
    → x < a + n
    → f x ≡ g x
unfolding bytes_from head_or tail_of
bytes_from-pointwise f g a zero x h e lo hi = absurd (omega arith)
bytes_from-pointwise f g a (suc n) x h e lo hi = elim (dec_lt a x) [
  | yes more ↦
      bytes_from-pointwise f g (a + 1) n x (omega arith) (ap tail_of e) (omega arith) (omega arith)
  | no here ↦ subst (λ (t : ℕ). f t ≡ g t) {x = u32 a} {y = x} (omega arith) (ap head_or e)
]
