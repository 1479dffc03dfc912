-- ===== src/FirmwareFormat/Layout.antt =====
-- The header overlays the bytes that it was read from.
use mathlib.Core.Path.{ap₂}
use native.Mathlib.Nat.{suc-add}
use secure_boot_loader_with.Base.{
  ℕ, zero, suc, ◌+◌, ◌^◌, ◌<◌, ◌≤◌, ◌≡◌, refl, ap, ◌∙◌, sym, List, [], ◌∷◌, ◌++◌, of_le32, le32,
  get_or, take, drop, length, take-append-drop, arith, IsBytes,
}
use secure_boot_loader_with.FirmwareFormat.{word_at, header_of, header_bytes}

pub word_bytes :
    (a b c d : ℕ)
    → a < 2 ^ 8
    → b < 2 ^ 8
    → c < 2 ^ 8
    → d < 2 ^ 8
    → le32 (of_le32 a b c d) ≡ a ∷ b ∷ c ∷ d ∷ []
word_bytes a b c d p q r s =
    ap₂ ◌∷◌ (omega arith)
      (ap₂ ◌∷◌ (omega arith) (ap₂ ◌∷◌ (omega arith) (ap (λ (t : ℕ). t ∷ []) (omega arith))))

le32-word_at :
    (bs : List ℕ) (i : ℕ)
    → IsBytes bs
    → i + 4 ≤ length bs
    → le32 (word_at bs i) ≡ take 4 (drop i bs)
le32-word_at [] i b h = absurd (omega arith)
le32-word_at (x ∷ bs) (suc i) b h = simp suc-add (le32-word_at bs i b.1 (omega arith))
le32-word_at (x ∷ []) zero b h = absurd (omega arith)
le32-word_at (x ∷ y ∷ []) zero b h = absurd (omega arith)
le32-word_at (x ∷ y ∷ z ∷ []) zero b h = absurd (omega arith)
le32-word_at (x ∷ y ∷ z ∷ w ∷ bs) zero b h = word_bytes x y z w b.0 b.1.0 b.1.1.0 b.1.1.1.0

drop-add : (m n k : ℕ) (bs : List ℕ) → m + n ≡ k → drop n (drop m bs) ≡ drop k bs
drop-add zero n k bs e = ap (λ (t : ℕ). drop t bs) (omega arith)
drop-add (suc m) n zero bs e = absurd (omega arith)
drop-add (suc m) zero (suc k) [] e = refl
drop-add (suc m) (suc n) (suc k) [] e = refl
drop-add (suc m) n (suc k) (b ∷ bs) e = drop-add m n k bs (omega arith)

glue : (m n k : ℕ) (bs : List ℕ) → m + n ≡ k → take n (drop m bs) ++ drop k bs ≡ drop m bs
glue m n k bs e =
    ap (λ (t : List ℕ). take n (drop m bs) ++ t) (sym (drop-add m n k bs e))
    ∙ take-append-drop n (drop m bs)

-- A word read at offset `i` and put back in front of the bytes behind it.
word_glue :
    (i k : ℕ) (bs : List ℕ)
    → IsBytes bs
    → i + 4 ≡ k
    → k ≤ length bs
    → le32 (word_at bs i) ++ drop k bs ≡ drop i bs
word_glue i k bs b e h =
    ap (λ (t : List ℕ). t ++ drop k bs) (le32-word_at bs i b (omega arith)) ∙ glue i 4 k bs e

-- The header's bytes in memory are the bytes that it was read from.
pub header_bytes-header_of :
    (bs : List ℕ) → IsBytes bs → length bs ≡ 512 → header_bytes (header_of bs) ≡ bs
unfolding header_bytes header_of
header_bytes-header_of bs b n = rw (
  glue 20 64 84 bs (omega arith),
  word_glue 16 20 bs b (omega arith) (omega arith),
  word_glue 12 16 bs b (omega arith) (omega arith),
  word_glue 8 12 bs b (omega arith) (omega arith),
  word_glue 4 8 bs b (omega arith) (omega arith),
  word_glue 0 4 bs b (omega arith) (omega arith),
)

pub get_or-lt : (bs : List ℕ) (i : ℕ) → IsBytes bs → get_or bs i 0 < 2 ^ 8
get_or-lt [] i b = omega arith
get_or-lt (x ∷ bs) zero b = b.0
get_or-lt (x ∷ bs) (suc i) b = get_or-lt bs i b.1

-- A field of a header is a 32-bit word.
pub word_at-lt : (bs : List ℕ) (i : ℕ) → IsBytes bs → word_at bs i < 2 ^ 32
word_at-lt bs i b = omega (
  arith,
  get_or-lt bs i b,
  get_or-lt bs (i + 1) b,
  get_or-lt bs (i + 2) b,
  get_or-lt bs (i + 3) b,
)
