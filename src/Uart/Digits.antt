-- ===== src/Uart/Digits.antt =====
-- The numbers that bootloader/src/uart.c prints: when they fit the buffer, and that they read back as
-- what they are.
use secure_boot_loader_with.Base.{
  ℕ, zero, suc, ◌+◌, ◌-◌, ◌*◌, ◌/◌, ◌%◌, ◌^◌, ◌≤◌, ◌<◌, ◌≡◌, ◌⊎◌, ◌↔◌, inl, inr, refl, ap, ◌∙◌, sym,
  subst, arith, Bool, true, false, ltb, ◌==◌, if◌then◌else◌, List, [], ◌∷◌, ◌++◌, length, replicate,
  Bool-cases, append_assoc, append-nil,
}
use secure_boot_loader_with.Uart.{digit_char, digit_loop, digit_buf, emit, log_print_uint}

-- The bases that the log uses.
abbrev pub IsLogBase : ℕ → Type 0
IsLogBase base = (base ≡ 10) ⊎ (base ≡ 16)

-- What a reader takes a character for: a digit, or a letter from A or a on.
unfoldable pub digit_of : ℕ → ℕ
digit_of c = if ltb c 0x3A then c - 0x30 else if ltb c 0x61 then c - 0x41 + 10 else c - 0x61 + 10

-- The number that a text in a base is, highest digit first.
unfoldable pub read_number : ℕ → ℕ → List ℕ → ℕ
read_number base acc [] = acc
read_number base acc (c ∷ cs) = read_number base (acc * base + digit_of c) cs

digit_lem : (d : ℕ) (upper : Bool) → d < 16 → digit_of (digit_char d upper) ≡ d
unfolding digit_of digit_char
digit_lem d true h = ground arith
digit_lem d false h = ground arith

read-append :
    (base acc : ℕ) (xs : List ℕ) (c : ℕ)
    → read_number base acc (xs ++ (c ∷ [])) ≡ read_number base acc xs * base + digit_of c
unfolding read_number
read-append base acc [] c = refl
read-append base acc (x ∷ xs) c = read-append base (acc * base + digit_of x) xs c

-- The digits of the buffer read back as the number, if they are enough for it.
limit : ℕ → ℕ → ℕ
limit base zero = 1
limit base (suc n) = base * limit base n

-- Division by a base of the log.
base_division :
    (v base most : ℕ)
    → IsLogBase base
    → (v % base < 16) × ((v / base) * base + v % base ≡ v) × ((v < base * most) → v / base < most)
base_division v base most (inl e) =
    subst (λ (t : ℕ). (v % t < 16) × ((v / t) * t + v % t ≡ v) × ((v < t * most) → v / t < most))
      (sym e) (omega arith, omega arith, λ h. omega arith)
base_division v base most (inr e) =
    subst (λ (t : ℕ). (v % t < 16) × ((v / t) * t + v % t ≡ v) × ((v < t * most) → v / t < most))
      (sym e) (omega arith, omega arith, λ h. omega arith)

loop_value :
    (n v base : ℕ) (upper : Bool)
    → IsLogBase base
    → v < limit base n
    → read_number base 0 (emit (digit_loop n v base upper)) ≡ v
unfolding read_number emit digit_loop limit
loop_value zero v base upper b h = omega arith
loop_value (suc n) v base upper b h = elim (Bool-cases (ltb 0 v)) [
  | inr e ↦ rw e (ground arith)
  | inl e ↦
      let (small, whole, less) = base_division v base (limit base n) b in
      rw e (
        read-append base 0 (emit (digit_loop n (v / base) base upper)) (digit_char (v % base) upper)
        ∙ rw (loop_value n (v / base) base upper b (less h), digit_lem (v % base) upper small)
            whole)
]

loop_short :
    (n k v base : ℕ) (upper : Bool)
    → IsLogBase base
    → v < limit base k
    → length (digit_loop n v base upper) ≤ k
unfolding digit_loop limit
loop_short zero k v base upper b h = omega arith
loop_short (suc n) zero v base upper b h = ground arith
loop_short (suc n) (suc k) v base upper b h = elim (Bool-cases (ltb 0 v)) [
  | inr e ↦ rw e (omega arith)
  | inl e ↦
      let (_, _, less) = base_division v base (limit base k) b in
      rw e (omega (arith, loop_short n k (v / base) base upper b (less h)))
]

loop_nonempty : (n v base : ℕ) (upper : Bool) → 0 < v → 0 < length (digit_loop (suc n) v base upper)
unfolding digit_loop
loop_nonempty n v base upper h = ground arith

length-pad : (n c : ℕ) → length (replicate n c) ≡ n
length-pad zero c = refl
length-pad (suc n) c = ap suc (length-pad n c)

pub length-join : (xs ys : List ℕ) → length (xs ++ ys) ≡ length xs + length ys
length-join [] ys = omega arith
length-join (x ∷ xs) ys = omega (arith, length-join xs ys)

limit_lem : (v base : ℕ) → IsLogBase base → v < 2 ^ 32 → (v < limit base 10) × (v < limit base 32)
unfolding limit
limit_lem v base (inl e) h = rw e (omega arith, omega arith)
limit_lem v base (inr e) h = rw e (omega arith, omega arith)

-- The buffer before the padding.
abbrev digits : ℕ → ℕ → Bool → List ℕ
digits v base upper = if v == 0 then 0x30 ∷ [] else digit_loop 32 v base upper

digits-short :
    (v base : ℕ) (upper : Bool)
    → IsLogBase base
    → v < 2 ^ 32
    → (0 < length (digits v base upper)) × (length (digits v base upper) ≤ 10)
digits-short v base upper b h = elim (Bool-cases (v == 0)) [
  | inl e ↦ rw e (omega arith, omega arith)
  | inr e ↦ rw e (
    loop_nonempty 31 v base upper (ground arith),
    loop_short 32 10 v base upper b (limit_lem v base b h).0,
  )
]

digits_value :
    (v base : ℕ) (upper : Bool)
    → IsLogBase base
    → v < 2 ^ 32
    → read_number base 0 (emit (digits v base upper)) ≡ v
unfolding read_number emit digit_of
digits_value v base upper b h = elim (Bool-cases (v == 0)) [
  | inl e ↦ rw e (ground arith)
  | inr e ↦ rw e (loop_value 32 v base upper b (limit_lem v base b h).1)
]

emit-append : (xs ys : List ℕ) → emit (xs ++ ys) ≡ emit ys ++ emit xs
unfolding emit
emit-append [] ys = sym (append-nil (emit ys))
emit-append (x ∷ xs) ys =
    ap (λ (t : List ℕ). t ++ (x ∷ [])) (emit-append xs ys)
    ∙ append_assoc (emit ys) (emit xs) (x ∷ [])

-- Zeros in front do not count.
zeros_read :
    (n base : ℕ) (zs : List ℕ)
    → read_number base 0 (emit (replicate n 0x30) ++ zs) ≡ read_number base 0 zs
unfolding read_number emit digit_of
zeros_read zero base zs = refl
zeros_read (suc n) base zs =
    ap (λ (t : List ℕ). read_number base 0 t)
      (append_assoc (emit (replicate n 0x30)) (0x30 ∷ []) zs)
    ∙ zeros_read n base (0x30 ∷ zs)
    ∙ ap (λ (t : ℕ). read_number base t zs) {x = 0 * base + 0} {y = 0} (omega arith)

-- Of a number of 32 bits in base 10 or 16, what is written to the buffer fits its 32 entries exactly
-- if the minimum width is at most 32: the code does not bound the padding. At least one entry and
-- the minimum width are written, and without padding at most 10.
pub digit_buf_fits :
    (v base min_width : ℕ) (upper : Bool)
    → IsLogBase base
    → v < 2 ^ 32
    → ((length (digit_buf v base min_width upper) ≤ 32) ↔ (min_width ≤ 32))
      × (0 < length (digit_buf v base min_width upper))
      × (min_width ≤ length (digit_buf v base min_width upper))
      × (length (digit_buf v base 0 upper) ≤ 10)
unfolding digit_buf
digit_buf_fits v base min_width upper b h =
    let (some_digit, few) = digits-short v base upper b h in
    let padded =
      length-join (digits v base upper)
        (replicate (min_width - length (digits v base upper)) 0x30) in
    let plain =
      length-join (digits v base upper) (replicate (0 - length (digits v base upper)) 0x30) in
    let pad = length-pad (min_width - length (digits v base upper)) 0x30 in
    let none = length-pad (0 - length (digits v base upper)) 0x30 in
    (
      (λ fits. omega (arith, padded, pad), λ w. omega (arith, padded, pad, few)),
      omega (arith, padded, pad, some_digit),
      omega (arith, padded, pad),
      omega (arith, plain, none, few),
    )

-- A number of 32 bits that is printed in base 10 or 16, at any width and in either case of the
-- letters, reads back as itself.
pub read_number-log_print_uint :
    (v base min_width : ℕ) (upper : Bool)
    → IsLogBase base
    → v < 2 ^ 32
    → read_number base 0 (log_print_uint v base min_width upper) ≡ v
unfolding log_print_uint digit_buf
read_number-log_print_uint v base min_width upper b h =
    let pad : ℕ = min_width - length (digits v base upper) in
    ap (λ (t : List ℕ). read_number base 0 t)
      (emit-append (digits v base upper) (replicate pad 0x30))
    ∙ zeros_read pad base (emit (digits v base upper))
    ∙ digits_value v base upper b h

pub length-emit : (xs : List ℕ) → length (emit xs) ≡ length xs
unfolding emit
length-emit [] = refl
length-emit (x ∷ xs) = length-join (emit xs) (x ∷ []) ∙ omega (arith, length-emit xs)

-- A byte has two digits in hexadecimal.
pub digit_buf-two : (v : ℕ) → v < 2 ^ 8 → length (digit_buf v 16 2 false) ≡ 2
unfolding digit_buf limit
digit_buf-two v h =
    let few : length (digits v 16 false) ≤ 2 = elim (Bool-cases (v == 0)) [
      | inl e ↦ rw e (omega arith)
      | inr e ↦ rw e (loop_short 32 2 v 16 false (inr refl) (omega arith))
    ] in
    omega (
      arith,
      few,
      length-join (digits v 16 false) (replicate (2 - length (digits v 16 false)) 0x30),
      length-pad (2 - length (digits v 16 false)) 0x30,
    )
