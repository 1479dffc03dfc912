-- ===== src/BootConfig/Torn.antt =====
-- A record of which only the first bytes stand on flash, as BootConfig/Store/Cut shows a save that
-- loses power to leave it.
use secure_boot_loader_with.Base.{
  ℕ, zero, suc, ◌+◌, ◌-◌, ◌^◌, ◌<◌, ◌≤◌, ◌≡◌, ◌⊎◌, inl, inr, refl, ap, List, [], ◌∷◌, ◌++◌, ◌∙◌,
  sym, subst, dec_lt, ◌>>◌, u8, le32, of_le32, IsBytes, length, get_or, take, replicate, arith,
  true, false,
}
use mathlib.Core.Path.{ap₂}
use mathlib.Core.Bool.{false≢true}
use secure_boot_loader_with.Crc32
use secure_boot_loader_with.BootConfig.{
  BootConfig, IsRecord, body, bytes_of, of_bytes, boot_config_stamp_crc, boot_config_validate,
}
use secure_boot_loader_with.BootConfig.Bytes.{of_bytes-body, stamp_crc-IsRecord}

-- The 24 bytes on flash when the first `k` of a record stand and the rest is erased.
abbrev pub torn : BootConfig → ℕ → List ℕ
torn cfg k = take k (bytes_of cfg) ++ replicate (24 - k) 0xFF

get_or-unwritten :
    (k i n v : ℕ) (xs : List ℕ)
    → k ≤ i
    → i < k + n
    → k ≤ length xs
    → get_or (take k xs ++ replicate n v) i 0 ≡ v
get_or-unwritten zero i zero v xs p q r = absurd (omega arith)
get_or-unwritten zero zero (suc n) v xs p q r = refl
get_or-unwritten zero (suc i) (suc n) v xs p q r =
    get_or-unwritten zero i n v [] (omega arith) (omega arith) (omega arith)
get_or-unwritten (suc k) zero n v xs p q r = absurd (omega arith)
get_or-unwritten (suc k) (suc i) n v [] p q r = absurd (omega arith)
get_or-unwritten (suc k) (suc i) n v (x ∷ xs) p q r =
    get_or-unwritten k i n v xs (omega arith) (omega arith) (omega arith)

-- Before the body is whole, the last byte of the magic is still 0xFF.
pub torn_body_invalid :
    (cfg : BootConfig) (k : ℕ) → k < 20 → boot_config_validate (of_bytes (torn cfg k)) ≡ false
unfolding boot_config_validate
torn_body_invalid cfg k h = ground (
  arith,
  get_or-unwritten k 19 (24 - k) 0xFF (bytes_of cfg) (omega arith) (omega arith) (omega arith),
)

pub last_cuts : (k : ℕ) → 20 ≤ k → k ≤ 24 → (k ≡ 20) ⊎ (k ≡ 21) ⊎ (k ≡ 22) ⊎ (k ≡ 23) ⊎ (k ≡ 24)
last_cuts k p q = ground arith

le32-of_le32 :
    (a b c d : ℕ)
    → a < 2 ^ 8
    → b < 2 ^ 8
    → c < 2 ^ 8
    → d < 2 ^ 8
    → le32 (of_le32 a b c d) ≡ a ∷ b ∷ c ∷ d ∷ []
le32-of_le32 a b c d p q r s =
    ap₂ ◌∷◌ (omega arith)
      (ap₂ ◌∷◌ (omega arith) (ap₂ ◌∷◌ (omega arith) (ap (λ (t : ℕ). t ∷ []) (omega arith))))

module _ (cfg : BootConfig) (h : IsRecord cfg) (stamped : Crc32.crc32 (body cfg) ≡ cfg.crc32) where
  -- Behind a whole body only the right checksum bytes are accepted.
  valid_is_complete :
      (a b c d : ℕ)
      → IsBytes (a ∷ b ∷ c ∷ d ∷ [])
      → boot_config_validate (of_bytes (body cfg ++ (a ∷ b ∷ c ∷ d ∷ []))) ≡ true
      → body cfg ++ (a ∷ b ∷ c ∷ d ∷ []) ≡ bytes_of cfg
  unfolding boot_config_validate
  valid_is_complete a b c d bs v =
      ap (λ (t : List ℕ). body cfg ++ t)
        (sym (le32-of_le32 a b c d bs.0 bs.1.0 bs.1.1.0 bs.1.1.1.0) ∙ ap (λ (w : ℕ). le32 w) word)
    where
      word : of_le32 a b c d ≡ cfg.crc32
      word = ground (arith, of_bytes-body cfg a b c d h)

  torn_tail :
      (k : ℕ)
      → 20 ≤ k
      → k ≤ 24
      → boot_config_validate (of_bytes (torn cfg k)) ≡ true
      → torn cfg k ≡ bytes_of cfg
  torn_tail k p q v = elim (last_cuts k p q) [
    | inl e ↦ subst P (sym e) (valid_is_complete 0xFF 0xFF 0xFF 0xFF (omega arith)) v
    | inr (inl e) ↦ subst P (sym e) (valid_is_complete (u8 w) 0xFF 0xFF 0xFF (omega arith)) v
    | inr (inr (inl e)) ↦
        subst P (sym e) (valid_is_complete (u8 w) (u8 (w >> 8)) 0xFF 0xFF (omega arith)) v
    | inr (inr (inr (inl e))) ↦
        subst P (sym e) (valid_is_complete (u8 w) (u8 (w >> 8)) (u8 (w >> 16)) 0xFF (omega arith)) v
    | inr (inr (inr (inr e))) ↦ subst P (sym e) (λ _. refl) v
  ]
    where
      w : ℕ
      w = cfg.crc32

      P : ℕ → Type 0
      P k = boot_config_validate (of_bytes (torn cfg k)) ≡ true → torn cfg k ≡ bytes_of cfg

-- However many of its bytes stand, the record is complete or not valid.
pub torn_write_atomic :
    (cfg : BootConfig) (k : ℕ)
    → IsRecord cfg
    → k ≤ 24
    → boot_config_validate (of_bytes (torn (boot_config_stamp_crc cfg) k)) ≡ true
    → torn (boot_config_stamp_crc cfg) k ≡ bytes_of (boot_config_stamp_crc cfg)
torn_write_atomic cfg k h q v = elim (dec_lt k 20) [
  | yes p ↦ absurd (false≢true (sym (torn_body_invalid (boot_config_stamp_crc cfg) k p) ∙ v))
  | no p ↦
      torn_tail (boot_config_stamp_crc cfg) (stamp_crc-IsRecord cfg h)
        (unfold boot_config_stamp_crc in refl) k (omega arith) q v
]
