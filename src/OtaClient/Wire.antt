-- ===== src/OtaClient/Wire.antt =====
-- Frames on the wire, as bootloader/include/ota_client.h lays them out, and what `read_frame` makes
-- of them.
use secure_boot_loader_with.Base.{
  ℕ, suc, ◌≤◌, ◌<◌, ◌^◌, ◌≡◌, ◌≢◌, refl, ap, ◌∙◌, sym, List, [], ◌∷◌, ◌++◌, some, false, arith, ltb,
  ◌==◌, if◌then◌else◌, length, le16, le32, IsBytes, Bool-cases, ==_iff, inl, inr, of_le32-le32,
  of_le16-le16,
}
use secure_boot_loader_with.Crc32.{crc32, crc32_init, crc32_update, crc32_finalize}
use secure_boot_loader_with.Crc32.Laws.{crc32_update-append, crc32-lt}
use secure_boot_loader_with.Crc32.Detect.{crc32_detects_byte}
use secure_boot_loader_with.OtaClient.{
  Input, OtaFrame, FrameStatus, frame_ok, frame_crc_bad, ota_frame_soh, ota_max_payload,
  uart_ota_read, check_frame, read_crc, read_data, read_header, read_frame,
}

-- The bytes of a list arriving one after the other, and then the rest.
unfoldable pub arriving : List ℕ → Input → Input
arriving [] rest = rest
arriving (b ∷ bs) rest = some b ∷ arriving bs rest

arriving-append :
    (xs ys : List ℕ) (rest : Input) → arriving (xs ++ ys) rest ≡ arriving xs (arriving ys rest)
unfolding arriving
arriving-append [] ys rest = refl
arriving-append (x ∷ xs) ys rest = ap (λ (t : Input). some x ∷ t) (arriving-append xs ys rest)

read-arriving :
    (bs : List ℕ) (rest : Input) → uart_ota_read (length bs) (arriving bs rest) ≡ (bs, rest)
unfolding arriving uart_ota_read
read-arriving [] rest = refl
read-arriving (b ∷ bs) rest = rw (read-arriving bs rest) refl

-- The fields of a frame fit their types, and the data is as long as the frame says.
pub record IsFrame (f : OtaFrame) : Type 0 where
  pub op_byte : f.op < 2 ^ 8
  pub seq_word : f.seq < 2 ^ 16
  pub data_len : length f.data_bytes ≡ f.len
  pub fits : f.len ≤ ota_max_payload
  pub data_ok : IsBytes f.data_bytes

-- The length that every frame has that was read.
abbrev pub HasLength : OtaFrame → Type 0
HasLength f = (length f.data_bytes ≡ f.len) × (f.len ≤ ota_max_payload)

abbrev pub header_bytes : OtaFrame → List ℕ
header_bytes f = f.op ∷ (le16 f.seq ++ le16 f.len)

-- OP || SEQ || LEN || DATA, which the checksum covers.
abbrev pub covered : OtaFrame → List ℕ
covered f = header_bytes f ++ f.data_bytes

-- What follows the start byte, with any checksum.
abbrev pub behind_soh : OtaFrame → ℕ → Input → Input
behind_soh f crc rest = arriving (header_bytes f) (arriving f.data_bytes (arriving (le32 crc) rest))

length-zero : (xs : List ℕ) → length xs ≡ 0 → xs ≡ []
length-zero [] h = refl
length-zero (x ∷ xs) h = absurd (omega arith)

crc_covers :
    (f : OtaFrame)
    → IsFrame f
    → crc32_finalize (
        if f.len == 0
        then crc32_update crc32_init (header_bytes f)
        else crc32_update (crc32_update crc32_init (header_bytes f)) f.data_bytes)
      ≡ crc32 (covered f)
unfolding crc32
crc_covers f h = elim (Bool-cases (f.len == 0)) [
  | inl e ↦ rw e (
      ap (λ (t : List ℕ). crc32_finalize (crc32_update crc32_init (header_bytes f ++ t)))
        (sym (length-zero f.data_bytes (h.data_len ∙ (==_iff f.len 0).0 e))))
  | inr e ↦
      rw e (ap crc32_finalize (sym (crc32_update-append crc32_init (header_bytes f) f.data_bytes)))
]

check_lem :
    (f : OtaFrame) (crc : ℕ)
    → IsFrame f
    → crc < 2 ^ 32
    → check_frame (header_bytes f) f (le32 crc)
      ≡ (if crc32 (covered f) == crc then frame_ok f else frame_crc_bad)
unfolding check_frame
check_lem f crc h c = rw (crc_covers f h, of_le32-le32 crc c) refl

read_crc_lem :
    (hdr : List ℕ) (f : OtaFrame) (crc : ℕ) (rest : Input)
    → read_crc hdr f (arriving (le32 crc) rest) ≡ (check_frame hdr f (le32 crc), rest)
unfolding read_crc uart_ota_read arriving
read_crc_lem hdr f crc rest = refl

read_data_lem :
    (f : OtaFrame) (crc : ℕ) (rest : Input)
    → IsFrame f
    → read_data (header_bytes f) (arriving f.data_bytes (arriving (le32 crc) rest))
      ≡ (check_frame (header_bytes f) f (le32 crc), rest)
unfolding read_data
read_data_lem f crc rest h =
    rw
      (
        of_le16-le16 f.len (omega (arith, h.fits)),
        of_le16-le16 f.seq h.seq_word,
        fits,
        got,
        (==_iff (length f.data_bytes) f.len).1 h.data_len,
      )
      (read_crc_lem (header_bytes f) f crc rest)
  where
    fits : ltb ota_max_payload f.len ≡ false
    fits = ground (arith, h.fits)

    got :
        uart_ota_read f.len (arriving f.data_bytes (arriving (le32 crc) rest))
        ≡ (f.data_bytes, arriving (le32 crc) rest)
    got =
        ap (λ (n : ℕ). uart_ota_read n (arriving f.data_bytes (arriving (le32 crc) rest)))
          (sym h.data_len)
        ∙ read-arriving f.data_bytes (arriving (le32 crc) rest)

header_lem :
    (f : OtaFrame) (crc : ℕ) (rest : Input)
    → IsFrame f
    → crc < 2 ^ 32
    → read_header (behind_soh f crc rest)
      ≡ (if crc32 (covered f) == crc then frame_ok f else frame_crc_bad, rest)
unfolding read_header uart_ota_read arriving
header_lem f crc rest h c =
    read_data_lem f crc rest h ∙ ap (λ (t : FrameStatus). (t, rest)) (check_lem f crc h c)

-- No byte is the start byte.
abbrev pub IsNoise : List ℕ → Type 0
IsNoise [] = Unit {0}
IsNoise (b ∷ bs) = (b ≢ ota_frame_soh) × IsNoise bs

-- Noise in front of anything is dropped, however long it is.
pub read_frame-noise :
    (noise : List ℕ) (input : Input)
    → IsNoise noise
    → read_frame (arriving noise input) ≡ read_frame input
unfolding read_frame arriving
read_frame-noise [] input n = refl
read_frame-noise (b ∷ noise) input n =
    let other : (b == ota_frame_soh) ≡ false = ground (arith, n.0) in
    rw other (read_frame-noise noise input n.1)

-- A frame on the wire with any checksum.
abbrev pub on_wire : OtaFrame → ℕ → List ℕ
on_wire f crc = ota_frame_soh ∷ (covered f ++ le32 crc)

-- Behind any noise without a start byte, a frame on the wire is read as what was sent if its
-- checksum is right, and reported as damaged otherwise; either way exactly its bytes are used up.
pub read_frame-on_wire :
    (noise : List ℕ) (f : OtaFrame) (crc : ℕ) (rest : Input)
    → IsNoise noise
    → IsFrame f
    → crc < 2 ^ 32
    → read_frame (arriving (noise ++ on_wire f crc) rest)
      ≡ (if crc32 (covered f) == crc then frame_ok f else frame_crc_bad, rest)
unfolding read_frame arriving
read_frame-on_wire [] f crc rest n h c =
    ap (λ (t : Input). read_header (arriving (header_bytes f) t))
      (arriving-append f.data_bytes (le32 crc) rest)
    ∙ header_lem f crc rest h c
read_frame-on_wire (b ∷ noise) f crc rest n h c =
    rw (other) (read_frame-on_wire noise f crc rest n.1 h c)
  where
    other : (b == ota_frame_soh) ≡ false
    other = ground (arith, n.0)

IsBytes-parts :
    (xs ys : List ℕ) (a : ℕ) → IsBytes (xs ++ (a ∷ ys)) → IsBytes xs × (a < 2 ^ 8) × IsBytes ys
IsBytes-parts [] ys a h = (tt, h.0, h.1)
IsBytes-parts (x ∷ xs) ys a h = let (p, q, r) = IsBytes-parts xs ys a h.1 in ((h.0, p), q, r)

IsBytes-join :
    (xs ys : List ℕ) (b : ℕ) → IsBytes xs → b < 2 ^ 8 → IsBytes ys → IsBytes (xs ++ (b ∷ ys))
IsBytes-join [] ys b p q r = (q, r)
IsBytes-join (x ∷ xs) ys b p q r = (p.0, IsBytes-join xs ys b p.1 q r)

pub header_ok :
    (f : OtaFrame) (bs : List ℕ) → f.op < 2 ^ 8 → IsBytes bs → IsBytes (header_bytes f ++ bs)
header_ok f bs o h = (o, (omega arith, (omega arith, (omega arith, (omega arith, h)))))

length-changed : (xs ys : List ℕ) (a b : ℕ) → length (xs ++ (b ∷ ys)) ≡ length (xs ++ (a ∷ ys))
length-changed [] ys a b = refl
length-changed (x ∷ xs) ys a b = ap suc (length-changed xs ys a b)

-- A frame of which one byte of the data was changed on the wire, checksum and all else intact, is
-- reported as damaged.
pub read_frame_detects :
    (noise : List ℕ) (f : OtaFrame) (xs ys : List ℕ) (a b : ℕ) (rest : Input)
    → IsNoise noise
    → IsFrame (record f { data_bytes = xs ++ (a ∷ ys) })
    → b < 2 ^ 8
    → a ≢ b
    → read_frame (
        arriving
          (noise
            ++ on_wire
                (record f { data_bytes = xs ++ (b ∷ ys) })
                (crc32 (covered (record f { data_bytes = xs ++ (a ∷ ys) }))))
          rest)
      ≡ (frame_crc_bad, rest)
read_frame_detects noise f xs ys a b rest n h hb ne =
    read_frame-on_wire noise (with_byte b) (crc32 (covered (with_byte a))) rest n changed
      (crc32-lt (covered (with_byte a)) (header_ok f (xs ++ (a ∷ ys)) h.op_byte h.data_ok))
    ∙ rw differs refl
  where
    with_byte : ℕ → OtaFrame
    with_byte x = record f { data_bytes = xs ++ (x ∷ ys) }

    changed : IsFrame (with_byte b)
    changed =
        let (p, q, r) = IsBytes-parts xs ys a h.data_ok in
        record {
          op_byte = h.op_byte;
          seq_word = h.seq_word;
          data_len = length-changed xs ys a b ∙ h.data_len;
          fits = h.fits;
          data_ok = IsBytes-join xs ys b p hb r;
        }

    differs : (crc32 (covered (with_byte b)) == crc32 (covered (with_byte a))) ≡ false
    differs =
        let (p, q, r) = IsBytes-parts xs ys a h.data_ok in
        let ne_crc =
          crc32_detects_byte (header_bytes f ++ xs) b a ys (header_ok f xs h.op_byte p) hb q r
            (λ e. ne (sym e)) in
        ground (arith, ne_crc)
