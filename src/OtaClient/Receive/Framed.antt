-- ===== src/OtaClient/Receive/Framed.antt =====
-- What `read_frame` of bootloader/src/ota_client.c hands on.
use secure_boot_loader_with.Base.{
  ℕ, inl, inr, arith, List, [], ◌∷◌, none, some, Bool, true, false, length, ltb, ◌==◌,
  if◌then◌else◌, Bool-cases, get_or, of_le16, ==_iff,
}
use secure_boot_loader_with.OtaClient.{
  Input, FrameStatus, frame_ok, frame_crc_bad, check_frame, uart_ota_read, read_crc, read_data,
  read_header, read_frame, ota_frame_soh, ota_max_payload, OtaFrame,
}
use secure_boot_loader_with.OtaClient.Wire.{HasLength}

-- A frame that is handed on has the length it says.
abbrev pub Framed : FrameStatus → Type 0
Framed (frame_ok f) = HasLength f
Framed _ = Unit {0}

-- The answer of the last test is the frame, or carries none.
verdict-Framed :
    (f : OtaFrame) (b : Bool) → HasLength f → Framed (if b then frame_ok f else frame_crc_bad)
verdict-Framed f true h = h
verdict-Framed f false h = tt

check_frame-Framed :
    (hdr : List ℕ) (f : OtaFrame) (crc_buf : List ℕ)
    → HasLength f
    → Framed (check_frame hdr f crc_buf)
unfolding check_frame
check_frame-Framed hdr f crc_buf h = verdict-Framed f _ h

read_crc-Framed :
    (hdr : List ℕ) (f : OtaFrame) (input : Input) → HasLength f → Framed (read_crc hdr f input).0
unfolding read_crc
read_crc-Framed hdr f input h = elim (Bool-cases (length (uart_ota_read 4 input).0 == 4)) [
  | inr e ↦ rw e tt
  | inl e ↦ rw e (check_frame-Framed hdr f (uart_ota_read 4 input).0 h)
]

read_data-Framed : (hdr : List ℕ) (input : Input) → Framed (read_data hdr input).0
unfolding read_data
read_data-Framed hdr input =
    let len : ℕ = of_le16 (get_or hdr 3 0) (get_or hdr 4 0) in
    let (bytes, rest) = uart_ota_read len input in
    elim (Bool-cases (ltb ota_max_payload len)) [
      | inl big ↦ rw big tt
      | inr fits ↦ elim (Bool-cases (length bytes == len)) [
        | inr short ↦ rw (fits, short) tt
        | inl whole ↦
            rw (fits, whole)
              (read_crc-Framed hdr
                (record {
                  op = get_or hdr 0 0;
                  seq = of_le16 (get_or hdr 1 0) (get_or hdr 2 0);
                  len = len;
                  data_bytes = bytes;
                })
                rest ((==_iff (length bytes) len).0 whole, ground arith))
      ]
    ]

read_header-Framed : (input : Input) → Framed (read_header input).0
unfolding read_header
read_header-Framed input =
    let (hdr, rest) = uart_ota_read 5 input in
    elim (Bool-cases (length hdr == 5)) [
      | inr e ↦ rw e tt
      | inl e ↦ rw e (read_data-Framed hdr rest)
    ]

pub read_frame-Framed : (input : Input) → Framed (read_frame input).0
unfolding read_frame
read_frame-Framed [] = tt
read_frame-Framed (none ∷ input) = tt
read_frame-Framed (some b ∷ input) = elim (Bool-cases (b == ota_frame_soh)) [
  | inl e ↦ rw e (read_header-Framed input)
  | inr e ↦ rw e (read_frame-Framed input)
]
