-- ===== src/OtaClient.antt =====
-- bootloader/src/ota_client.c and the receive functions of bootloader/src/uart.c: the frames of
-- the update protocol.
pub mod Wire
pub mod Session
pub mod Transfer
pub mod Erase
pub mod Receive
mod Tests
use secure_boot_loader_with.Base.{
  ℕ, zero, suc, ◌+◌, ◌≤◌, ◌<◌, ◌^◌, ◌≡◌, List, [], ◌∷◌, ◌++◌, Option, none, some, Bool, true, false,
  ltb, ◌==◌, if◌then◌else◌, length, get_or, take, drop, le16, le32, of_le16, of_le32, IsBytes,
}
use secure_boot_loader_with.Crc32.{crc32, crc32_init, crc32_update, crc32_finalize}

abbrev pub ota_frame_soh : ℕ
ota_frame_soh = 0x01

abbrev pub ota_max_payload : ℕ
ota_max_payload = 1024

-- What the calls of `uart_ota_getc` will find: a byte, or nothing before the timeout. Behind the
-- last element nothing more arrives: a host that sends for ever is not represented.
abbrev pub Input : Type 0
Input = List (Option ℕ)

unfoldable pub uart_ota_getc : Input → Option ℕ × Input
uart_ota_getc [] = (none, [])
uart_ota_getc (b ∷ input) = (b, input)

-- The bytes that arrived before the first timeout, `n` at most.
unfoldable pub uart_ota_read : ℕ → Input → List ℕ × Input
uart_ota_read zero input = ([], input)
uart_ota_read (suc n) [] = ([], [])
uart_ota_read (suc n) (none ∷ input) = ([], input)
uart_ota_read (suc n) (some b ∷ input) =
    let (bytes, rest) = uart_ota_read n input in (b ∷ bytes, rest)

-- `ota_frame_t`, with the `len` bytes of `data` that are used.
pub record OtaFrame : Type 0 where
  pub op : ℕ  -- uint8_t
  pub seq : ℕ  -- uint16_t
  pub len : ℕ  -- uint16_t
  pub data_bytes : List ℕ

-- `frame_status_t`, with the frame where there is one.
pub data FrameStatus : Type 0 where
  frame_ok : OtaFrame → FrameStatus
  frame_timeout frame_crc_bad frame_too_big frame_bad_soh : FrameStatus

abbrev pub rd_u16_le : List ℕ → ℕ → ℕ
rd_u16_le bs i = of_le16 (get_or bs i 0) (get_or bs (i + 1) 0)

-- The end of `read_frame`: the checksum over the header and the data.
unfoldable pub check_frame : List ℕ → OtaFrame → List ℕ → FrameStatus
check_frame hdr frame crc_buf =
    let crc_rx : ℕ =
      of_le32 (get_or crc_buf 0 0) (get_or crc_buf 1 0) (get_or crc_buf 2 0) (get_or crc_buf 3 0) in
    let crc_hdr : ℕ = crc32_update crc32_init hdr in
    let crc : ℕ = if frame.len == 0 then crc_hdr else crc32_update crc_hdr frame.data_bytes in
    if crc32_finalize crc == crc_rx then frame_ok frame else frame_crc_bad

-- What follows the data.
unfoldable pub read_crc : List ℕ → OtaFrame → Input → FrameStatus × Input
read_crc hdr frame input =
    let (crc_buf, rest) = uart_ota_read 4 input in
    if length crc_buf == 4 then (check_frame hdr frame crc_buf, rest) else (frame_timeout, rest)

-- What follows the header.
unfoldable pub read_data : List ℕ → Input → FrameStatus × Input
read_data hdr input =
    let len : ℕ = rd_u16_le hdr 3 in
    let (bytes, rest) = uart_ota_read len input in
    let frame : OtaFrame = record {
      op = get_or hdr 0 0;
      seq = rd_u16_le hdr 1;
      len = len;
      data_bytes = bytes;
    } in
    if ltb ota_max_payload len
    then (frame_too_big, input)
    else if length bytes == len
    then read_crc hdr frame rest
    else (frame_timeout, rest)

-- What follows the start byte.
unfoldable pub read_header : Input → FrameStatus × Input
read_header input =
    let (hdr, rest) = uart_ota_read 5 input in
    if length hdr == 5 then read_data hdr rest else (frame_timeout, rest)

-- The search for the start byte, and the frame behind it.
unfoldable pub read_frame : Input → FrameStatus × Input
read_frame [] = (frame_timeout, [])
read_frame (none ∷ input) = (frame_timeout, input)
read_frame (some b ∷ input) =
    let later : FrameStatus × Input = read_frame input in
    if b == ota_frame_soh then read_header input else later
