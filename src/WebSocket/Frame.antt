-- ===== src/WebSocket/Frame.antt =====
-- `ws_encode_frame`, `ws_close_frame` and `WSFrame::parse` of src/lib/uri.cpp. Where the source puts
-- a byte below bits that are zero, by `|`, the model adds it.
mod Lengths
pub mod Encode
pub mod Stream
use uce.Base.{
  ℕ, zero, suc, ◌+◌, ◌-◌, ◌*◌, ◌/◌, ◌%◌, ◌^◌, Bool, true, false, List, [], ◌∷◌, ◌++◌, ◌&&◌, not,
  ◌||◌, Option, none, some, Bytes, length, take, drop, leb, ltb, ◌==◌, get_or, if◌then◌else◌,
  bit_and, bit_or, bit_xor,
}

pub record Frame : Type 0 where
  pub opcode : ℕ
  pub is_final_fragment : Bool
  pub mask_bit : Bool
  pub payload_length : ℕ
  pub header_length : ℕ
  pub frame_length : ℕ
  pub payload : Bytes

pub data FrameError : Type 0 where
  non_minimal_length invalid_length reserved_bits control_too_long : FrameError

-- `parse` returns `false` with no error, `false` with an error, or `true`.
pub data Outcome : Type 0 where
  incomplete : Outcome
  invalid : FrameError → Outcome
  parsed : Frame → Outcome

abbrev pub is_set : ℕ → ℕ → Bool
is_set b flag = not (bit_and b flag == 0)

abbrev pub raw : Bytes → ℕ → ℕ
raw buffer i = get_or buffer i 0

pub data Size : Type 0 where
  more : Size
  bad : FrameError → Size
  -- `payload_length` and `header_length`, without the mask.
  size : ℕ → ℕ → Size

-- The loop over the eight bytes of a long length, in 64 bits.
unfoldable pub long_length : Bytes → ℕ → ℕ
long_length [] n = n
long_length (b ∷ bs) n = long_length bs (n * 2 ^ 8 % 2 ^ 64 + b)

unfoldable pub frame_size : ℕ → Bytes → Size
frame_size n buffer =
    if n == 126
    then (let short = raw buffer 2 * 2 ^ 8 + raw buffer 3 in
        if ltb (length buffer) 4
        then more
        else if ltb short 126
        then bad non_minimal_length
        else size short 4)
    else if n == 127
    then (let long = long_length (take 8 (drop 2 buffer)) 0 in
        if ltb (length buffer) 10
        then more
        else if is_set (raw buffer 2) 0x80
        then bad invalid_length
        else if leb long 0xFFFF
        then bad non_minimal_length
        else size long 10)
    else size n 2

-- `payload[i] ^ mask[i % 4]`, from position `i` on.
unfoldable pub unmask : Bytes → ℕ → Bytes → Bytes
unmask mask i [] = []
unmask mask i (p ∷ payload) = bit_xor p (get_or mask (i % 4) 0) ∷ unmask mask (i + 1) payload

-- The tests behind the lengths; `none` means that the frame is accepted.
unfoldable pub frame_error : ℕ → ℕ → ℕ → ℕ → Option FrameError
frame_error b0 payload_length header_length frame_length =
    if ltb frame_length header_length
    then some invalid_length
    else if is_set b0 0x40 || is_set b0 0x20 || is_set b0 0x10
    then some reserved_bits
    else if is_set (bit_and b0 0x0F) 0x08 && ltb 125 payload_length
    then some control_too_long
    else none

unfoldable pub frame_payload : Bool → Bytes → ℕ → ℕ → ℕ → Bytes
frame_payload masked buffer payload_length mask_offset header_length =
    let body = take payload_length (drop header_length buffer) in
    if masked then unmask (drop mask_offset buffer) 0 body else body

-- The frame that starts with byte `b0`, once its bytes are there.
unfoldable pub frame_at : ℕ → Bool → Bytes → ℕ → ℕ → ℕ → ℕ → Frame
frame_at b0 masked buffer payload_length mask_offset header_length frame_length = record {
  opcode = bit_and b0 0x0F;
  is_final_fragment = is_set b0 0x80;
  mask_bit = masked;
  payload_length = payload_length;
  header_length = header_length;
  frame_length = frame_length;
  payload = frame_payload masked buffer payload_length mask_offset header_length;
}

unfoldable pub sized_frame : ℕ → Bool → Bytes → ℕ → ℕ → Outcome
sized_frame b0 masked buffer payload_length mask_offset =
    let header_length = if masked then mask_offset + 4 else mask_offset in
    let frame_length = (header_length + payload_length) % 2 ^ 64 in
    elim (frame_error b0 payload_length header_length frame_length) [
      | some e ↦ invalid e
      | none ↦
          if ltb (length buffer) frame_length
          then incomplete
          else parsed
              (frame_at b0 masked buffer payload_length mask_offset header_length frame_length)
    ]

unfoldable pub sized : Bytes → Size → Outcome
sized buffer more = incomplete
sized buffer (bad e) = invalid e
sized buffer (size payload_length mask_offset) =
    sized_frame (raw buffer 0) (is_set (raw buffer 1) 0x80) buffer payload_length mask_offset

unfoldable pub parse : Bytes → Outcome
parse buffer =
    if ltb (length buffer) 2
    then incomplete
    else sized buffer (frame_size (bit_and (raw buffer 1) 0x7F) buffer)

-- The shifts 56, 48, … 0.
pub long_bytes : ℕ → ℕ → Bytes
long_bytes zero n = []
long_bytes (suc k) n = n / 2 ^ (8 * k) % 256 ∷ long_bytes k n

unfoldable pub length_bytes : ℕ → Bytes
length_bytes n =
    if leb n 125
    then n ∷ []
    else if leb n 0xFFFF
    then 126 ∷ n / 2 ^ 8 % 256 ∷ n % 256 ∷ []
    else 127 ∷ long_bytes 8 n

unfoldable pub ws_encode_frame : Bytes → ℕ → Bool → Bytes
unfolding length_bytes long_bytes
ws_encode_frame payload opcode is_final_fragment =
    let low = bit_and opcode 0x0F in
    let first_byte = if is_final_fragment then bit_or low 0x80 else low in
    (first_byte ∷ length_bytes (length payload)) ++ payload

unfoldable pub ws_close_frame : ℕ → Bytes → Bytes
unfolding ws_encode_frame
ws_close_frame status_code reason =
    ws_encode_frame (status_code / 2 ^ 8 % 256 ∷ status_code % 256 ∷ reason) 8 true
