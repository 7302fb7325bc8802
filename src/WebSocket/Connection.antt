-- ===== src/WebSocket/Connection.antt =====
-- The WebSocket side of a connection in src/fastcgi/src/fcgicc.cc: the output queue, closing and
-- failing, and `process_websocket_input`. A callback of the application is a parameter.
pub mod Invariant
pub mod Rounds
pub mod Frames
use uce.Base.{
  ℕ, zero, suc, ◌+◌, ◌*◌, ◌^◌, Bool, true, false, [], ◌∷◌, ◌++◌, ◌&&◌, ◌||◌, not, Option, none,
  some, Bytes, length, take, drop, leb, ltb, ◌==◌, if◌then◌else◌, codes, equal,
}
use uce.Text.Nibble.{str_starts_with}
use uce.WebSocket.Frame.{
  Frame, FrameError, non_minimal_length, invalid_length, reserved_bits, control_too_long,
  incomplete, invalid, parsed, is_set, raw, parse, ws_encode_frame, ws_close_frame,
}
use uce.WebSocket.Utf8.{ws_is_valid_utf8}

-- `TransportLimits`, as far as WebSockets read it.
pub record Limits : Type 0 where
  pub max_websocket_frame_bytes : ℕ
  pub max_websocket_message_bytes : ℕ
  pub max_websocket_output_bytes : ℕ

pub max_websocket_buffer_bytes : Limits → ℕ
max_websocket_buffer_bytes limits = limits.max_websocket_message_bytes + 16 * 1024

-- What `dispatch_websocket_message` sets in the request.
pub record Request : Type 0 where
  pub is_websocket : Bool
  pub websocket_connection_id : Bytes
  pub websocket_scope : Bytes
  pub websocket_opcode : ℕ
  pub websocket_is_binary : Bool
  pub websocket_is_text : Bool

-- `request` is the one under the connection's own socket in `requests`.
pub record Connection : Type 0 where
  pub input_buffer : Bytes
  pub output_buffer : Bytes
  pub close_socket : Bool
  pub request : Option Request
  pub websocket_connection_id : Bytes
  pub websocket_scope : Bytes
  pub websocket_fragment_opcode : ℕ
  pub websocket_fragment_buffer : Bytes

unfoldable pub is_valid_close_code : ℕ → Bool
is_valid_close_code status_code =
    if ltb status_code 1000
    then false
    else if status_code == 1004 || status_code == 1005 || status_code == 1006 || status_code == 1015
    then false
    else if leb status_code 1014
    then true
    else if leb 3000 status_code && leb status_code 4999
    then true
    else false

unfoldable pub close_status : ℕ → ℕ
close_status status_code = if is_valid_close_code status_code then status_code else 1002

unfoldable pub close_reason : Bytes → Bytes
close_reason reason =
    let cut = if ltb 123 (length reason) then take 123 reason else reason in
    if ws_is_valid_utf8 cut then cut else []

unfoldable pub close_websocket_connection : Connection → ℕ → Bytes → Connection
close_websocket_connection c status_code reason = record c {
  output_buffer =
      if c.close_socket
      then c.output_buffer
      else c.output_buffer ++ ws_close_frame (close_status status_code) (close_reason reason);
  close_socket = true;
}

abbrev pub upgrade : Bytes
upgrade = codes "HTTP/1.1 101 Switching Protocols" ++ 13 ∷ 10 ∷ []

unfoldable pub fail_websocket_connection : Connection → ℕ → Bytes → Connection
fail_websocket_connection c status_code reason =
    close_websocket_connection
      (record c {
        output_buffer = if str_starts_with c.output_buffer upgrade then c.output_buffer else [];
      })
      status_code reason

-- The connection, and whether the frame is in the queue.
unfoldable pub queue_websocket_frame : Limits → Connection → Bytes → Connection × Bool
queue_websocket_frame limits c frame =
    if ltb limits.max_websocket_output_bytes (length c.output_buffer + length frame)
    then (fail_websocket_connection c 1013 (codes "websocket output queue is full"), false)
    else (record c { output_buffer = c.output_buffer ++ frame }, true)

unfoldable pub queue_websocket_payload : Limits → Connection → Bytes → Bool → Connection × Bool
queue_websocket_payload limits c message binary =
    if ltb limits.max_websocket_message_bytes (length message)
    then (c, false)
    else queue_websocket_frame limits c (ws_encode_frame message (if binary then 2 else 1) true)

pub error_text : FrameError → Bytes
error_text non_minimal_length = codes "non-minimal websocket frame length"
error_text invalid_length = codes "invalid websocket frame length"
error_text reserved_bits = codes "reserved websocket bits are not supported"
error_text control_too_long = codes "control frames must be 125 bytes or less"

-- A round of the loop over the frames goes on, or returns.
pub data Round : Type 0 where
  next stop : Connection → Round

unfoldable pub fail : Connection → ℕ → Bytes → Round
fail c status_code reason = stop (fail_websocket_connection c status_code reason)

-- `on_websocket_message`, which may be missing.
abbrev pub Callback : Type 0
Callback = Option (Connection → Bytes → ℕ → Connection)

pub entered : Connection → Request → ℕ → Request
entered c request opcode = record request {
  is_websocket = true;
  websocket_connection_id = c.websocket_connection_id;
  websocket_scope = c.websocket_scope;
  websocket_opcode = opcode;
  websocket_is_binary = opcode == 2;
  websocket_is_text = opcode == 1;
}

unfoldable pub dispatch_websocket_message : Callback → Connection → Bytes → ℕ → Connection
dispatch_websocket_message none c payload opcode = c
dispatch_websocket_message (some on_websocket_message) c payload opcode = elim c.request [
  | none ↦ c
  | some request ↦
      on_websocket_message (record c { request = some (entered c request opcode) }) payload opcode
]
