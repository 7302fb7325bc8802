-- ===== src/WebSocket/Connection/Frames.antt =====
-- The loop of `process_websocket_input` in src/fastcgi/src/fcgicc.cc, a function for each case of its
-- switch.
use uce.Base.{
  ℕ, zero, suc, ◌+◌, ◌*◌, ◌^◌, true, [], ◌++◌, ◌&&◌, not, Option, none, some, Bytes, length, drop,
  leb, ltb, ◌==◌, if◌then◌else◌, codes, equal,
}
use uce.WebSocket.Connection.{
  Limits, Connection, Round, next, stop, fail, Callback, is_valid_close_code, error_text,
  max_websocket_buffer_bytes, close_websocket_connection, fail_websocket_connection,
  queue_websocket_frame, dispatch_websocket_message,
}
use uce.WebSocket.Frame.{Frame, incomplete, invalid, parsed, is_set, raw, parse, ws_encode_frame}
use uce.WebSocket.Utf8.{ws_is_valid_utf8}

module _ (limits : Limits) (callback : Callback) where
  -- A whole message: a text is delivered when it is UTF-8.
  unfoldable pub deliver : Connection → Bytes → ℕ → Round
  deliver c payload opcode =
      if opcode == 1 && not (ws_is_valid_utf8 payload)
      then fail c 1007 (codes "invalid UTF-8 text message")
      else next (dispatch_websocket_message callback c payload opcode)

  unfoldable pub continuation_frame : Connection → Frame → Round
  continuation_frame c frame =
      let whole = c.websocket_fragment_buffer ++ frame.payload in
      if c.websocket_fragment_opcode == 0
      then fail c 1002 (codes "unexpected continuation frame")
      else if ltb limits.max_websocket_message_bytes
          (length c.websocket_fragment_buffer + length frame.payload)
      then fail c 1009 (codes "websocket message is too large")
      else if not frame.is_final_fragment
      then next (record c { websocket_fragment_buffer = whole })
      else deliver (record c { websocket_fragment_buffer = []; websocket_fragment_opcode = 0 })
          whole c.websocket_fragment_opcode

  unfoldable pub data_frame : Connection → Frame → Round
  data_frame c frame =
      if not (c.websocket_fragment_opcode == 0)
      then fail c 1002 (codes "new data frame while fragmented message is active")
      else if ltb limits.max_websocket_message_bytes (length frame.payload)
      then fail c 1009 (codes "websocket message is too large")
      else if frame.is_final_fragment
      then deliver c frame.payload frame.opcode
      else next (record c {
        websocket_fragment_buffer = frame.payload;
        websocket_fragment_opcode = frame.opcode;
      })

  unfoldable pub close_frame : Connection → Frame → Round
  close_frame c frame =
      let status_code = raw frame.payload 0 * 2 ^ 8 + raw frame.payload 1 in
      let reason = drop 2 frame.payload in
      if length frame.payload == 1
      then fail c 1002 (codes "invalid close frame payload")
      else if leb 2 (length frame.payload)
      then (if not (is_valid_close_code status_code)
          then fail c 1002 (codes "invalid close status code")
          else if not (ws_is_valid_utf8 reason)
          then fail c 1007 (codes "invalid UTF-8 close reason")
          else stop (close_websocket_connection c status_code reason))
      else stop (close_websocket_connection c 1000 [])

  unfoldable pub ping_frame : Connection → Frame → Round
  ping_frame c frame =
      let (queued, accepted) =
        queue_websocket_frame limits c (ws_encode_frame frame.payload 0xA true) in
      if accepted then next queued else stop queued

  unfoldable pub switch : Connection → Frame → Round
  switch c frame =
      if frame.opcode == 0
      then continuation_frame c frame
      else if frame.opcode == 1
      then data_frame c frame
      else if frame.opcode == 2
      then data_frame c frame
      else if frame.opcode == 8
      then close_frame c frame
      else if frame.opcode == 9
      then ping_frame c frame
      else if frame.opcode == 0xA
      then next c
      else fail c 1002 (codes "unsupported websocket opcode")

  unfoldable pub frame_round : Connection → Frame → Round
  frame_round c frame =
      let rest = record c { input_buffer = drop frame.frame_length c.input_buffer } in
      if ltb limits.max_websocket_frame_bytes frame.payload_length
      then fail c 1009 (codes "websocket frame is too large")
      else if not frame.mask_bit
      then fail rest 1002 (codes "client frames must be masked")
      else if is_set frame.opcode 0x08 && not frame.is_final_fragment
      then fail rest 1002 (codes "control frames must not be fragmented")
      else switch rest frame

  unfoldable pub input_round : Connection → Round
  input_round c = elim (parse c.input_buffer) [
    | incomplete ↦ stop c
    | invalid error ↦ fail c 1002 (error_text error)
    | parsed frame ↦ frame_round c frame
  ]

  -- `none` is a loop that goes on beyond the fuel.
  unfoldable pub input_loop : ℕ → Connection → Option Connection
  input_loop zero c = if equal c.input_buffer [] then some c else none
  input_loop (suc fuel) c =
      if equal c.input_buffer []
      then some c
      else elim (input_round c) [ stop d ↦ some d | next d ↦ input_loop fuel d ]

  unfoldable pub process_websocket_input : Connection → Option Connection
  process_websocket_input c =
      if ltb (max_websocket_buffer_bytes limits) (length c.input_buffer)
      then some (fail_websocket_connection c 1009 (codes "websocket input buffer is too large"))
      else input_loop (length c.input_buffer) c
