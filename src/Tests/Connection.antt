-- ===== src/Tests/Connection.antt =====
-- A WebSocket connection at a concrete input, with an application that sends every message back.
use uce.Base.{true, false, List, [], ◌∷◌, ◌≡◌, refl, inl, some, codes, arith, ◌==◌}
use uce.WebSocket.Connection.Frames.{process_websocket_input}
use uce.WebSocket.Fleet.Limited.{AllWellFormed, Sent, websocket_broadcast-Sent}
use uce.WebSocket.Fleet.{Client, websocket_broadcast}
use uce.WebSocket.Connection.Invariant.{
  WellFormed, Respects, IsFragment, IsQueued, queue_websocket_payload-WellFormed,
}
use uce.WebSocket.Connection.Rounds.{
  process_websocket_input-WellFormed, queue_websocket_payload-input,
}
use uce.WebSocket.Connection.{Limits, Connection, Callback, queue_websocket_payload}
use uce.WebSocket.Utf8.{
  ws_is_valid_utf8, utf8_loop, utf8_round, utf8_lead, utf8_follow, utf8_accepts,
}

abbrev small_limits : Limits
small_limits = record {
  max_websocket_frame_bytes = 1024;
  max_websocket_message_bytes = 512;
  max_websocket_output_bytes = 4096;
}

-- Two masked text frames, "h" and "i", of one message.
abbrev talking : Connection
talking = record {
  input_buffer = 1 ∷ 129 ∷ 1 ∷ 2 ∷ 3 ∷ 4 ∷ 105 ∷ 128 ∷ 129 ∷ 1 ∷ 2 ∷ 3 ∷ 4 ∷ 104 ∷ [];
  output_buffer = [];
  close_socket = false;
  request = some (record {
    is_websocket = false;
    websocket_connection_id = [];
    websocket_scope = [];
    websocket_opcode = 0;
    websocket_is_binary = false;
    websocket_is_text = false;
  });
  websocket_connection_id = codes "c1";
  websocket_scope = codes "room";
  websocket_fragment_opcode = 0;
  websocket_fragment_buffer = [];
}

abbrev echo : Callback
echo = some (λ c payload opcode. (queue_websocket_payload small_limits c payload (opcode == 2)).0)

echo-Respects : Respects small_limits echo
unfolding Respects
echo-Respects c payload opcode h message = (
  queue_websocket_payload-WellFormed small_limits c payload (opcode == 2) h,
  queue_websocket_payload-input small_limits c payload (opcode == 2),
)

talking-WellFormed : WellFormed small_limits talking
unfolding WellFormed IsFragment IsQueued
talking-WellFormed = (inl (refl, refl), omega arith)

process_websocket_input-WellFormed_example :
    (d : Connection) × (process_websocket_input small_limits echo talking ≡ some d)
    × WellFormed small_limits d
process_websocket_input-WellFormed_example =
    process_websocket_input-WellFormed small_limits echo echo-Respects talking talking-WellFormed

utf8_accepted : ws_is_valid_utf8 (104 ∷ 0xC3 ∷ 0xA9 ∷ 0xF0 ∷ 0x9F ∷ 0x98 ∷ 0x80 ∷ []) ≡ true
unfolding ws_is_valid_utf8 utf8_loop utf8_round utf8_lead utf8_follow utf8_accepts
utf8_accepted = refl

-- A surrogate.
utf8_refused : ws_is_valid_utf8 (0xED ∷ 0xA0 ∷ 0x80 ∷ []) ≡ false
unfolding ws_is_valid_utf8 utf8_loop utf8_round utf8_lead utf8_follow utf8_accepts
utf8_refused = refl

abbrev fleet : List Client
fleet = (true, talking) ∷ (false, talking) ∷ []

fleet-AllWellFormed : AllWellFormed small_limits fleet
fleet-AllWellFormed = (talking-WellFormed, (talking-WellFormed, tt))

websocket_broadcast-Sent_example :
    Sent small_limits
      (codes "room")
      (codes "hi")
      false
      fleet
      (websocket_broadcast small_limits (codes "room") (codes "hi") false fleet)
websocket_broadcast-Sent_example =
    websocket_broadcast-Sent small_limits (codes "room") (codes "hi") false fleet
      fleet-AllWellFormed
