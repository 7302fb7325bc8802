-- ===== src/WebSocket/Fleet.antt =====
-- The functions of src/fastcgi/src/fcgicc.cc over all connections of the server. A client is a
-- connection and whether it is a WebSocket, in the order of the sockets.
pub mod Limited
use uce.Base.{
  ℕ, zero, suc, ◌+◌, Bool, true, false, List, [], ◌∷◌, ◌&&◌, ◌||◌, not, Bytes, length, equal, ltb,
  if◌then◌else◌,
}
use uce.WebSocket.Connection.{
  Limits, Connection, close_websocket_connection, queue_websocket_frame, queue_websocket_payload,
}
use uce.WebSocket.Frame.{ws_encode_frame}

abbrev pub Client : Type 0
Client = Bool × Connection

unfoldable pub has_id : Bytes → Client → Bool
has_id connection_id (is_websocket, c) =
    is_websocket && equal c.websocket_connection_id connection_id

module _ (limits : Limits) where
  -- The first connection with the identifier gets the message.
  unfoldable pub websocket_send_to : Bytes → Bytes → Bool → List Client → List Client × Bool
  websocket_send_to connection_id message binary [] = ([], false)
  websocket_send_to connection_id message binary (client ∷ clients) =
      let (c, sent) = queue_websocket_payload limits client.1 message binary in
      let (rest, later) = websocket_send_to connection_id message binary clients in
      if has_id connection_id client
      then ((client.0, c) ∷ clients, sent)
      else (client ∷ rest, later)

  -- The clients, and how many have the frame in their queue.
  unfoldable pub broadcast_frame : Bytes → Bytes → List Client → List Client × ℕ
  broadcast_frame scope frame [] = ([], 0)
  broadcast_frame scope frame (client ∷ clients) =
      let (c, sent) = queue_websocket_frame limits client.1 frame in
      let (rest, count) = broadcast_frame scope frame clients in
      if not client.0
      then (client ∷ rest, count)
      else if not (equal scope []) && not (equal client.1.websocket_scope scope)
      then (client ∷ rest, count)
      else ((client.0, c) ∷ rest, if sent then suc count else count)

  unfoldable pub websocket_broadcast : Bytes → Bytes → Bool → List Client → List Client × ℕ
  websocket_broadcast scope message binary clients =
      if ltb limits.max_websocket_message_bytes (length message)
      then (clients, 0)
      else broadcast_frame scope (ws_encode_frame message (if binary then 2 else 1) true) clients

unfoldable pub websocket_connection_ids : Bytes → List Client → List Bytes
websocket_connection_ids scope [] = []
websocket_connection_ids scope (client ∷ clients) =
    let ids = websocket_connection_ids scope clients in
    if not client.0
    then ids
    else if not (equal scope []) && not (equal client.1.websocket_scope scope)
    then ids
    else client.1.websocket_connection_id ∷ ids

unfoldable pub websocket_close : Bytes → ℕ → Bytes → List Client → List Client × Bool
websocket_close connection_id status_code reason [] = ([], false)
websocket_close connection_id status_code reason (client ∷ clients) =
    let (rest, later) = websocket_close connection_id status_code reason clients in
    if has_id connection_id client
    then ((client.0, close_websocket_connection client.1 status_code reason) ∷ clients, true)
    else (client ∷ rest, later)
