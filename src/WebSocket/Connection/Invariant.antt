-- ===== src/WebSocket/Connection/Invariant.antt =====
-- What holds of a WebSocket connection between rounds: its fragment and its queue are within the
-- limits.
use uce.Base.{
  ℕ, suc, ◌+◌, ◌≤◌, Bool, true, false, [], ◌++◌, ◌≡◌, refl, ◌⊎◌, inl, inr, Option, none, some,
  Bytes, length, take, ltb, leb, if◌then◌else◌, arith, length-append, length-take, Bool-cases,
}
use uce.Text.Nibble.{str_starts_with}
use uce.WebSocket.Connection.{
  Limits, Connection, Request, Callback, close_status, close_reason, upgrade, entered,
  close_websocket_connection, fail_websocket_connection, queue_websocket_frame,
  queue_websocket_payload, dispatch_websocket_message,
}
use uce.WebSocket.Frame.{ws_encode_frame, ws_close_frame, length_bytes}
use uce.WebSocket.Utf8.{ws_is_valid_utf8}

-- No message is begun, or a text or binary one that is not too long.
unfoldable pub IsFragment : Limits → ℕ → Bytes → Type 0
IsFragment limits opcode buffer =
    ((opcode ≡ 0) × (buffer ≡ []))
    ⊎ (((opcode ≡ 1) ⊎ (opcode ≡ 2)) × (length buffer ≤ limits.max_websocket_message_bytes))

-- A connection that closes has room for one close frame beyond the limit.
unfoldable pub IsQueued : Limits → Bool → ℕ → Type 0
IsQueued limits false queued = queued ≤ limits.max_websocket_output_bytes
IsQueued limits true queued = queued ≤ limits.max_websocket_output_bytes + 127

unfoldable pub WellFormed : Limits → Connection → Type 0
unfolding IsFragment
WellFormed limits c =
    IsFragment limits c.websocket_fragment_opcode c.websocket_fragment_buffer
    × IsQueued limits c.close_socket (length c.output_buffer)

-- What may be delivered: a text that is UTF-8, or a binary message, within the limit.
unfoldable pub IsMessage : Limits → Bytes → ℕ → Type 0
IsMessage limits payload opcode =
    (length payload ≤ limits.max_websocket_message_bytes)
    × (((opcode ≡ 1) × (ws_is_valid_utf8 payload ≡ true)) ⊎ (opcode ≡ 2))

-- A callback that keeps the connection well-formed when it is called with a message, and leaves the
-- input alone.
unfoldable pub Respects : Limits → Callback → Type 0
Respects limits none = Unit
Respects limits (some f) =
    (c : Connection) (payload : Bytes) (opcode : ℕ)
    → WellFormed limits c
    → IsMessage limits payload opcode
    → WellFormed limits (f c payload opcode) × ((f c payload opcode).input_buffer ≡ c.input_buffer)

length-close_reason : (reason : Bytes) → length (close_reason reason) ≤ 123
unfolding close_reason
length-close_reason reason = elim (Bool-cases (ltb 123 (length reason))) [
  | inl long ↦
      let cut : length (take 123 reason) ≡ 123 = length-take 123 reason (ground arith) in
      elim (Bool-cases (ws_is_valid_utf8 (take 123 reason))) [
        | inl e ↦ rw (long, e) (omega (arith, cut))
        | inr e ↦ rw (long, e) (omega arith)
      ]
  | inr short ↦ elim (Bool-cases (ws_is_valid_utf8 reason)) [
    | inl e ↦ rw (short, e) (ground arith)
    | inr e ↦ rw (short, e) (omega arith)
  ]
]

-- A close frame is a control frame: its payload has at most 125 bytes.
length-ws_close_frame :
    (status_code : ℕ) (reason : Bytes)
    → length reason ≤ 123
    → length (ws_close_frame status_code reason) ≡ 4 + length reason
unfolding ws_close_frame length_bytes
length-ws_close_frame status_code reason short =
    let small : leb (suc (suc (length reason))) 125 ≡ true = ground arith in rw small (omega arith)

module _ (limits : Limits) where
  IsQueued-more : (b : Bool) (n : ℕ) → IsQueued limits b n → IsQueued limits true n
  unfolding IsQueued
  IsQueued-more true n h = h
  IsQueued-more false n h = omega arith

  -- Closing keeps a connection well-formed.
  pub close_websocket_connection-WellFormed :
      (c : Connection) (status_code : ℕ) (reason : Bytes)
      → WellFormed limits c
      → WellFormed limits (close_websocket_connection c status_code reason)
  unfolding WellFormed close_websocket_connection IsQueued
  close_websocket_connection-WellFormed c status_code reason (fragment, queue) =
      (fragment, queued c.close_socket queue)
    where
      queued :
          (closed : Bool)
          → IsQueued limits closed (length c.output_buffer)
          → IsQueued limits true (
              length (
                if closed
                then c.output_buffer
                else c.output_buffer
                  ++ ws_close_frame (close_status status_code) (close_reason reason)))
      queued true h = h
      queued false h =
          let short = length-close_reason reason in
          let frame =
            length-ws_close_frame (close_status status_code) (close_reason reason) short in
          rw length-append (omega arith)

  pub fail_websocket_connection-WellFormed :
      (c : Connection) (status_code : ℕ) (reason : Bytes)
      → WellFormed limits c
      → WellFormed limits (fail_websocket_connection c status_code reason)
  unfolding fail_websocket_connection WellFormed IsQueued
  fail_websocket_connection-WellFormed c status_code reason h =
      close_websocket_connection-WellFormed _ status_code reason
        (cleared (str_starts_with c.output_buffer upgrade) h)
    where
      cleared :
          (kept : Bool)
          → WellFormed limits c
          → WellFormed limits (record c { output_buffer = if kept then c.output_buffer else [] })
      cleared true h = h
      cleared false (fragment, queue) = (fragment, empty c.close_socket)
        where
          empty : (closed : Bool) → IsQueued limits closed 0
          empty true = omega arith
          empty false = omega arith

  -- The queue takes a frame that fits, and is failed for one that does not.
  pub queue_websocket_frame-WellFormed :
      (c : Connection) (frame : Bytes)
      → WellFormed limits c
      → WellFormed limits (queue_websocket_frame limits c frame).0
  unfolding queue_websocket_frame WellFormed IsQueued
  queue_websocket_frame-WellFormed c frame h =
      elim (Bool-cases
        (ltb limits.max_websocket_output_bytes (length c.output_buffer + length frame))) [
          | inl full ↦ rw full (fail_websocket_connection-WellFormed c 1013 _ h)
          | inr fits ↦ rw fits (h.0, room c.close_socket (ground arith))
        ]
    where
      room :
          (closed : Bool)
          → length c.output_buffer + length frame ≤ limits.max_websocket_output_bytes
          → IsQueued limits closed (length (c.output_buffer ++ frame))
      room true fits = rw length-append (omega arith)
      room false fits = rw length-append (omega arith)

  pub queue_websocket_payload-WellFormed :
      (c : Connection) (message : Bytes) (binary : Bool)
      → WellFormed limits c
      → WellFormed limits (queue_websocket_payload limits c message binary).0
  unfolding queue_websocket_payload
  queue_websocket_payload-WellFormed c message binary h = ground (
    arith,
    queue_websocket_frame-WellFormed c (ws_encode_frame message (if binary then 2 else 1) true) h,
  )

  pub dispatch_websocket_message-WellFormed :
      (callback : Callback) (c : Connection) (payload : Bytes) (opcode : ℕ)
      → Respects limits callback
      → WellFormed limits c
      → IsMessage limits payload opcode
      → WellFormed limits (dispatch_websocket_message callback c payload opcode)
        × ((dispatch_websocket_message callback c payload opcode).input_buffer ≡ c.input_buffer)
  unfolding dispatch_websocket_message Respects
  dispatch_websocket_message-WellFormed none c payload opcode r h m = (h, refl)
  dispatch_websocket_message-WellFormed (some f) c payload opcode r h m = by_request c.request
    where
      by_request :
          (request : Option Request)
          → let d : Connection = elim request [
            | none ↦ c
            | some q ↦ f (record c { request = some (entered c q opcode) }) payload opcode
          ] in
            WellFormed limits d × (d.input_buffer ≡ c.input_buffer)
      by_request none = (h, refl)
      by_request (some q) =
          r (record c { request = some (entered c q opcode) }) payload opcode
            (unfold WellFormed in h) m
