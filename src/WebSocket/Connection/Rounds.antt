-- ===== src/WebSocket/Connection/Rounds.antt =====
-- The rounds of the loop over the frames in src/fastcgi/src/fcgicc.cc keep a connection well-formed,
-- and the loop ends.
use uce.Base.{
  ℕ, zero, suc, ◌+◌, ◌-◌, ◌*◌, ◌^◌, ◌≤◌, ◌<◌, Bool, true, false, [], ◌∷◌, ◌++◌, ◌≡◌, ◌≢◌, refl, sym,
  ◌∙◌, ◌⊎◌, inl, inr, some, Bytes, length, drop, ltb, ◌==◌, not, ◌&&◌, if◌then◌else◌, arith,
  length-append, length-drop, Bool-cases, codes, equal, equal_iff, bit_and,
}
use uce.WebSocket.Connection.Frames.{
  deliver, continuation_frame, data_frame, close_frame, ping_frame, switch, frame_round,
  input_round, input_loop, process_websocket_input,
}
use uce.WebSocket.Connection.Invariant.{
  IsFragment, WellFormed, IsMessage, Respects, close_websocket_connection-WellFormed,
  fail_websocket_connection-WellFormed, queue_websocket_frame-WellFormed,
  dispatch_websocket_message-WellFormed,
}
use uce.WebSocket.Connection.{
  Limits, Connection, Round, next, stop, fail, Callback, error_text, max_websocket_buffer_bytes,
  close_websocket_connection, fail_websocket_connection, queue_websocket_frame,
  queue_websocket_payload,
}
use uce.WebSocket.Frame.{
  Frame, Outcome, Size, more, bad, size, incomplete, invalid, parsed, raw, parse, sized, frame_at,
  sized_frame, frame_size, frame_error, ws_encode_frame,
}
use uce.WebSocket.Utf8.{ws_is_valid_utf8}

-- A round that goes on leaves `input` to be read.
abbrev pub Kept : Limits → Bytes → Round → Type 0
Kept limits input (stop d) = WellFormed limits d
Kept limits input (next d) = WellFormed limits d × (d.input_buffer ≡ input)

not_both : (b : Bool) → b ≡ true → b ≡ false → ⊥
not_both b h k = cc

drop_shorter : (n : ℕ) → 1 ≤ n → (xs : Bytes) → xs ≢ [] → length xs - n < length xs
drop_shorter n positive [] full = absurd (full refl)
drop_shorter n positive (x ∷ xs) full = omega arith

empty : (xs : Bytes) → length xs ≤ 0 → equal xs [] ≡ true
unfolding equal
empty [] h = refl
empty (x ∷ xs) h = absurd (omega arith)

queue_websocket_frame-input :
    (limits : Limits) (c : Connection) (frame : Bytes)
    → (queue_websocket_frame limits c frame).0.input_buffer ≡ c.input_buffer
unfolding queue_websocket_frame fail_websocket_connection close_websocket_connection
queue_websocket_frame-input limits c frame = ground arith

pub queue_websocket_payload-input :
    (limits : Limits) (c : Connection) (message : Bytes) (binary : Bool)
    → (queue_websocket_payload limits c message binary).0.input_buffer ≡ c.input_buffer
unfolding queue_websocket_payload
queue_websocket_payload-input limits c message binary =
    let frame = ws_encode_frame message (if binary then 2 else 1) true in
    ground (arith, queue_websocket_frame-input limits c frame)

abbrev Low : Size → Type 0
Low (size n m) = 2 ≤ m
Low _ = Unit

frame_size-Low : (n : ℕ) (buffer : Bytes) → Low (frame_size n buffer)
unfolding frame_size
frame_size-Low n buffer = ground arith

incomplete_ne : (frame : Frame) → incomplete ≡ parsed frame → ⊥
incomplete_ne frame e = cc

-- A frame that is read is not empty.
sized-le :
    (buffer : Bytes) (z : Size) (frame : Frame)
    → Low z
    → sized buffer z ≡ parsed frame
    → 1 ≤ frame.frame_length
unfolding sized sized_frame frame_at frame_error
sized-le buffer more frame low e = cc
sized-le buffer (bad error) frame low e = cc
sized-le buffer (size n m) frame low e = ground arith

parse-le : (buffer : Bytes) (frame : Frame) → parse buffer ≡ parsed frame → 1 ≤ frame.frame_length
unfolding parse
parse-le buffer frame e = elim (Bool-cases (ltb (length buffer) 2)) [
  | inl short ↦ absurd (incomplete_ne frame (sym (rw short) ∙ e))
  | inr enough ↦
      let z = frame_size (bit_and (raw buffer 1) 0x7F) buffer in
      sized-le buffer z frame (frame_size-Low _ buffer) (sym (rw enough) ∙ e)
]

module _ (limits : Limits) (callback : Callback) (respects : Respects limits callback) where
  fail-Kept :
      (c : Connection) (input : Bytes) (status_code : ℕ) (reason : Bytes)
      → WellFormed limits c
      → Kept limits input (fail c status_code reason)
  unfolding fail
  fail-Kept c input status_code reason h = fail_websocket_connection-WellFormed limits c _ _ h

  -- Only messages are delivered.
  deliver-Kept :
      (c : Connection) (payload : Bytes) (opcode : ℕ)
      → WellFormed limits c
      → (opcode ≡ 1) ⊎ (opcode ≡ 2)
      → length payload ≤ limits.max_websocket_message_bytes
      → Kept limits c.input_buffer (deliver limits callback c payload opcode)
  unfolding deliver
  deliver-Kept c payload opcode h kind short =
      elim (Bool-cases (opcode == 1 && not (ws_is_valid_utf8 payload))) [
        | inl e ↦ rw e (fail-Kept c c.input_buffer 1007 _ h)
        | inr e ↦ rw e (
            dispatch_websocket_message-WellFormed limits callback c payload opcode respects h
              (unfold IsMessage in (short, message kind e)))
      ]
    where
      message :
          (opcode ≡ 1) ⊎ (opcode ≡ 2)
          → (opcode == 1 && not (ws_is_valid_utf8 payload)) ≡ false
          → ((opcode ≡ 1) × (ws_is_valid_utf8 payload ≡ true)) ⊎ (opcode ≡ 2)
      message (inl e) valid = inl (e, ground arith)
      message (inr e) valid = inr e

  continuation_frame-Kept :
      (c : Connection) (frame : Frame)
      → WellFormed limits c
      → Kept limits c.input_buffer (continuation_frame limits callback c frame)
  unfolding continuation_frame WellFormed IsFragment
  continuation_frame-Kept c frame (inl (idle, cleared), queue) =
      let idle_test : (c.websocket_fragment_opcode == 0) ≡ true = ground arith in
      rw idle_test (fail-Kept c c.input_buffer 1002 _ (inl (idle, cleared), queue))
  continuation_frame-Kept c frame (inr (kind, short), queue) =
      let begun : (c.websocket_fragment_opcode == 0) ≡ false = ground arith in
      let whole = length c.websocket_fragment_buffer + length frame.payload in
      elim (Bool-cases (ltb limits.max_websocket_message_bytes whole)) [
        | inl large ↦
            rw (begun, large) (fail-Kept c c.input_buffer 1009 _ (inr (kind, short), queue))
        | inr fits ↦
            let room : length (c.websocket_fragment_buffer ++ frame.payload)
                ≤ limits.max_websocket_message_bytes =
              rw length-append (ground arith) in
            elim (Bool-cases frame.is_final_fragment) [
              | inl final ↦
                  rw (begun, fits, final) (deliver-Kept _ _ _ (inl (refl, refl), queue) kind room)
              | inr final ↦ rw (begun, fits, final) ((inr (kind, room), queue), refl)
            ]
      ]

  data_frame-Kept :
      (c : Connection) (frame : Frame)
      → WellFormed limits c
      → (frame.opcode ≡ 1) ⊎ (frame.opcode ≡ 2)
      → Kept limits c.input_buffer (data_frame limits callback c frame)
  unfolding data_frame WellFormed IsFragment
  data_frame-Kept c frame (inr (active, short), queue) kind =
      let begun : (c.websocket_fragment_opcode == 0) ≡ false = ground arith in
      rw begun (fail-Kept c c.input_buffer 1002 _ (inr (active, short), queue))
  data_frame-Kept c frame (inl (idle, cleared), queue) kind =
      let idle_test : (c.websocket_fragment_opcode == 0) ≡ true = ground arith in
      elim (Bool-cases (ltb limits.max_websocket_message_bytes (length frame.payload))) [
        | inl large ↦
            rw (idle_test, large) (fail-Kept c c.input_buffer 1009 _ (inl (idle, cleared), queue))
        | inr fits ↦
            let room : length frame.payload ≤ limits.max_websocket_message_bytes = ground arith in
            elim (Bool-cases frame.is_final_fragment) [
              | inl final ↦
                  rw (idle_test, fits, final)
                    (deliver-Kept c _ _ (inl (idle, cleared), queue) kind room)
              | inr final ↦ rw (idle_test, fits, final) ((inr (kind, room), queue), refl)
            ]
      ]

  close_frame-Kept :
      (c : Connection) (frame : Frame)
      → WellFormed limits c
      → Kept limits c.input_buffer (close_frame limits callback c frame)
  unfolding close_frame
  close_frame-Kept c frame h = ground (
    arith,
    fail-Kept c c.input_buffer 1002 (codes "invalid close frame payload") h,
    fail-Kept c c.input_buffer 1002 (codes "invalid close status code") h,
    fail-Kept c c.input_buffer 1007 (codes "invalid UTF-8 close reason") h,
    close_websocket_connection-WellFormed limits c
        (raw frame.payload 0 * 2 ^ 8 + raw frame.payload 1) (drop 2 frame.payload) h,
    close_websocket_connection-WellFormed limits c 1000 [] h,
  )

  ping_frame-Kept :
      (c : Connection) (frame : Frame)
      → WellFormed limits c
      → Kept limits c.input_buffer (ping_frame limits callback c frame)
  unfolding ping_frame
  ping_frame-Kept c frame h =
      let pong = ws_encode_frame frame.payload 0xA true in
      let kept = queue_websocket_frame-WellFormed limits c pong h in
      by_result (queue_websocket_frame limits c pong) kept
        (queue_websocket_frame-input limits c pong)
    where
      by_result :
          (result : Connection × Bool)
          → WellFormed limits result.0
          → result.0.input_buffer ≡ c.input_buffer
          → Kept limits c.input_buffer (if result.1 then next result.0 else stop result.0)
      by_result (d, true) kept same = (kept, same)
      by_result (d, false) kept same = kept

  switch-Kept :
      (c : Connection) (frame : Frame)
      → WellFormed limits c
      → Kept limits c.input_buffer (switch limits callback c frame)
  unfolding switch
  switch-Kept c frame h = ground (
    arith,
    continuation_frame-Kept c frame h,
    data_frame-Kept c frame h,
    close_frame-Kept c frame h,
    ping_frame-Kept c frame h,
    fail-Kept c c.input_buffer 1002 (codes "unsupported websocket opcode") h,
  )

  frame_round-Kept :
      (c : Connection) (frame : Frame)
      → WellFormed limits c
      → Kept limits (drop frame.frame_length c.input_buffer) (frame_round limits callback c frame)
  unfolding frame_round
  frame_round-Kept c frame h =
      let rest : Connection = record c { input_buffer = drop frame.frame_length c.input_buffer } in
      let ok : WellFormed limits rest = unfold WellFormed in h in
      ground (
        arith,
        fail-Kept c rest.input_buffer 1009 (codes "websocket frame is too large") h,
        fail-Kept rest rest.input_buffer 1002 (codes "client frames must be masked") ok,
        fail-Kept rest rest.input_buffer 1002 (codes "control frames must not be fragmented") ok,
        switch-Kept rest frame ok,
      )

  -- A round that goes on has taken something from the input.
  Shorter : ℕ → Round → Type 0
  Shorter n (stop d) = WellFormed limits d
  Shorter n (next d) = WellFormed limits d × (length d.input_buffer < n)

  input_round-Shorter :
      (c : Connection)
      → WellFormed limits c
      → c.input_buffer ≢ []
      → Shorter (length c.input_buffer) (input_round limits callback c)
  unfolding input_round Shorter fail
  input_round-Shorter c h full = by_outcome (parse c.input_buffer) refl
    where
      taken :
          (frame : Frame) (r : Round)
          → 1 ≤ frame.frame_length
          → Kept limits (drop frame.frame_length c.input_buffer) r
          → Shorter (length c.input_buffer) r
      taken frame (stop d) positive kept = kept
      taken frame (next d) positive (kept, same) = (
        kept,
        rw (same, length-drop) (drop_shorter frame.frame_length positive c.input_buffer full),
      )

      by_outcome :
          (o : Outcome)
          → parse c.input_buffer ≡ o
          → Shorter (length c.input_buffer) (elim o [
            | incomplete ↦ stop c
            | invalid error ↦ fail c 1002 (error_text error)
            | parsed frame ↦ frame_round limits callback c frame
          ])
      by_outcome incomplete e = h
      by_outcome (invalid error) e =
          fail_websocket_connection-WellFormed limits c 1002 (error_text error) h
      by_outcome (parsed frame) e =
          taken frame (frame_round limits callback c frame) (parse-le c.input_buffer frame e)
            (frame_round-Kept c frame h)

  input_loop-WellFormed :
      (fuel : ℕ) (c : Connection)
      → WellFormed limits c
      → length c.input_buffer ≤ fuel
      → (d : Connection) × (input_loop limits callback fuel c ≡ some d) × WellFormed limits d
  unfolding input_loop Shorter
  input_loop-WellFormed zero c h fuel = rw (empty c.input_buffer fuel) (c, refl, h)
  input_loop-WellFormed (suc n) c h fuel = elim (Bool-cases (equal c.input_buffer [])) [
    | inl e ↦ rw e (c, refl, h)
    | inr e ↦ rw e (
        by_round (input_round limits callback c) (input_round-Shorter c h (λ x. full e x))
          (λ d k le. input_loop-WellFormed n d k le))
  ]
    where
      full : equal c.input_buffer [] ≡ false → c.input_buffer ≡ [] → ⊥
      full e x = not_both _ ((equal_iff c.input_buffer []).1 x) e

      by_round :
          (r : Round)
          → Shorter (length c.input_buffer) r
          → ((d : Connection)
              → WellFormed limits d
              → length d.input_buffer ≤ n
              → (e : Connection) × (input_loop limits callback n d ≡ some e) × WellFormed limits e)
          → (d : Connection) × (elim r [ stop d ↦ some d | next d ↦ input_loop limits callback n d ]
              ≡ some d)
            × WellFormed limits d
      by_round (stop d) kept later = (d, refl, kept)
      by_round (next d) (kept, short) later = later d kept (omega arith)

  -- With a callback that, called on a message within the limit that is binary or a text of UTF-8, keeps
  -- a well-formed connection well-formed and its input as it is, or with no callback: reading the input
  -- of a well-formed connection ends, whatever the input is, and leaves it well-formed. Its fragment
  -- stays within the message limit, and its queue within the output limit, with 127 bytes more for a
  -- close frame once it closes.
  pub process_websocket_input-WellFormed :
      (c : Connection)
      → WellFormed limits c
      → (d : Connection) × (process_websocket_input limits callback c ≡ some d)
        × WellFormed limits d
  unfolding process_websocket_input
  process_websocket_input-WellFormed c h =
      elim (Bool-cases (ltb (max_websocket_buffer_bytes limits) (length c.input_buffer))) [
        | inl large ↦ rw large (_, refl, fail_websocket_connection-WellFormed limits c 1009 _ h)
        | inr fits ↦ rw fits (input_loop-WellFormed (length c.input_buffer) c h (omega arith))
      ]
