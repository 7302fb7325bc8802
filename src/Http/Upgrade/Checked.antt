-- ===== src/Http/Upgrade/Checked.antt =====
-- What a WebSocket upgrade in src/fastcgi/src/fcgicc.cc begins with.
use uce.Base.{
  ℕ, ◌+◌, ◌≤◌, Bool, true, false, [], ◌++◌, ◌≡◌, refl, ◌⊎◌, inl, inr, not, Option, none, some,
  Bytes, length, equal, find, if◌then◌else◌, codes, arith, length-append, Bool-cases,
}
use uce.Base.Chars.{to_lower}
use uce.Base64.{base64_decode}
use uce.Base.Maps.{value_at}
use uce.Compiler.Literal.{has_none}
use uce.Fastcgi.Request.{Request, Connection}
use uce.Http.Message.{make_http_text_response}
use uce.Http.Upgrade.{handshake, upgraded, begin_websocket_upgrade}
use uce.Text.Trim.{trim}
use uce.WebSocket
use uce.WebSocket.Connection.Invariant.{WellFormed, IsFragment, IsQueued, Respects}
use uce.WebSocket.Connection.Rounds.{process_websocket_input-WellFormed}
use uce.WebSocket.Connection.{Callback}

-- A key is the Base64 text of 16 bytes.
abbrev pub IsClientKey : Bytes → Type 0
IsClientKey key = ((base64_decode (trim key)).1 ≡ true) × (length (base64_decode (trim key)).0 ≡ 16)

-- What RFC 6455 asks of a request for an upgrade.
abbrev pub IsUpgrade : Request → Type 0
IsUpgrade r =
    (equal (trim (value_at (codes "REQUEST_METHOD") r.params)) (codes "GET") ≡ true)
    × (equal (trim (value_at (codes "SERVER_PROTOCOL") r.params)) (codes "HTTP/1.1") ≡ true)
    × (equal (trim (value_at (codes "HTTP_HOST") r.params)) [] ≡ false)
    × (has_none (find (codes "upgrade") (to_lower (value_at (codes "HTTP_CONNECTION") r.params)))
        ≡ false)
    × (equal (trim (value_at (codes "HTTP_SEC_WEBSOCKET_KEY") r.params)) [] ≡ false)
    × IsClientKey (trim (value_at (codes "HTTP_SEC_WEBSOCKET_KEY") r.params))
    × (equal (trim (value_at (codes "HTTP_SEC_WEBSOCKET_VERSION") r.params)) [] ≡ false)
    × (equal (trim (value_at (codes "HTTP_SEC_WEBSOCKET_VERSION") r.params)) (codes "13") ≡ true)

-- The status line and the further header lines of a refusal: for another method than GET; for GET, only
-- with another version than 13 of the protocol, and otherwise.
abbrev pub IsRefusal : Request → Bytes → Bytes → Type 0
IsRefusal r status_line extra_headers =
    ((equal (trim (value_at (codes "REQUEST_METHOD") r.params)) (codes "GET") ≡ false)
      × (status_line ≡ codes "HTTP/1.1 405 Method Not Allowed")
      × (extra_headers ≡ []))
    ⊎ ((equal (trim (value_at (codes "REQUEST_METHOD") r.params)) (codes "GET") ≡ true)
        × (equal (trim (value_at (codes "HTTP_SEC_WEBSOCKET_VERSION") r.params)) (codes "13")
            ≡ false)
        × (status_line ≡ codes "HTTP/1.1 426 Upgrade Required")
        × (extra_headers ≡ codes "Sec-WebSocket-Version: 13\r\n"))
    ⊎ ((equal (trim (value_at (codes "REQUEST_METHOD") r.params)) (codes "GET") ≡ true)
        × (status_line ≡ codes "HTTP/1.1 400 Bad Request")
        × (extra_headers ≡ []))

-- The connection gets the response of a refusal, with a text that is not empty, behind its output.
abbrev pub IsRefused : Request → Connection → Connection → Type 0
IsRefused r c d =
    (status_line : Bytes) × (body : Bytes) × (extra_headers : Bytes) × IsRefusal r status_line
      extra_headers
    × (equal body [] ≡ false)
    × (d ≡ record c {
      output_buffer = c.output_buffer ++ make_http_text_response status_line body extra_headers;
      close_socket = true;
    })

-- The tests of a request, in the order of the code.
abbrev Passes : Bool → Bool → Bool → Bool → Bool → Bool → Bool → Bool → Type 0
Passes a b c d e f g h =
    (a ≡ true)
    × (b ≡ true)
    × (c ≡ false)
    × (d ≡ false)
    × (e ≡ false)
    × (f ≡ true)
    × (g ≡ false)
    × (h ≡ true)

abbrev error_of :
    Bool → Bool → Bool → Bool → Bool → Bool → Bool → Bool → Option (Bytes × (Bytes × Bytes))
error_of a b c d e f g h =
    if not a
    then some
        (codes "HTTP/1.1 405 Method Not Allowed", (codes "websocket upgrades require GET", []))
    else if not b
    then some (codes "HTTP/1.1 400 Bad Request", (codes "websocket upgrades require HTTP/1.1", []))
    else if c
    then some (codes "HTTP/1.1 400 Bad Request", (codes "missing Host header", []))
    else if d
    then some (codes "HTTP/1.1 400 Bad Request", (codes "missing Connection: Upgrade header", []))
    else if e
    then some (codes "HTTP/1.1 400 Bad Request", (codes "missing Sec-WebSocket-Key header", []))
    else if not f
    then some (codes "HTTP/1.1 400 Bad Request", (codes "invalid Sec-WebSocket-Key header", []))
    else if g
    then some (codes "HTTP/1.1 400 Bad Request", (codes "missing Sec-WebSocket-Version header", []))
    else if not h
    then some (
      codes "HTTP/1.1 426 Upgrade Required",
      (codes "unsupported websocket version", codes "Sec-WebSocket-Version: 13\r\n"),
    )
    else none

running-IsQueued :
    (limits : WebSocket.Connection.Limits) (close_socket : Bool) (queued : ℕ)
    → close_socket ≡ false
    → queued ≤ limits.max_websocket_output_bytes
    → IsQueued limits close_socket queued
unfolding IsQueued
running-IsQueued limits false queued e h = h
running-IsQueued limits true queued e h = cc

module _ (gen_sha1 : Bytes → Bytes) (limits : WebSocket.Connection.Limits) (on_message : Callback)
    (respects : Respects limits on_message) where
  upgraded-WellFormed :
      (connection_id : Bytes) (r : Request) (c : Connection) (buffer : Bytes)
      → c.close_socket ≡ false
      → length c.output_buffer + length (handshake gen_sha1 r) ≤ limits.max_websocket_output_bytes
      → WellFormed limits (upgraded gen_sha1 connection_id r c buffer)
  unfolding upgraded WellFormed IsFragment
  upgraded-WellFormed connection_id r c buffer running fits = (
    inl (refl, refl),
    running-IsQueued limits c.close_socket _ running
        (omega (arith, length-append c.output_buffer (handshake gen_sha1 r))),
  )

  -- With a callback as for the reading of WebSocket input: when the output that waits and the answer
  -- to the handshake are within the limit of the output queue and the connection is not closing, the
  -- upgrade ends, also with frames that came with the request, and the connection is well-formed.
  pub begin_websocket_upgrade-WellFormed :
      (connection_id : Bytes) (r : Request) (c : Connection) (buffer : Bytes)
      → c.close_socket ≡ false
      → length c.output_buffer + length (handshake gen_sha1 r) ≤ limits.max_websocket_output_bytes
      → (d : WebSocket.Connection.Connection) × (begin_websocket_upgrade gen_sha1 limits on_message
            connection_id r c buffer
          ≡ some d)
        × WellFormed limits d
  unfolding begin_websocket_upgrade
  begin_websocket_upgrade-WellFormed connection_id r c buffer running fits =
      let h = upgraded-WellFormed connection_id r c buffer running fits in
      elim (Bool-cases (equal buffer [])) [
        | inl e ↦ rw (e, begin_websocket_upgrade) (_, refl, h)
        | inr e ↦
            rw (e, begin_websocket_upgrade)
              (process_websocket_input-WellFormed limits on_message respects
                (upgraded gen_sha1 connection_id r c buffer) h)
      ]
