-- ===== src/Tests/Message.antt =====
-- HTTP messages and upgrades at concrete inputs.
use uce.Base.{
  ℕ, ◌+◌, ◌*◌, ◌-◌, ◌≤◌, false, [], ◌∷◌, ◌≡◌, refl, none, some, Bytes, length, codes, compare_bytes,
  equal, find, starts, arith,
}
use uce.Base.Chars.{is_space, to_upper, upper}
use uce.Base.Maps.{insert, touch, value_at}
use uce.Fastcgi.Request.{Request, Connection, new_request}
use uce.Fastcgi.Request
use uce.Base64.{base64_encode, char_at}
use uce.Http.Message.Parsed.{Decided, parse_http_message-Decided}
use uce.Http.Message.{
  skip_blank, request_line, put_header, header_lines, headers_of, split_http_headers, first,
  read_params, with_params, declared_length, parse_body, parse_http_message,
}
use uce.Http.Upgrade.Checked.{begin_websocket_upgrade-WellFormed}
use uce.Http.Upgrade.{ws_make_accept_key, handshake, begin_websocket_upgrade}
use uce.Text.Nibble.{nibble}
use uce.Text.Split.{split}
use uce.Text.Trim.{front, back, trim}
use uce.WebSocket
use uce.WebSocket.Connection.Invariant.{WellFormed, Respects}

abbrev limits : Request.Limits
limits = record { max_http_header_bytes = 100; max_http_body_bytes = 10; max_response_bytes = 1000 }

abbrev connection : Connection
connection = record {
  output_buffer = [];
  close_responsibility = false;
  close_socket = false;
  requests = [];
}

-- The value of the digits at the front of a text.
abbrev decimal_from : ℕ → Bytes → ℕ
decimal_from n [] = n
decimal_from n (c ∷ s) = decimal_from (n * 10 + (c - 48)) s

abbrev decimal : Bytes → ℕ
decimal s = decimal_from 0 s

abbrev post : Bytes
post = codes "POST /a?b HTTP/1.1\r\nContent-Length: 3\r\n\r\nabcGET"

parse_http_message-Decided_example :
    Decided limits decimal connection post
      (parse_http_message limits decimal connection new_request post)
parse_http_message-Decided_example =
    parse_http_message-Decided limits decimal connection post new_request (omega arith)

post_accepted : (parse_http_message limits decimal connection new_request post).1.1.1 ≡ codes "GET"
unfolding parse_http_message parse_body with_params read_params split_http_headers headers_of
    header_lines put_header request_line skip_blank declared_length first find starts split nibble
    trim front back is_space to_upper upper insert touch value_at equal compare_bytes
post_accepted = refl

abbrev get : Request
get = record new_request { params = (codes "REQUEST_METHOD", codes "GET") ∷ [] }

abbrev websocket_limits : WebSocket.Connection.Limits
websocket_limits = record {
  max_websocket_frame_bytes = 1000;
  max_websocket_message_bytes = 1000;
  max_websocket_output_bytes = 1000;
}

-- A hash of twenty bytes.
abbrev sha1 : Bytes → Bytes
sha1 s = codes "01234567890123456789"

no_callback : Respects websocket_limits none
unfolding Respects
no_callback = tt

handshake_fits :
    length connection.output_buffer + length (handshake sha1 get)
    ≤ websocket_limits.max_websocket_output_bytes
unfolding handshake ws_make_accept_key base64_encode char_at
handshake_fits = omega arith

begin_websocket_upgrade-WellFormed_example :
    (d : WebSocket.Connection.Connection) × (begin_websocket_upgrade sha1 websocket_limits none
        (codes "7:9")
        get
        connection
        (codes "x")
      ≡ some d)
    × WellFormed websocket_limits d
begin_websocket_upgrade-WellFormed_example =
    begin_websocket_upgrade-WellFormed sha1 websocket_limits none no_callback (codes "7:9") get
      connection (codes "x") refl handshake_fits
