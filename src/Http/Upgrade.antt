-- ===== src/Http/Upgrade.antt =====
-- What src/fastcgi/src/fcgicc.cc does with a whole HTTP message: `process_cli_request`,
-- `process_http_request`, `validate_websocket_upgrade` and `begin_websocket_upgrade`, and the key of the
-- handshake of src/lib/uri.cpp. Paths, the hash and the callbacks are parameters.
pub mod Checked
pub mod Script
use uce.Base.{
  ℕ, ◌+◌, Bool, true, false, List, [], ◌∷◌, ◌++◌, ◌&&◌, ◌||◌, not, Option, none, some, Bytes,
  length, drop, equal, find, ◌==◌, if◌then◌else◌, codes,
}
use uce.Base.Chars.{to_lower}
use uce.Base.Maps.{StringMap, insert, value_at, touch}
use uce.Base64.{base64_encode, base64_decode}
use uce.Compiler.Literal.{has_none}
use uce.Fastcgi.Request.{Request, Connection}
use uce.Fastcgi.Request
use uce.Fastcgi.Response.{assemble_output_buffer}
use uce.Http.Message.{
  make_http_text_response, reject_http_connection, first, Parse, parse_http_message,
}
use uce.Paths.{path_join, path_is_within}
use uce.Text.Trim.{trim}
use uce.WebSocket
use uce.WebSocket.Connection.Frames.{process_websocket_input}
use uce.WebSocket.Connection.{Callback}

unfoldable pub ws_is_valid_client_key : Bytes → Bool
ws_is_valid_client_key client_key =
    let (decoded, ok) = base64_decode (trim client_key) in ok && length decoded == 16

-- Why a request may not be upgraded: the status line, the body and further headers.
unfoldable pub upgrade_error : Request → Option (Bytes × (Bytes × Bytes))
upgrade_error r =
    let request_method = trim (value_at (codes "REQUEST_METHOD") r.params) in
    let request_protocol = trim (value_at (codes "SERVER_PROTOCOL") r.params) in
    let websocket_connection = to_lower (value_at (codes "HTTP_CONNECTION") r.params) in
    let websocket_host = trim (value_at (codes "HTTP_HOST") r.params) in
    let websocket_key = trim (value_at (codes "HTTP_SEC_WEBSOCKET_KEY") r.params) in
    let websocket_version = trim (value_at (codes "HTTP_SEC_WEBSOCKET_VERSION") r.params) in
    if not (equal request_method (codes "GET"))
    then some
        (codes "HTTP/1.1 405 Method Not Allowed", (codes "websocket upgrades require GET", []))
    else if not (equal request_protocol (codes "HTTP/1.1"))
    then some (codes "HTTP/1.1 400 Bad Request", (codes "websocket upgrades require HTTP/1.1", []))
    else if equal websocket_host []
    then some (codes "HTTP/1.1 400 Bad Request", (codes "missing Host header", []))
    else if has_none (find (codes "upgrade") websocket_connection)
    then some (codes "HTTP/1.1 400 Bad Request", (codes "missing Connection: Upgrade header", []))
    else if equal websocket_key []
    then some (codes "HTTP/1.1 400 Bad Request", (codes "missing Sec-WebSocket-Key header", []))
    else if not (ws_is_valid_client_key websocket_key)
    then some (codes "HTTP/1.1 400 Bad Request", (codes "invalid Sec-WebSocket-Key header", []))
    else if equal websocket_version []
    then some (codes "HTTP/1.1 400 Bad Request", (codes "missing Sec-WebSocket-Version header", []))
    else if not (equal websocket_version (codes "13"))
    then some (
      codes "HTTP/1.1 426 Upgrade Required",
      (codes "unsupported websocket version", codes "Sec-WebSocket-Version: 13\r\n"),
    )
    else none

-- The parameters that are read, which creates the missing ones.
unfoldable pub touch_all : List Bytes → StringMap → StringMap
touch_all [] params = params
touch_all (key ∷ keys) params = touch_all keys (touch key params)

abbrev pub upgrade_params : Request → Request
upgrade_params r = record r {
  params =
      touch_all
        (codes "REQUEST_METHOD"
          ∷ codes "SERVER_PROTOCOL"
          ∷ codes "HTTP_CONNECTION"
          ∷ codes "HTTP_HOST"
          ∷ codes "HTTP_SEC_WEBSOCKET_KEY"
          ∷ codes "HTTP_SEC_WEBSOCKET_VERSION"
          ∷ [])
        r.params;
}

unfoldable pub validate_websocket_upgrade : Request → Connection → Bool × (Connection × Request)
validate_websocket_upgrade r c = elim (upgrade_error r) [
  | none ↦ (true, (c, upgrade_params r))
  | some (status_line, (body, extra_headers)) ↦
      (false, (reject_http_connection c status_line body extra_headers, upgrade_params r))
]

-- What becomes of a connection: it stays one for HTTP, with the data that is left, or it is upgraded.
pub data Served : Type 0 where
  http : Connection → Request → Bytes → Served
  websocket : Option WebSocket.Connection.Connection → Served

-- `assemble_output_buffer` with a connection, which takes the output.
unfoldable pub assemble_for : Request.Limits → Connection → Request → Connection × Request
assemble_for limits c given =
    let r = assemble_output_buffer limits given in
    (record c { output_buffer = r.out }, record r { out = [] })

module _ (limits : Request.Limits) (int_val : Bytes → ℕ) where
  unfoldable pub process_cli_request :
      Option (Request → Request × ℕ) → Connection → Request → Bytes → Served
  process_cli_request on_cli_complete given r buffer =
      let (ok, (c, (q, rest))) = parse_http_message limits int_val given r buffer in
      if not ok then http c q rest else elim on_cli_complete [
        | none ↦
            http
              (record c {
                output_buffer =
                    c.output_buffer
                    ++ make_http_text_response (codes "HTTP/1.1 500 Internal Server Error")
                        (codes "UCE CLI dispatcher is not configured\n") [];
                close_socket = true;
              })
              q rest
        | some callback ↦
            let (d, done) = assemble_for limits c (callback q).0 in
            http (record d { close_socket = true }) done rest
      ]

-- The hash, in bytes.
module _ (gen_sha1 : Bytes → Bytes) where
  unfoldable pub ws_make_accept_key : Bytes → Bytes
  ws_make_accept_key client_key =
      base64_encode (gen_sha1 (client_key ++ codes "258EAFA5-E914-47DA-95CA-C5AB0DC85B11"))

  unfoldable pub handshake : Request → Bytes
  handshake r =
      codes
        "HTTP/1.1 101 Switching Protocols\r\nUpgrade: websocket\r\nConnection: Upgrade\r\nSec-WebSocket-Accept: "
      ++ (ws_make_accept_key (trim (value_at (codes "HTTP_SEC_WEBSOCKET_KEY") r.params))
          ++ codes "\r\n\r\n")

  -- The connection as a WebSocket; its identifier is made of the process and the socket.
  unfoldable pub upgraded : Bytes → Request → Connection → Bytes → WebSocket.Connection.Connection
  upgraded connection_id r c buffer =
      let scope = first (value_at (codes "SCRIPT_FILENAME") r.params) (
        first (value_at (codes "DOCUMENT_URI") r.params)
          (first (value_at (codes "REQUEST_URI") r.params) [])) in
      record {
        input_buffer = buffer;
        output_buffer = c.output_buffer ++ handshake r;
        close_socket = c.close_socket;
        request = some (record {
          is_websocket = true;
          websocket_connection_id = connection_id;
          websocket_scope = scope;
          websocket_opcode = 0;
          websocket_is_binary = false;
          websocket_is_text = false;
        });
        websocket_connection_id = connection_id;
        websocket_scope = scope;
        websocket_fragment_opcode = 0;
        websocket_fragment_buffer = [];
      }

  module _ (limits : WebSocket.Connection.Limits) (on_message : Callback) where
    unfoldable pub begin_websocket_upgrade :
        Bytes → Request → Connection → Bytes → Option WebSocket.Connection.Connection
    begin_websocket_upgrade connection_id r c buffer =
        let w = upgraded connection_id r c buffer in
        if not (equal buffer []) then process_websocket_input limits on_message w else some w

unfoldable pub strip_leading_slashes : Bytes → Bytes
strip_leading_slashes [] = []
strip_leading_slashes (c ∷ s) =
    let later = strip_leading_slashes s in if c == b'/' then later else c ∷ s

-- The root of the scripts, and `path_real`.
pub record Paths : Type 0 where
  pub http_script_root : Bytes
  pub path_real : Bytes → Bytes

-- Whether the file of the script is found below the root, and the request with that file.
unfoldable pub script_found : Paths → Request → Bool × Request
script_found paths r =
    let document_root = paths.http_script_root in
    let document_uri = strip_leading_slashes (value_at (codes "DOCUMENT_URI") r.params) in
    let candidate = path_join document_root document_uri in
    let real_root = paths.path_real document_root in
    let real_candidate = paths.path_real candidate in
    if equal real_root []
      || equal real_candidate []
      || not (path_is_within paths.path_real candidate document_root)
    then (false, r)
    else (
      true,
      record r {
        params =
            insert (codes "SCRIPT_FILENAME") real_candidate
              (insert (codes "DOCUMENT_ROOT") real_root r.params);
      },
    )

-- The tests create the parameters that they read.
unfoldable pub with_script : Bool → Paths → Request → Bool × Request
with_script resolve_http_script_filename paths r =
    let named = record r { params = touch (codes "SCRIPT_FILENAME") r.params } in
    let located = record named { params = touch (codes "DOCUMENT_URI") named.params } in
    if not resolve_http_script_filename
    then (true, r)
    else if not (equal (value_at (codes "SCRIPT_FILENAME") r.params) [])
    then (true, named)
    else if equal (value_at (codes "DOCUMENT_URI") r.params) []
    then (true, located)
    else script_found paths located

-- What the server is set up with.
pub record Server : Type 0 where
  pub limits : Request.Limits
  pub int_val : Bytes → ℕ
  pub resolve_http_script_filename : Bool
  pub paths : Paths
  pub on_complete : Request → Request × ℕ
  pub gen_sha1 : Bytes → Bytes
  pub websocket_limits : WebSocket.Connection.Limits
  pub on_message : Callback

-- An answer to a request, or its upgrade.
unfoldable pub serve : Server → Bytes → Connection → Request → Bytes → Served
serve server connection_id c given rest =
    let r = record given { params = touch (codes "HTTP_UPGRADE") given.params } in
    let (ok, (d, q)) = validate_websocket_upgrade r c in
    let (e, done) = assemble_for server.limits c (server.on_complete r).0 in
    if equal (to_lower (value_at (codes "HTTP_UPGRADE") r.params)) (codes "websocket")
    then if ok
      then websocket (
          begin_websocket_upgrade server.gen_sha1 server.websocket_limits server.on_message
            connection_id q d rest)
      else http d q rest
    else http (record e { close_socket = true }) done rest

unfoldable pub process_http_request : Server → Bytes → Connection → Request → Bytes → Served
process_http_request server connection_id given r buffer =
    let (ok, (c, (q, rest))) = parse_http_message server.limits server.int_val given r buffer in
    let (found, located) = with_script server.resolve_http_script_filename server.paths q in
    if not ok
    then http c q rest
    else if not found
    then http
        (reject_http_connection c (codes "HTTP/1.1 404 Not Found") (codes "script not found\n") [])
        located rest
    else serve server connection_id c located rest
