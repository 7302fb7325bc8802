-- ===== src/Http.antt =====
-- The head of an HTTP response: the tests and the cleaning in src/lib/uri.cpp, and what
-- src/fastcgi/src/fcgicc.cc renders with them.
pub mod Fields
pub mod Head
pub mod Message
pub mod Upgrade
use uce.Base.{
  ℕ, Bool, true, false, List, [], ◌∷◌, ◌++◌, ◌&&◌, ◌||◌, not, Option, none, some, Bytes, ◌==◌, find,
  equal, if◌then◌else◌, codes,
}
use uce.Base.Chars.{is_alnum, to_lower}
use uce.Base.Maps.{StringMap}
use uce.Text.Nibble.{str_starts_with}

unfoldable pub name_bytes : Bytes → Bool
name_bytes [] = true
name_bytes (c ∷ name) =
    if not (is_alnum c || c == b'-' || c == b'_') then false else name_bytes name

unfoldable pub http_header_name_valid : Bytes → Bool
http_header_name_valid name = if equal name [] then false else name_bytes name

unfoldable pub http_header_value_clean : Bytes → Bytes
http_header_value_clean [] = []
http_header_value_clean (c ∷ value) =
    (if c == 13 || c == 10 then b' ' else c) ∷ http_header_value_clean value

abbrev pub is_found : Option ℕ → Bool
is_found none = false
is_found (some at) = true

unfoldable pub http_set_cookie_header_valid : Bytes → Bool
http_set_cookie_header_valid header =
    if is_found (find (13 ∷ []) header) || is_found (find (10 ∷ []) header)
    then false
    else str_starts_with (to_lower header) (codes "set-cookie: ")

unfoldable pub http_status_line_clean : Bytes → Bytes
http_status_line_clean status_line =
    if not (is_found (find (13 ∷ []) status_line)) && not (is_found (find (10 ∷ []) status_line))
    then status_line
    else if str_starts_with status_line (codes "HTTP/")
    then codes "HTTP/1.1 500 Internal Server Error"
    else codes "Status: 500 Internal Server Error"

abbrev pub crlf : Bytes
crlf = 13 ∷ 10 ∷ []

unfoldable pub render_header_map : StringMap → Bytes
render_header_map [] = []
render_header_map ((name, value) ∷ headers) =
    if not (http_header_name_valid name)
    then render_header_map headers
    else (name ++ (codes ": " ++ (http_header_value_clean value ++ crlf)))
      ++ render_header_map headers

unfoldable pub render_set_cookie_headers : List Bytes → Bytes
render_set_cookie_headers [] = []
render_set_cookie_headers (header ∷ headers) =
    if not (http_set_cookie_header_valid header)
    then render_set_cookie_headers headers
    else (header ++ crlf) ++ render_set_cookie_headers headers

-- What `assemble_output_buffer` puts in front of the body.
unfoldable pub response_head : Bytes → StringMap → List Bytes → Bytes
response_head response_code header set_cookies =
    http_status_line_clean response_code
    ++ (crlf ++ (render_header_map header ++ (render_set_cookie_headers set_cookies ++ crlf)))
