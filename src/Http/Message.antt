-- ===== src/Http/Message.antt =====
-- `parse_http_message` of src/fastcgi/src/fcgicc.cc, and `split_http_headers` of
-- src/lib/functionlib.cpp. A number is read by a parameter, the `strtol` of the C library.
pub mod Parsed
use mathlib.Core.List.{map}
use uce.Base.{
  ℕ, suc, ◌+◌, ◌%◌, ◌^◌, Bool, true, false, List, [], ◌∷◌, ◌++◌, ◌||◌, not, Option, none, some,
  Bytes, length, take, drop, ltb, equal, find, ◌==◌, if◌then◌else◌, codes,
}
use uce.Base.Chars.{to_upper}
use uce.Base.Maps.{StringMap, insert, value_at, touch}
use uce.Fastcgi.Request.{Request, Connection}
use uce.Fastcgi.Request
use uce.Fastcgi.Response.{digits}
use uce.Text.Nibble.{nibble}
use uce.Text.Split.{split}
use uce.Text.Trim.{trim}

-- The length of a body has at most twenty digits.
unfoldable pub make_http_text_response : Bytes → Bytes → Bytes → Bytes
make_http_text_response status_line body extra_headers =
    status_line
    ++ (codes "\r\nContent-Type: text/plain; charset=utf-8\r\n"
        ++ (extra_headers
            ++ (codes "Content-Length: "
                ++ (digits 20 (length body) ++ (codes "\r\nConnection: close\r\n\r\n" ++ body)))))

unfoldable pub reject_http_connection : Connection → Bytes → Bytes → Bytes → Connection
reject_http_connection c status_line body extra_headers = record c {
  output_buffer = c.output_buffer ++ make_http_text_response status_line body extra_headers;
  close_socket = true;
}

-- The lines from the first that is not blank.
unfoldable pub skip_blank : List Bytes → List Bytes
skip_blank [] = []
skip_blank (line ∷ lines) =
    let later = skip_blank lines in if equal (trim line) [] then later else line ∷ lines

unfoldable pub request_line : Bytes → StringMap
request_line line =
    let (method, behind_method) = nibble (codes " ") line in
    let (uri, protocol) = nibble (codes " ") behind_method in
    let (base_uri, query_string) = nibble (codes "?") uri in
    insert (codes "QUERY_STRING") query_string (
      insert (codes "DOCUMENT_URI") base_uri (
        insert (codes "SCRIPT_NAME") base_uri (
          insert (codes "SERVER_PROTOCOL") (trim protocol)
            (insert (codes "REQUEST_URI") uri (insert (codes "REQUEST_METHOD") method [])))))

abbrev pub underscored : ℕ → ℕ
underscored c = if c == b'-' then b'_' else c

-- A header with its key, which is in capitals.
unfoldable pub put_header : StringMap → Bytes → Bytes → StringMap
put_header result key value =
    let header_key = map underscored key in
    let known = insert (codes "HTTP_" ++ header_key) value result in
    if equal key []
    then result
    else if equal header_key (codes "CONTENT_TYPE") || equal header_key (codes "CONTENT_LENGTH")
    then insert header_key value known
    else known

unfoldable pub header_lines : StringMap → List Bytes → StringMap
header_lines result [] = result
header_lines result (line ∷ lines) = elim (find (codes ":") line) [
  | none ↦ header_lines result lines
  | some colon ↦
      header_lines
        (put_header result (to_upper (trim (take colon line))) (trim (drop (suc colon) line))) lines
]

unfoldable pub headers_of : List Bytes → StringMap
headers_of [] = []
headers_of (line ∷ lines) = elim (find (codes ":") line) [
  | none ↦ header_lines (request_line (trim line)) lines
  | some colon ↦ header_lines [] (line ∷ lines)
]

unfoldable pub split_http_headers : Bytes → StringMap
split_http_headers s = headers_of (skip_blank (split s (codes "\n")))

-- `first(a, b)` for a text `b` that is not blank.
unfoldable pub first : Bytes → Bytes → Bytes
first a b = if equal (trim a) [] then b else a

abbrev pub blank_line : Bytes
blank_line = 13 ∷ 10 ∷ 13 ∷ 10 ∷ []

-- Whether a message is complete, the connection, the request, and the input that is left.
abbrev pub Parse : Type 0
Parse = Bool × (Connection × (Request × Bytes))

abbrev pub too_large_headers : Connection → Connection
too_large_headers c =
    reject_http_connection c (codes "HTTP/1.1 431 Request Header Fields Too Large")
      (codes "request headers are too large\n") []

abbrev pub too_large_message : Connection → Bytes → Connection
too_large_message c body = reject_http_connection c (codes "HTTP/1.1 413 Payload Too Large") body []

-- The request with its parameters, which are read once, from a head of that length.
unfoldable pub read_params : StringMap → Request → ℕ → Bytes → Request
read_params [] r header_end buffer = record r {
  params = split_http_headers (take header_end buffer);
  params_closed = true;
}
read_params (e ∷ params) r header_end buffer = r

unfoldable pub with_params : Request → ℕ → Bytes → Request
with_params given header_end buffer =
    let r = read_params given.params given header_end buffer in
    record r { params = touch (codes "CONTENT_LENGTH") r.params }

unfoldable pub declared_length : (Bytes → ℕ) → Request → ℕ
declared_length int_val r = int_val (first (value_at (codes "CONTENT_LENGTH") r.params) (codes "0"))

module _ (limits : Request.Limits) (int_val : Bytes → ℕ) where
  -- What follows when the head is complete and its parameters are read.
  unfoldable pub parse_body : Connection → Request → ℕ → Bytes → Parse
  parse_body c r header_end buffer =
      let content_length = declared_length int_val r in
      let request_size = (header_end + 4 + content_length) % 2 ^ 64 in
      if ltb limits.max_http_body_bytes content_length
      then (false, (too_large_message c (codes "request body is too large\n"), (r, buffer)))
      else if ltb ((limits.max_http_header_bytes + limits.max_http_body_bytes) % 2 ^ 64)
          request_size
      then (false, (too_large_message c (codes "request is too large\n"), (r, buffer)))
      else if ltb (length buffer) request_size
      then (false, (c, (r, buffer)))
      else (
        true,
        (
          c,
          (
            record r {
              input = take content_length (drop (header_end + 4) buffer);
              input_closed = true;
            },
            drop request_size buffer,
          ),
        ),
      )

  unfoldable pub parse_http_message : Connection → Request → Bytes → Parse
  parse_http_message c r buffer = elim (find blank_line buffer) [
    | none ↦
        if ltb limits.max_http_header_bytes (length buffer)
        then (false, (too_large_headers c, (r, buffer)))
        else (false, (c, (r, buffer)))
    | some header_end ↦
        if ltb limits.max_http_header_bytes header_end
        then (false, (too_large_headers c, (r, buffer)))
        else parse_body c (with_params r header_end buffer) header_end buffer
  ]
