-- ===== src/Fastcgi/Response.antt =====
-- What src/fastcgi/src/fcgicc.cc writes for a request: `assemble_output_buffer`, of whose
-- log line only the entry remains that it makes in the parameters, `request_write_fgci` and `write_fgci`; and `set_status` of src/lib/types.cpp.
pub mod Once
use uce.Base.{
  ℕ, zero, suc, ◌+◌, ◌*◌, ◌/◌, ◌%◌, ◌^◌, Bool, true, false, List, [], ◌∷◌, ◌++◌, ◌&&◌, ◌||◌, not,
  Bytes, length, ltb, equal, ◌==◌, if◌then◌else◌, codes,
}
use uce.Base.Maps.{StringMap, value_at, touch}
use uce.Fastcgi.Request.{Request, Connection, Limits}
use uce.Fastcgi.{write_data_fcgi}
use uce.Http.{response_head, http_status_line_clean, render_header_map}

unfoldable pub http_status_reason : ℕ → Bytes
http_status_reason code =
    if code == 200
    then codes "OK"
    else if code == 201
    then codes "Created"
    else if code == 202
    then codes "Accepted"
    else if code == 204
    then codes "No Content"
    else if code == 301
    then codes "Moved Permanently"
    else if code == 302
    then codes "Found"
    else if code == 303
    then codes "See Other"
    else if code == 304
    then codes "Not Modified"
    else if code == 307
    then codes "Temporary Redirect"
    else if code == 308
    then codes "Permanent Redirect"
    else if code == 400
    then codes "Bad Request"
    else if code == 401
    then codes "Unauthorized"
    else if code == 403
    then codes "Forbidden"
    else if code == 404
    then codes "Not Found"
    else if code == 405
    then codes "Method Not Allowed"
    else if code == 409
    then codes "Conflict"
    else if code == 422
    then codes "Unprocessable Content"
    else if code == 429
    then codes "Too Many Requests"
    else if code == 500
    then codes "Internal Server Error"
    else if code == 501
    then codes "Not Implemented"
    else if code == 502
    then codes "Bad Gateway"
    else if code == 503
    then codes "Service Unavailable"
    else if code == 504
    then codes "Gateway Timeout"
    else []

-- `std::to_string` of a number with at most so many digits.
unfoldable pub digits : ℕ → ℕ → Bytes
digits zero n = []
digits (suc fuel) n =
    let front = digits fuel (n / 10) in (if ltb n 10 then [] else front) ++ (b'0' + n % 10) ∷ []

-- For a code that is not negative; a code of 32 bits has ten digits.
unfoldable pub set_status : Request → ℕ → Bytes → Request
unfolding http_status_reason digits
set_status r code given_reason =
    let reason = if equal given_reason [] then http_status_reason code else given_reason in
    let prefix =
      if equal (value_at (codes "GATEWAY_INTERFACE") r.params) []
      then codes "HTTP/1.1 "
      else codes "Status: " in
    record r {
      params = touch (codes "GATEWAY_INTERFACE") r.params;
      response_code = prefix ++ (digits 10 code ++ (if equal reason [] then [] else b' ' ∷ reason));
      status = code;
    }

pub body : List Bytes → Bytes
body [] = []
body (ob ∷ obs) = ob ++ body obs

-- The response in place of one that is too large.
pub too_large : Request → Request
too_large given =
    let r = set_status given 500 (codes "Response Too Large") in
    let header = (codes "Content-Type", codes "text/plain; charset=utf-8") ∷ [] in
    record r {
      header = header;
      out =
          http_status_line_clean r.response_code
          ++ (13 ∷ 10 ∷ render_header_map header
              ++ (13 ∷ 10 ∷ codes "response exceeded configured output limit" ++ 10 ∷ []));
    }

unfoldable pub assemble_output_buffer : Limits → Request → Request
unfolding too_large body set_status
assemble_output_buffer limits r =
    let whole = record r {
      out = response_head r.response_code r.header r.set_cookies ++ body r.ob_stack;
    } in
    let sent =
      if ltb limits.max_response_bytes (length whole.out) then too_large whole else whole in
    record sent {
      ob_stack = [];
      output_closed = true;
      params = if sent.log_request then touch (codes "REQUEST_URI") sent.params else sent.params;
    }

-- FCGI_EndRequestRecord
unfoldable pub end_request_record : ℕ → ℕ → ℕ → Bytes
end_request_record id app_status protocol_status =
    1
    ∷ 3
    ∷ id / 2 ^ 8 % 256
    ∷ id % 256
    ∷ 0
    ∷ 8
    ∷ 0
    ∷ 0
    ∷ app_status / 2 ^ 24 % 256
    ∷ app_status / 2 ^ 16 % 256
    ∷ app_status / 2 ^ 8 % 256
    ∷ app_status % 256
    ∷ protocol_status
    ∷ 0
    ∷ 0
    ∷ 0
    ∷ []

unfoldable pub write_out : Connection → ℕ → Request → Connection × Request
write_out c id r = if equal r.out [] then (c, r) else (
  record c { output_buffer = write_data_fcgi c.output_buffer id r.out 6 },
  record r { out = [] },
)

unfoldable pub write_err : Connection → ℕ → Request → Connection × Request
write_err c id r = if equal r.err [] then (c, r) else (
  record c { output_buffer = write_data_fcgi c.output_buffer id r.err 7 },
  record r { err = [] },
)

-- The whole response and the end of the request; `out` and `err` stay as they are.
unfoldable pub complete : Limits → Connection → ℕ → Request → Connection × Request
complete limits c id given =
    let r = assemble_output_buffer limits given in
    let written =
      write_data_fcgi (write_data_fcgi c.output_buffer id r.out 6) id r.err 7
      ++ end_request_record id r.status 0 in
    (
      record c {
        output_buffer = written;
        close_socket = if c.close_responsibility then true else c.close_socket;
      },
      r,
    )

unfoldable pub write_end : Limits → Connection → ℕ → Request → Connection × Request
write_end limits c id r =
    if (r.input_closed || not (r.status == 0)) && not r.output_closed
    then complete limits c id r
    else (c, r)

unfoldable pub request_write_fgci : Limits → Connection → ℕ → Request → Connection × Request
request_write_fgci limits c id r =
    let (c1, r1) = write_out c id r in
    let (c2, r2) = write_err c1 id r1 in write_end limits c2 id r2

-- What is kept of one request.
unfoldable pub kept : ℕ → Request → List (ℕ × Request) → List (ℕ × Request)
kept id r rest = if r.params_closed && r.input_closed then rest else (id, r) ∷ rest

unfoldable pub write_requests :
    Limits → Connection → List (ℕ × Request) → Connection × List (ℕ × Request)
unfolding kept
write_requests limits c [] = (c, [])
write_requests limits c ((id, given) ∷ requests) =
    let (c1, r) = request_write_fgci limits c id given in
    let (c2, rest) = write_requests limits c1 requests in (c2, kept id r rest)

unfoldable pub write_fgci : Limits → Connection → Connection
write_fgci limits c =
    let (d, requests) = write_requests limits c c.requests in record d { requests = requests }
