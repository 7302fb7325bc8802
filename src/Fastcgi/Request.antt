-- ===== src/Fastcgi/Request.antt =====
-- A request of a FastCGI connection, as far as src/fastcgi/src/fcgicc.cc reads and writes it, and the
-- connection with its map of requests. A status is the pattern of an `int`, below 2^32.
use uce.Base.{
  ℕ, Bool, true, false, List, [], ◌∷◌, Option, none, some, Bytes, ltb, ◌==◌, if◌then◌else◌, codes,
}
use uce.Base.Maps.{StringMap}

pub record Request : Type 0 where
  pub params_buffer : Bytes
  pub params : StringMap
  pub input : Bytes
  pub out : Bytes
  pub err : Bytes
  pub response_code : Bytes
  pub header : StringMap
  pub set_cookies : List Bytes
  pub ob_stack : List Bytes
  pub log_request : Bool
  pub status : ℕ
  pub params_closed : Bool
  pub input_closed : Bool
  pub output_closed : Bool

-- The input buffer is an argument of the reader.
pub record Connection : Type 0 where
  pub output_buffer : Bytes
  pub close_responsibility : Bool
  pub close_socket : Bool
  pub requests : List (ℕ × Request)

-- `connection.requests.find(id)`
unfoldable pub find_request : ℕ → List (ℕ × Request) → Option Request
find_request id [] = none
find_request id ((j, r) ∷ requests) = if j == id then some r else find_request id requests

-- `connection.requests[id] = request`; the ids ascend.
unfoldable pub put_request : ℕ → Request → List (ℕ × Request) → List (ℕ × Request)
put_request id r [] = (id, r) ∷ []
put_request id r ((j, q) ∷ requests) =
    let later = put_request id r requests in
    if ltb id j
    then (id, r) ∷ (j, q) ∷ requests
    else if id == j
    then (id, r) ∷ requests
    else (j, q) ∷ later

unfoldable pub erase_request : ℕ → List (ℕ × Request) → List (ℕ × Request)
erase_request id [] = []
erase_request id ((j, q) ∷ requests) =
    let later = erase_request id requests in if j == id then requests else (j, q) ∷ later

-- The callbacks of the server; each returns the request and its status.
pub record Handlers : Type 0 where
  pub on_request : Request → Request × ℕ
  pub on_data : Request → Request × ℕ
  pub on_complete : Request → Request × ℕ

-- The limits of the transport that these functions read.
pub record Limits : Type 0 where
  pub max_http_header_bytes : ℕ
  pub max_http_body_bytes : ℕ
  pub max_response_bytes : ℕ

-- `new FastCGIRequest()`
abbrev pub new_request : Request
new_request = record {
  params_buffer = [];
  params = [];
  input = [];
  out = [];
  err = [];
  response_code = codes "HTTP/1.1 200 OK";
  header = [];
  set_cookies = [];
  ob_stack = [];
  log_request = true;
  status = 0;
  params_closed = false;
  input_closed = false;
  output_closed = false;
}
