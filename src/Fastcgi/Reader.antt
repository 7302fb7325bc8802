-- ===== src/Fastcgi/Reader.antt =====
-- `read_fgci` of src/fastcgi/src/fcgicc.cc: the records of the input buffer, one function for each case
-- of its switch.
pub mod Split
pub mod Bounds
use uce.Base.{
  ℕ, zero, suc, ◌+◌, ◌*◌, ◌/◌, ◌%◌, ◌^◌, Bool, true, false, List, [], ◌∷◌, ◌++◌, ◌&&◌, ◌||◌, not,
  Option, none, some, Bytes, length, take, drop, ltb, equal, ◌==◌, bit_and, if◌then◌else◌, codes,
}
use uce.Base.Maps.{StringMap}
use uce.Fastcgi.Request.{
  Request, Connection, Handlers, find_request, put_request, erase_request, new_request,
}
use uce.Fastcgi.Request
use uce.Fastcgi.Response.{end_request_record, request_write_fgci}
use uce.Fastcgi.{parse_pairs_fcgi, write_pair_fcgi}
use uce.WebSocket.Frame.{raw}

-- What stands at the front of the input: less than a record, a header of another version, or the
-- type, the request, the content and what follows.
pub data Cut : Type 0 where
  short wrong_version : Cut
  whole : ℕ → ℕ → Bytes → Bytes → Cut

unfoldable pub cut_record : Bytes → Cut
cut_record (version ∷ kind ∷ id1 ∷ id0 ∷ len1 ∷ len0 ∷ padding ∷ reserved ∷ s) =
    let size = len1 * 256 + len0 in
    if not (version == 1)
    then wrong_version
    else if ltb (length s) (size + padding)
    then short
    else whole kind (id1 * 256 + id0) (take size s) (drop (size + padding) s)
cut_record _ = short

-- The known variables among the names, each with its value.
pub known_values : StringMap → Bytes
known_values [] = []
known_values ((name, value) ∷ pairs) =
    (if equal name (codes "FCGI_MAX_CONNS")
      then write_pair_fcgi [] name (codes "100")
      else if equal name (codes "FCGI_MAX_REQS")
      then write_pair_fcgi [] name (codes "1000")
      else if equal name (codes "FCGI_MPXS_CONNS")
      then write_pair_fcgi [] name (codes "1")
      else [])
    ++ known_values pairs

-- The length counts the header too.
pub get_values : Connection → Bytes → Connection
get_values c content =
    let values = known_values (parse_pairs_fcgi content) in
    let len = 8 + length values in
    record c {
      output_buffer =
          c.output_buffer ++ (1 ∷ 10 ∷ 0 ∷ 0 ∷ len / 2 ^ 8 % 256 ∷ len % 256 ∷ 0 ∷ 0 ∷ values);
    }

-- A record that closes the socket, where the server is to close it.
pub answer_and_close : Connection → Bytes → Connection
answer_and_close c answer = record c {
  output_buffer = c.output_buffer ++ answer;
  close_socket = if c.close_responsibility then true else c.close_socket;
}

pub begin_request : Connection → ℕ → Bytes → Connection
begin_request given id content =
    let c = record given {
      close_responsibility =
          if bit_and (raw content 2) 1 == 0 then true else given.close_responsibility;
    } in
    if ltb (length content) 8
    then given
    else if not (raw content 0 * 2 ^ 8 + raw content 1 == 1)
    then answer_and_close c (end_request_record 0 0 3)
    else record c { requests = put_request id new_request c.requests }

pub abort_request : Connection → ℕ → Connection
abort_request c id = elim (find_request id c.requests) [
  | none ↦ c
  | some r ↦
      let d = answer_and_close c (end_request_record 0 1 0) in
      record d { requests = erase_request id d.requests }
]

pub unknown_type : Connection → ℕ → Connection
unknown_type c kind = record c {
  output_buffer =
      c.output_buffer ++ (1 ∷ 11 ∷ 0 ∷ 0 ∷ 0 ∷ 8 ∷ 0 ∷ 0 ∷ kind ∷ 0 ∷ 0 ∷ 0 ∷ 0 ∷ 0 ∷ 0 ∷ 0 ∷ []);
}

-- The request is put back as it is now.
pub store : Connection × Request → ℕ → Connection
store (c, r) id = record c { requests = put_request id r c.requests }

-- `request.flags.status = callback(request)`
pub run : (Request → Request × ℕ) → Request → Request
run callback given = let (r, status) = callback given in record r { status = status }

module _ (limits : Request.Limits) (handlers : Handlers) where
  -- The end of the parameters.
  pub start : Request → Request
  start given =
      let r1 = run handlers.on_request (record given {
        params = parse_pairs_fcgi given.params_buffer;
        params_buffer = [];
        params_closed = true;
      }) in
      let r2 = run handlers.on_data r1 in
      let r3 = if r2.status == 0 && r2.input_closed then run handlers.on_complete r2 else r2 in
      if r1.status == 0 && not (equal r1.input []) then r3 else r1

  pub params_record : Connection → ℕ → Bytes → Request → Connection
  params_record c id content r =
      if r.params_closed
      then c
      else if equal content []
      then store (request_write_fgci limits c id (start r)) id
      else if ltb limits.max_http_header_bytes (length r.params_buffer + length content)
      then store (record c { close_socket = true }, record r { status = 1 }) id
      else store (c, record r { params_buffer = r.params_buffer ++ content }) id

  pub more_input : Connection → ℕ → Request → Connection
  more_input c id r =
      if r.params_closed && r.status == 0
      then store (request_write_fgci limits c id (run handlers.on_data r)) id
      else store (c, r) id

  pub end_of_input : Connection → ℕ → Request → Connection
  end_of_input c id r =
      if r.params_closed && r.status == 0
      then store (request_write_fgci limits c id (run handlers.on_complete r)) id
      else store (c, r) id

  pub stdin_record : Connection → ℕ → Bytes → Request → Connection
  stdin_record c id content r =
      if r.input_closed
      then c
      else if equal content []
      then end_of_input c id (record r { input_closed = true })
      else if ltb limits.max_http_body_bytes (length r.input + length content)
      then store (record c { close_socket = true }, record r { status = 1 }) id
      else more_input c id (record r { input = r.input ++ content })

  -- A record for a request that the connection does not know is passed over.
  pub for_request : (Request → Connection) → Connection → ℕ → Connection
  for_request f c id = elim (find_request id c.requests) [ none ↦ c | some r ↦ f r ]

  pub handle_record : Connection → ℕ → ℕ → Bytes → Connection
  handle_record c kind id content =
      if kind == 9
      then get_values c content
      else if kind == 1
      then begin_request c id content
      else if kind == 2
      then abort_request c id
      else if kind == 4
      then for_request (params_record c id content) c id
      else if kind == 5
      then for_request (stdin_record c id content) c id
      else if kind == 8
      then c
      else unknown_type c kind

  -- The connection, and the input that is left.
  unfoldable pub read_loop : ℕ → Connection → Bytes → Connection × Bytes
  read_loop zero c s = (c, s)
  read_loop (suc fuel) c s = elim (cut_record s) [
    | short ↦ (c, s)
    | wrong_version ↦ (record c { close_socket = true }, s)
    | whole kind id content rest ↦ read_loop fuel (handle_record c kind id content) rest
  ]

  unfoldable pub read_fgci : Connection → Bytes → Connection × Bytes
  read_fgci c input_buffer = read_loop (length input_buffer) c input_buffer
