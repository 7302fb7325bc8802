-- ===== src/Tests/Reader.antt =====
-- A FastCGI connection at concrete inputs.
use uce.Base.{true, false, [], ◌∷◌, ◌++◌, ◌≡◌, Bytes, codes, equal}
use uce.Fastcgi.Process.Reached.{Reach-AllSmall}
use uce.Fastcgi.Process.{State, open_connection, received, receive, here, next}
use uce.Fastcgi.Reader.Bounds.{AllSmall}
use uce.Fastcgi.Reader.Split.{read_fgci-append}
use uce.Fastcgi.Reader.{read_fgci}
use uce.Fastcgi.Request.{Request, Connection, Handlers, new_request}
use uce.Fastcgi.Request
use uce.Fastcgi.Response.Once.{answered, request_write_fgci-again}
use uce.Fastcgi.Response.{end_request_record, request_write_fgci}
use uce.Fastcgi.{write_data_fcgi}

abbrev limits : Request.Limits
limits = record { max_http_header_bytes = 4; max_http_body_bytes = 4; max_response_bytes = 1000 }

abbrev handlers : Handlers
handlers = record {
  on_request = λ r. (r, 0);
  on_data = λ r. (r, 0);
  on_complete = λ r. (record r { out = codes "done" }, 0);
}

abbrev connection : Connection
connection = record {
  output_buffer = [];
  close_responsibility = false;
  close_socket = false;
  requests = [];
}

-- The begin of request 1 and a record of its parameters.
abbrev first_part : Bytes
first_part = 1 ∷ 1 ∷ 0 ∷ 1 ∷ 0 ∷ 8 ∷ 0 ∷ 0 ∷ 0 ∷ 1 ∷ 0 ∷ 0 ∷ 0 ∷ []

abbrev second_part : Bytes
second_part = 0 ∷ 0 ∷ 0 ∷ 1 ∷ 4 ∷ 0 ∷ 1 ∷ 0 ∷ 2 ∷ 1 ∷ 0 ∷ 9 ∷ 9 ∷ 7 ∷ []

read_fgci-append_example :
    let (d, left) = read_fgci limits handlers connection first_part in
    read_fgci limits handlers d (left ++ second_part)
    ≡ read_fgci limits handlers connection (first_part ++ second_part)
read_fgci-append_example = read_fgci-append limits handlers connection first_part second_part

abbrev reached : State
reached =
    received limits handlers second_part (received limits handlers first_part (open_connection, []))

Reach-AllSmall_example : AllSmall limits reached.0.requests
Reach-AllSmall_example =
    Reach-AllSmall limits handlers (λ r h. h) (λ r h. h) (λ r h. h) reached
      (next (next here (receive (open_connection, []) first_part))
        (receive (received limits handlers first_part (open_connection, [])) second_part))

request_write_fgci-again_example :
    let (d, r) = answered limits connection 1 new_request in
    (equal r.out [] ≡ false)
    × (d.output_buffer
        ≡ write_data_fcgi (write_data_fcgi connection.output_buffer 1 r.out 6) 1 [] 7
          ++ end_request_record 1 r.status 0)
    × (r.output_closed ≡ true)
    × (request_write_fgci limits d 1 r ≡ (
      record d { output_buffer = write_data_fcgi d.output_buffer 1 r.out 6 },
      record r { out = [] },
    ))
request_write_fgci-again_example = request_write_fgci-again limits connection 1 new_request
