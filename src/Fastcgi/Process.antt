-- ===== src/Fastcgi/Process.antt =====
-- What `process` of src/fastcgi/src/fcgicc.cc does with one FastCGI connection, as steps: the socket
-- decides what arrives, when it ends, and how much of the output it takes. The state is the connection
-- with its input buffer.
pub mod Reached
use uce.Base.{ℕ, Bool, true, false, List, [], ◌∷◌, ◌++◌, ◌≡◌, Bytes, drop, equal}
use uce.Fastcgi.Reader.{read_fgci}
use uce.Fastcgi.Request.{Connection, Handlers}
use uce.Fastcgi.Request
use uce.Fastcgi.Response.{write_fgci}

abbrev pub State : Type 0
State = Connection × Bytes

abbrev pub open_connection : Connection
open_connection = record {
  output_buffer = [];
  close_responsibility = false;
  close_socket = false;
  requests = [];
}

-- `send_output_buffer`, where the socket takes so many bytes.
unfoldable pub send_output_buffer : ℕ → Connection → Connection
send_output_buffer write_result c = record c { output_buffer = drop write_result c.output_buffer }

module _ (limits : Request.Limits) (handlers : Handlers) where
  unfoldable pub received : Bytes → State → State
  received bytes (c, input_buffer) = read_fgci limits handlers c (input_buffer ++ bytes)

  unfoldable pub written : ℕ → State → State
  written write_result (c, input_buffer) =
      (send_output_buffer write_result (write_fgci limits c), input_buffer)

  -- One thing that happens in a round; the end of the input and an idle connection close the socket.
  pub data Step : State → State → Type 0 where
    receive : (s : State) (bytes : Bytes) → Step s (received bytes s)
    write :
        (s : State) (write_result : ℕ)
        → equal s.0.output_buffer [] ≡ false
        → Step s (written write_result s)
    close : (s : State) → Step s (record s.0 { close_socket = true }, s.1)

  pub data Reach (s : State) : State → Type 0 where
    here : Reach s s
    next : {t u : State} → Reach s t → Step t u → Reach s u

  -- A number of reads without a write between them.
  unfoldable pub received_all : List Bytes → State → State
  received_all [] s = s
  received_all (bytes ∷ chunks) s = received_all chunks (received bytes s)
