-- ===== src/Fastcgi/Process/Reached.antt =====
-- The states that a FastCGI connection reaches.
use uce.Base.{
  ℕ, List, [], ◌∷◌, ◌++◌, ◌&&◌, ◌≡◌, sym, ap, ◌∙◌, inl, inr, Bytes, append_assoc, append-nil,
  Bool-cases,
}
use uce.Fastcgi.Process.{
  State, open_connection, send_output_buffer, received, written, Step, receive, write, close, Reach,
  here, next, received_all,
}
use uce.Fastcgi.Reader.Bounds.{
  IsSmall, AllSmall, KeepsSmall, request_write_fgci-IsSmall, read_fgci-AllSmall,
}
use uce.Fastcgi.Reader.Split.{read_fgci-append}
use uce.Fastcgi.Reader.{read_fgci}
use uce.Fastcgi.Request.{Request, Connection, Handlers}
use uce.Fastcgi.Request
use uce.Fastcgi.Response.{request_write_fgci, kept, write_requests, write_fgci}

module _ (limits : Request.Limits) where
  kept-AllSmall :
      (id : ℕ) (r : Request) (rest : List (ℕ × Request))
      → IsSmall limits r
      → AllSmall limits rest
      → AllSmall limits (kept id r rest)
  unfolding kept
  kept-AllSmall id r rest hr h = elim (Bool-cases (r.params_closed && r.input_closed)) [
    | inl e ↦ rw e h
    | inr e ↦ rw e (hr, h)
  ]

  write_requests-AllSmall :
      (c : Connection) (requests : List (ℕ × Request))
      → AllSmall limits requests
      → AllSmall limits (write_requests limits c requests).1
  unfolding write_requests
  write_requests-AllSmall c [] h = tt
  write_requests-AllSmall c ((id, r) ∷ requests) (hr, h) =
      kept-AllSmall id (request_write_fgci limits c id r).1 _
        (request_write_fgci-IsSmall limits c id r hr)
        (write_requests-AllSmall (request_write_fgci limits c id r).0 requests h)

  module _ (handlers : Handlers) (request_small : KeepsSmall limits handlers.on_request)
      (data_small : KeepsSmall limits handlers.on_data)
      (complete_small : KeepsSmall limits handlers.on_complete) where
    Step-AllSmall :
        {s t : State}
        → Step limits handlers s t
        → AllSmall limits s.0.requests
        → AllSmall limits t.0.requests
    unfolding received written write_fgci send_output_buffer
    Step-AllSmall (receive (c, input_buffer) bytes) h =
        read_fgci-AllSmall limits handlers request_small data_small complete_small c
          (input_buffer ++ bytes) h
    Step-AllSmall (write (c, input_buffer) write_result e) h =
        write_requests-AllSmall c c.requests h
    Step-AllSmall (close (c, input_buffer)) h = h

    -- With callbacks that keep what a request holds within the limits of the transport: in every
    -- state that a connection reaches, whatever arrives in whatever parts and whenever the socket takes
    -- output, the parameters and the input that each of its requests holds are within the limits.
    pub Reach-AllSmall :
        (s : State) → Reach limits handlers (open_connection, []) s → AllSmall limits s.0.requests
    Reach-AllSmall s here = tt
    Reach-AllSmall s (next {t} reached step) = Step-AllSmall step (Reach-AllSmall t reached)

unfoldable pub joined_chunks : List Bytes → Bytes
joined_chunks [] = []
joined_chunks (bytes ∷ chunks) = bytes ++ joined_chunks chunks

module _ (limits : Request.Limits) (handlers : Handlers) where
  received-received :
      (s : State) (a b : Bytes)
      → received limits handlers b (received limits handlers a s)
        ≡ received limits handlers (a ++ b) s
  unfolding received
  received-received (c, input_buffer) a b =
      read_fgci-append limits handlers c (input_buffer ++ a) b
      ∙ ap (read_fgci limits handlers c) (append_assoc input_buffer a b)

  -- Reads without a write between them are one read of all that they bring.
  pub received_all-joined_chunks :
      (chunks : List Bytes) (bytes : Bytes) (s : State)
      → received_all limits handlers (bytes ∷ chunks) s
        ≡ received limits handlers (bytes ++ joined_chunks chunks) s
  unfolding received_all joined_chunks
  received_all-joined_chunks [] bytes s =
      ap (λ b. received limits handlers b s) (sym (append-nil bytes))
  received_all-joined_chunks (next_bytes ∷ chunks) bytes s =
      received_all-joined_chunks chunks next_bytes (received limits handlers bytes s)
      ∙ received-received s bytes (next_bytes ++ joined_chunks chunks)
