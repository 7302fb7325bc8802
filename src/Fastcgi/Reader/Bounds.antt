-- ===== src/Fastcgi/Reader/Bounds.antt =====
-- The buffers of the requests of a FastCGI connection stay within the limits of the transport.
use uce.Base.{
  ℕ, zero, suc, ◌+◌, ◌*◌, ◌^◌, ◌≤◌, Bool, true, false, List, [], ◌∷◌, ◌++◌, ◌≡◌, ◌∙◌, refl, inl,
  inr, some, Bytes, length, ltb, equal, ◌==◌, ◌&&◌, ◌||◌, not, if◌then◌else◌, arith, length-append,
  Bool-cases, Option-cases, All,
}
use uce.Fastcgi.Reader.{
  Cut, short, wrong_version, whole, cut_record, get_values, answer_and_close, begin_request,
  abort_request, unknown_type, store, run, start, params_record, more_input, end_of_input,
  stdin_record, for_request, handle_record, read_loop, read_fgci,
}
use uce.Fastcgi.Request.{
  Request, Connection, Handlers, find_request, put_request, erase_request, new_request,
}
use uce.Fastcgi.Request
use uce.Fastcgi.{parse_pairs_fcgi}
use uce.WebSocket.Frame.{raw}
use uce.Http.{response_head}
use uce.Fastcgi.Response.{
  body, assemble_output_buffer, write_out, write_err, complete, write_end, request_write_fgci,
}

module _ (limits : Request.Limits) where
  -- The parameters and the input that a request holds.
  abbrev pub IsSmall : Request → Type 0
  IsSmall r =
      (length r.params_buffer ≤ limits.max_http_header_bytes)
      × (length r.input ≤ limits.max_http_body_bytes)

  abbrev pub AllSmall : List (ℕ × Request) → Type 0
  AllSmall = All (λ e. IsSmall e.1)

  -- A callback that leaves a small request small.
  abbrev pub KeepsSmall : (Request → Request × ℕ) → Type 0
  KeepsSmall callback = (r : Request) → IsSmall r → IsSmall (callback r).0

  find_request-IsSmall :
      (id : ℕ) (requests : List (ℕ × Request)) (r : Request)
      → AllSmall requests
      → find_request id requests ≡ some r
      → IsSmall r
  unfolding find_request
  find_request-IsSmall id [] r h e = cc
  find_request-IsSmall id ((j, q) ∷ requests) r (hq, h) e =
      ground (arith, find_request-IsSmall id requests r h)

  put_request-AllSmall :
      (id : ℕ) (r : Request) (requests : List (ℕ × Request))
      → IsSmall r
      → AllSmall requests
      → AllSmall (put_request id r requests)
  unfolding put_request
  put_request-AllSmall id r [] hr h = (hr, tt)
  put_request-AllSmall id r ((j, q) ∷ requests) hr (hq, h) = elim (Bool-cases (ltb id j)) [
    | inl before ↦ rw before (hr, (hq, h))
    | inr e ↦ elim (Bool-cases (id == j)) [
      | inl same ↦ rw (e, same) (hr, h)
      | inr other ↦ rw (e, other) (hq, put_request-AllSmall id r requests hr h)
    ]
  ]

  erase_request-AllSmall :
      (id : ℕ) (requests : List (ℕ × Request))
      → AllSmall requests
      → AllSmall (erase_request id requests)
  unfolding erase_request
  erase_request-AllSmall id [] h = tt
  erase_request-AllSmall id ((j, q) ∷ requests) (hq, h) = elim (Bool-cases (j == id)) [
    | inl e ↦ rw e h
    | inr e ↦ rw e (hq, erase_request-AllSmall id requests h)
  ]

  -- What writing leaves as it is.
  Unmoved : Connection → Request → Connection × Request → Type 0
  Unmoved c r (d, q) =
      (d.requests ≡ c.requests) × (q.params_buffer ≡ r.params_buffer) × (q.input ≡ r.input)

  Unmoved-trans :
      (c : Connection) (r : Request) (x y : Connection × Request)
      → Unmoved c r x
      → Unmoved x.0 x.1 y
      → Unmoved c r y
  unfolding Unmoved
  Unmoved-trans c r x y (a, b, e) (a', b', e') = (a' ∙ a, b' ∙ b, e' ∙ e)

  write_out-Unmoved : (c : Connection) (id : ℕ) (r : Request) → Unmoved c r (write_out c id r)
  unfolding Unmoved write_out
  write_out-Unmoved c id r = elim (Bool-cases (equal r.out [])) [
    | inl e ↦ rw e (refl, refl, refl)
    | inr e ↦ rw e (refl, refl, refl)
  ]

  write_err-Unmoved : (c : Connection) (id : ℕ) (r : Request) → Unmoved c r (write_err c id r)
  unfolding Unmoved write_err
  write_err-Unmoved c id r = elim (Bool-cases (equal r.err [])) [
    | inl e ↦ rw e (refl, refl, refl)
    | inr e ↦ rw e (refl, refl, refl)
  ]

  complete-Unmoved : (c : Connection) (id : ℕ) (r : Request) → Unmoved c r (complete limits c id r)
  unfolding Unmoved complete assemble_output_buffer
  complete-Unmoved c id r =
      elim (Bool-cases (
        ltb limits.max_response_bytes
          (length (response_head r.response_code r.header r.set_cookies ++ body r.ob_stack)))) [
            | inl e ↦ rw e (refl, refl, refl)
            | inr e ↦ rw e (refl, refl, refl)
          ]

  write_end-Unmoved :
      (c : Connection) (id : ℕ) (r : Request) → Unmoved c r (write_end limits c id r)
  unfolding write_end
  write_end-Unmoved c id r =
      elim (Bool-cases ((r.input_closed || not (r.status == 0)) && not r.output_closed)) [
        | inl e ↦ rw e (complete-Unmoved c id r)
        | inr e ↦ rw e (unfold Unmoved in (refl, refl, refl))
      ]

  request_write_fgci-Unmoved :
      (c : Connection) (id : ℕ) (r : Request) → Unmoved c r (request_write_fgci limits c id r)
  unfolding request_write_fgci
  request_write_fgci-Unmoved c id r =
      let x = write_out c id r in
      let y = write_err x.0 id x.1 in
      Unmoved-trans c r x _ (write_out-Unmoved c id r)
        (Unmoved-trans x.0 x.1 y _ (write_err-Unmoved x.0 id x.1) (write_end-Unmoved y.0 id y.1))

  pub request_write_fgci-IsSmall :
      (c : Connection) (id : ℕ) (r : Request)
      → IsSmall r
      → IsSmall (request_write_fgci limits c id r).1
  unfolding Unmoved
  request_write_fgci-IsSmall c id r (hp, hi) =
      let (_, b, e) = request_write_fgci-Unmoved c id r in rw (b, e) (hp, hi)

  store-AllSmall :
      (c : Connection) (id : ℕ) (r : Request) (x : Connection × Request)
      → Unmoved c r x
      → AllSmall c.requests
      → IsSmall r
      → AllSmall (store x id).requests
  unfolding Unmoved store
  store-AllSmall c id r (d, q) (a, b, e) h (hp, hi) =
      put_request-AllSmall id q d.requests (rw (b, e) (hp, hi)) (rw a h)

  -- Writing the answer leaves the other requests alone.
  AllSmall-written :
      (c : Connection) (id : ℕ) (r : Request)
      → AllSmall c.requests
      → IsSmall r
      → AllSmall (store (request_write_fgci limits c id r) id).requests
  AllSmall-written c id r =
      store-AllSmall c id r (request_write_fgci limits c id r) (request_write_fgci-Unmoved c id r)

  -- Both branches of a test.
  AllSmall-if :
      (b : Bool) (c d : Connection)
      → (b ≡ true → AllSmall c.requests)
      → (b ≡ false → AllSmall d.requests)
      → AllSmall (if b then c else d).requests
  AllSmall-if true c d h k = h refl
  AllSmall-if false c d h k = k refl

  module _ (handlers : Handlers) (request_small : KeepsSmall handlers.on_request)
      (data_small : KeepsSmall handlers.on_data)
      (complete_small : KeepsSmall handlers.on_complete) where
    run-IsSmall :
        (callback : Request → Request × ℕ) (r : Request)
        → KeepsSmall callback
        → IsSmall r
        → IsSmall (run callback r)
    unfolding run
    run-IsSmall callback r keeps h = keeps r h

    start-IsSmall : (r : Request) → IsSmall r → IsSmall (start limits handlers r)
    unfolding start
    start-IsSmall r (hp, hi) =
        let r0 : Request = record r {
          params = parse_pairs_fcgi r.params_buffer;
          params_buffer = [];
          params_closed = true;
        } in
        let r1 = run handlers.on_request r0 in
        let r2 = run handlers.on_data r1 in
        let h1 = run-IsSmall handlers.on_request r0 request_small (omega arith, hi) in
        let h2 = run-IsSmall handlers.on_data r1 data_small h1 in
        let h3 = run-IsSmall handlers.on_complete r2 complete_small h2 in
        elim (Bool-cases (r1.status == 0 && not (equal r1.input []))) [
          | inr e ↦ rw e h1
          | inl e ↦ elim (Bool-cases (r2.status == 0 && r2.input_closed)) [
            | inl d ↦ rw (e, d) h3
            | inr d ↦ rw (e, d) h2
          ]
        ]

    params_record-AllSmall :
        (c : Connection) (id : ℕ) (content : Bytes) (r : Request)
        → AllSmall c.requests
        → IsSmall r
        → AllSmall (params_record limits handlers c id content r).requests
    unfolding params_record store
    params_record-AllSmall c id content r h (hp, hi) =
        AllSmall-if r.params_closed _ _ (λ _. h)
          λ _.
            AllSmall-if (equal content []) _ _
              (λ _. AllSmall-written c id (start limits handlers r) h (start-IsSmall r (hp, hi)))
              λ _.
                AllSmall-if
                  (ltb limits.max_http_header_bytes (length r.params_buffer + length content)) _ _
                  (λ _. put_request-AllSmall id (record r { status = 1 }) c.requests (hp, hi) h)
                  (λ fits.
                    put_request-AllSmall id
                      (record r { params_buffer = r.params_buffer ++ content }) c.requests
                      (rw length-append (ground arith), hi) h)

    after_input-AllSmall :
        (callback : Request → Request × ℕ) (c : Connection) (id : ℕ) (r : Request)
        → KeepsSmall callback
        → AllSmall c.requests
        → IsSmall r
        → AllSmall
            (if r.params_closed && r.status == 0
              then store (request_write_fgci limits c id (run callback r)) id
              else store (c, r) id).requests
    unfolding store
    after_input-AllSmall callback c id r keeps h hr =
        elim (Bool-cases (r.params_closed && r.status == 0)) [
          | inl e ↦
              rw e (AllSmall-written c id (run callback r) h (run-IsSmall callback r keeps hr))
          | inr e ↦ rw e (put_request-AllSmall id r c.requests hr h)
        ]

    stdin_record-AllSmall :
        (c : Connection) (id : ℕ) (content : Bytes) (r : Request)
        → AllSmall c.requests
        → IsSmall r
        → AllSmall (stdin_record limits handlers c id content r).requests
    unfolding stdin_record more_input end_of_input store
    stdin_record-AllSmall c id content r h (hp, hi) =
        AllSmall-if r.input_closed _ _ (λ _. h)
          λ _.
            AllSmall-if (equal content []) _ _
              (λ _.
                after_input-AllSmall handlers.on_complete c id (record r { input_closed = true })
                  complete_small h (hp, hi))
              λ _.
                AllSmall-if (ltb limits.max_http_body_bytes (length r.input + length content)) _ _
                  (λ _. put_request-AllSmall id (record r { status = 1 }) c.requests (hp, hi) h)
                  (λ fits.
                    after_input-AllSmall handlers.on_data c id
                      (record r { input = r.input ++ content }) data_small h
                      (hp, rw length-append (ground arith)))

    for_request-AllSmall :
        (f : Request → Connection) (c : Connection) (id : ℕ)
        → AllSmall c.requests
        → ((r : Request) → IsSmall r → AllSmall (f r).requests)
        → AllSmall (for_request limits handlers f c id).requests
    unfolding for_request
    for_request-AllSmall f c id h k = elim (Option-cases (find_request id c.requests)) [
      | inl e ↦ rw (e, for_request) h
      | inr (r, e) ↦ rw (e, for_request) (k r (find_request-IsSmall id c.requests r h e))
    ]

    begin_request-AllSmall :
        (c : Connection) (id : ℕ) (content : Bytes)
        → AllSmall c.requests
        → AllSmall (begin_request c id content).requests
    unfolding begin_request answer_and_close
    begin_request-AllSmall c id content h =
        let fresh = put_request-AllSmall id new_request c.requests (omega arith, omega arith) h in
        elim (Bool-cases (ltb (length content) 8)) [
          | inl e ↦ rw e h
          | inr e ↦ elim (Bool-cases (raw content 0 * 2 ^ 8 + raw content 1 == 1)) [
            | inl d ↦ rw (e, d) fresh
            | inr d ↦ rw (e, d) h
          ]
        ]

    abort_request-AllSmall :
        (c : Connection) (id : ℕ) → AllSmall c.requests → AllSmall (abort_request c id).requests
    unfolding abort_request answer_and_close
    abort_request-AllSmall c id h = elim (Option-cases (find_request id c.requests)) [
      | inl e ↦ rw (e, abort_request) h
      | inr (r, e) ↦ rw (e, abort_request) (erase_request-AllSmall id c.requests h)
    ]

    handle_record-AllSmall :
        (c : Connection) (kind id : ℕ) (content : Bytes)
        → AllSmall c.requests
        → AllSmall (handle_record limits handlers c kind id content).requests
    unfolding handle_record
    handle_record-AllSmall c kind id content h =
        by_kind (kind == 9) (kind == 1) (kind == 2) (kind == 4) (kind == 5) (kind == 8)
      where
        by_kind :
            (b9 b1 b2 b4 b5 b8 : Bool)
            → AllSmall
                (if b9
                  then get_values c content
                  else if b1
                  then begin_request c id content
                  else if b2
                  then abort_request c id
                  else if b4
                  then for_request limits handlers (params_record limits handlers c id content) c id
                  else if b5
                  then for_request limits handlers (stdin_record limits handlers c id content) c id
                  else if b8
                  then c
                  else unknown_type c kind).requests
        by_kind true _ _ _ _ _ = unfold get_values in h
        by_kind false true _ _ _ _ = begin_request-AllSmall c id content h
        by_kind false false true _ _ _ = abort_request-AllSmall c id h
        by_kind false false false true _ _ =
            for_request-AllSmall _ c id h (λ r hr. params_record-AllSmall c id content r h hr)
        by_kind false false false false true _ =
            for_request-AllSmall _ c id h (λ r hr. stdin_record-AllSmall c id content r h hr)
        by_kind false false false false false true = h
        by_kind false false false false false false = unfold unknown_type in h

    read_loop-AllSmall :
        (fuel : ℕ) (c : Connection) (s : Bytes)
        → AllSmall c.requests
        → AllSmall (read_loop limits handlers fuel c s).0.requests
    unfolding read_loop
    read_loop-AllSmall zero c s h = h
    read_loop-AllSmall (suc fuel) c s h =
        by_cut (cut_record s) (λ d rest hd. read_loop-AllSmall fuel d rest hd)
      where
        by_cut :
            (u : Cut)
            → ((d : Connection) (rest : Bytes)
                → AllSmall d.requests
                → AllSmall (read_loop limits handlers fuel d rest).0.requests)
            → AllSmall
                (elim u as (λ _. Connection × Bytes) [
                  | short ↦ (c, s)
                  | wrong_version ↦ (record c { close_socket = true }, s)
                  | whole kind id content rest ↦
                      read_loop limits handlers fuel
                        (handle_record limits handlers c kind id content)
                        rest
                ]).0.requests
        by_cut short k = h
        by_cut wrong_version k = h
        by_cut (whole kind id content rest) k =
            k _ rest (handle_record-AllSmall c kind id content h)

    -- With callbacks that leave the parameters and the input of a request within the limits of the
    -- transport: when they are within them for every request of a connection, they are so after reading
    -- any input.
    pub read_fgci-AllSmall :
        (c : Connection) (input_buffer : Bytes)
        → AllSmall c.requests
        → AllSmall (read_fgci limits handlers c input_buffer).0.requests
    unfolding read_fgci
    read_fgci-AllSmall c input_buffer h = read_loop-AllSmall (length input_buffer) c input_buffer h
