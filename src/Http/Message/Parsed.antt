-- ===== src/Http/Message/Parsed.antt =====
-- What src/fastcgi/src/fcgicc.cc takes for an HTTP message.
use uce.Base.{
  ℕ, ◌+◌, ◌%◌, ◌^◌, ◌≤◌, ◌<◌, Bool, true, false, ◌++◌, ◌≡◌, refl, sym, ap, ◌∙◌, ◌⊎◌, inl, inr, some,
  Bytes, length, take, drop, ltb, find, find→eq, if◌then◌else◌, arith, Option-cases, length-take,
  length-drop, take-drop,
}
use uce.Base.Slices.{drop-drop}
use uce.Fastcgi.Request.{Request, Connection}
use uce.Fastcgi.Request
use uce.Http.Message.{
  reject_http_connection, blank_line, Parse, with_params, declared_length, parse_body,
  parse_http_message,
}

rejected_closes :
    (c : Connection) (status_line body extra : Bytes)
    → (reject_http_connection c status_line body extra).close_socket ≡ true
unfolding reject_http_connection
rejected_closes c status_line body extra = refl

-- The parts of a text with a blank line in it and a number of bytes behind that.
cut_message :
    (buffer : Bytes) (header_end len : ℕ)
    → find blank_line buffer ≡ some header_end
    → header_end + 4 + len ≤ length buffer
    → (buffer
        ≡ take header_end buffer
          ++ (blank_line
              ++ (take len (drop (header_end + 4) buffer) ++ drop (header_end + 4 + len) buffer)))
      × (length (take header_end buffer) ≡ header_end)
      × (length (take len (drop (header_end + 4) buffer)) ≡ len)
cut_message buffer header_end len found enough = (
  find→eq blank_line buffer found
      ∙ ap (λ s. take header_end buffer ++ (blank_line ++ s))
          (sym (take-drop len (drop (header_end + 4) buffer))
            ∙ ap (λ s. take len (drop (header_end + 4) buffer) ++ s)
                (drop-drop len (header_end + 4) buffer)),
  length-take header_end buffer (omega arith),
  length-take len (drop (header_end + 4) buffer)
      (omega (arith, length-drop (header_end + 4) buffer)),
)

module _ (limits : Request.Limits) (int_val : Bytes → ℕ) (c : Connection) (buffer : Bytes) where
  -- A message that is accepted is at the front of the buffer: a head within its limit, an empty line,
  -- and a body within its limit that has the length that the head declares; the rest is left.
  abbrev pub Accepted : Parse → Type 0
  Accepted (ok, (d, (q, rest))) =
      (ok ≡ true)
      × (d ≡ c)
      × (q.input_closed ≡ true)
      × (length q.input ≡ declared_length int_val q)
      × (length q.input ≤ limits.max_http_body_bytes)
      × ((head : Bytes) × (buffer ≡ head ++ (blank_line ++ (q.input ++ rest)))
          × (length head ≤ limits.max_http_header_bytes))

  -- A message that is not accepted takes nothing off the buffer; it waits for more with the connection
  -- as it is, or it is rejected and the socket is to be closed.
  abbrev pub Refused : Parse → Type 0
  Refused (ok, (d, (q, rest))) =
      (ok ≡ false) × (rest ≡ buffer) × ((d ≡ c) ⊎ (d.close_socket ≡ true))

  abbrev pub Decided : Parse → Type 0
  Decided w = Accepted w ⊎ Refused w

  Decided-if :
      (b : Bool) (p q : Parse)
      → (b ≡ true → Decided p)
      → (b ≡ false → Decided q)
      → Decided (if b then p else q)
  Decided-if true p q hp hq = hp refl
  Decided-if false p q hp hq = hq refl

  parse_body-Decided :
      limits.max_http_header_bytes + limits.max_http_body_bytes + 4 < 2 ^ 64
      → (r : Request) (header_end : ℕ) → find blank_line buffer ≡ some header_end
      → header_end ≤ limits.max_http_header_bytes
      → Decided (parse_body limits int_val c r header_end buffer)
  unfolding parse_body declared_length
  parse_body-Decided fits r header_end found small =
      let len = declared_length int_val r in
      let size = (header_end + 4 + len) % 2 ^ 64 in
      Decided-if (ltb limits.max_http_body_bytes len) _ _
        (λ _. inr (refl, refl, inr (rejected_closes c _ _ _)))
        (λ body.
          Decided-if
            (ltb ((limits.max_http_header_bytes + limits.max_http_body_bytes) % 2 ^ 64) size) _ _
            (λ _. inr (refl, refl, inr (rejected_closes c _ _ _)))
            (λ _.
              Decided-if (ltb (length buffer) size) _ _ (λ _. inr (refl, refl, inl refl))
                (λ whole. inl (
                  let short : len ≤ limits.max_http_body_bytes = ground arith in
                  let whole_size : size ≡ header_end + 4 + len = omega arith in
                  let enough : size ≤ length buffer = ground arith in
                  let (parts, head, body_length) =
                    cut_message buffer header_end len found (omega arith) in
                  (
                    refl,
                    refl,
                    refl,
                    body_length,
                    omega arith,
                    (take header_end buffer, rw whole_size parts, omega arith),
                  )))))

  -- Every message that `parse_http_message` accepts is a part of the buffer at its front, with the
  -- declared length of the body and within the limits; every other call leaves the buffer as it is and
  -- either waits for more or rejects the connection. The limits and four fit 64 bits.
  pub parse_http_message-Decided :
      (r : Request)
      → limits.max_http_header_bytes + limits.max_http_body_bytes + 4 < 2 ^ 64
      → Decided (parse_http_message limits int_val c r buffer)
  unfolding parse_http_message
  parse_http_message-Decided r fits = elim (Option-cases (find blank_line buffer)) [
    | inl e ↦
        rw (e, parse_http_message)
          (Decided-if (ltb limits.max_http_header_bytes (length buffer)) _ _
            (λ _. inr (refl, refl, inr (rejected_closes c _ _ _)))
            (λ _. inr (refl, refl, inl refl)))
    | inr (header_end, e) ↦
        rw (e, parse_http_message)
          (Decided-if (ltb limits.max_http_header_bytes header_end) _ _
            (λ _. inr (refl, refl, inr (rejected_closes c _ _ _)))
            (λ small.
              parse_body-Decided fits (with_params r header_end buffer) header_end e
                (ground arith)))
  ]
