-- ===== src/Fastcgi/Response/Once.antt =====
-- What src/fastcgi/src/fcgicc.cc writes when it comes back to a request that it has answered.
use uce.Base.{
  ℕ, Bool, true, false, [], ◌∷◌, ◌++◌, ◌≡◌, refl, ap, sym, ◌∙◌, inl, inr, Bytes, length, ltb, equal,
  equal_refl, equal-append_cons, ◌==◌, ◌&&◌, ◌||◌, not, if◌then◌else◌, Bool-cases,
}
use mathlib.Core.Path.{subst}
use uce.Fastcgi.Request.{Request, Connection, Limits}
use uce.Fastcgi.Response.{
  body, assemble_output_buffer, write_out, write_err, complete, write_end, request_write_fgci,
  end_request_record,
}
use uce.Fastcgi.{write_data_fcgi}
use uce.Http.{response_head, http_status_line_clean}

-- A request whose input has ended and that is not yet answered; nothing waits to be written.
abbrev pub answerable : Request → Request
answerable r = record r { out = []; err = []; input_closed = true; output_closed = false }

equal_nil_append : (p : Bytes) (c : ℕ) (s rest : Bytes) → equal ((p ++ c ∷ s) ++ rest) [] ≡ false
unfolding equal
equal_nil_append [] c s rest = refl
equal_nil_append (x ∷ p) c s rest = refl

if_true : {A : Type 0} (b : Bool) (p q : A) → b ≡ true → (if b then p else q) ≡ p
if_true b p q e = rw e refl

if_false : {A : Type 0} (b : Bool) (p q : A) → b ≡ false → (if b then p else q) ≡ q
if_false b p q e = rw e refl

if_and_not : {A : Type 0} (x b : Bool) (p q : A) → b ≡ true → (if x && not b then p else q) ≡ q
if_and_not true b p q e = rw e refl
if_and_not false b p q e = refl

-- The output behind which a request is answered: the response, an empty error stream and the end.
abbrev written_by : Connection → ℕ → Request → Bytes
written_by c id r =
    write_data_fcgi (write_data_fcgi c.output_buffer id r.out 6) id [] 7
    ++ end_request_record id r.status 0

module _ (limits : Limits) where
  -- The fields of an assembled request that decide what is written later.
  assemble_output_buffer_fields :
      (r : Request)
      → (equal (assemble_output_buffer limits r).out [] ≡ false)
        × ((assemble_output_buffer limits r).err ≡ r.err)
        × ((assemble_output_buffer limits r).output_closed ≡ true)
  unfolding assemble_output_buffer
  assemble_output_buffer_fields r =
      elim (Bool-cases (
        ltb limits.max_response_bytes
          (length (response_head r.response_code r.header r.set_cookies ++ body r.ob_stack)))) [
            | inl e ↦ rw e (equal-append_cons (http_status_line_clean _) 13 _, refl, refl)
            | inr e ↦ rw e (
              unfold response_head in
                  equal_nil_append (http_status_line_clean r.response_code) 13 _ (body r.ob_stack),
              refl,
              refl,
            )
          ]

  write_end_closed :
      (c : Connection) (id : ℕ) (r : Request)
      → r.output_closed ≡ true
      → write_end limits c id r ≡ (c, r)
  unfolding write_end
  write_end_closed c id r closed =
      if_and_not (r.input_closed || not (r.status == 0)) r.output_closed _ _ closed

  write_err_none :
      (c : Connection) (id : ℕ) (r : Request) → equal r.err [] ≡ true → write_err c id r ≡ (c, r)
  unfolding write_err
  write_err_none c id r none = if_true (equal r.err []) _ _ none

  write_out_some :
      (c : Connection) (id : ℕ) (r : Request)
      → equal r.out [] ≡ false
      → write_out c id r ≡ (
        record c { output_buffer = write_data_fcgi c.output_buffer id r.out 6 },
        record r { out = [] },
      )
  unfolding write_out
  write_out_some c id r some = if_false (equal r.out []) _ _ some

  -- A request that is answered, and that has an output but no error.
  request_write_fgci_closed :
      (c : Connection) (id : ℕ) (r : Request)
      → equal r.out [] ≡ false
      → equal r.err [] ≡ true
      → r.output_closed ≡ true
      → request_write_fgci limits c id r ≡ (
        record c { output_buffer = write_data_fcgi c.output_buffer id r.out 6 },
        record r { out = [] },
      )
  unfolding request_write_fgci
  request_write_fgci_closed c id r out no_err closed =
      ap (λ w. let (c2, r2) = write_err w.0 id w.1 in write_end limits c2 id r2)
        (write_out_some c id r out)
      ∙ ap (λ w. write_end limits w.0 id w.1) (write_err_none _ id (record r { out = [] }) no_err)
      ∙ write_end_closed _ id (record r { out = [] }) closed

  -- What the connection and the request are when a request is answered.
  abbrev pub answered : Connection → ℕ → Request → Connection × Request
  answered c id r = request_write_fgci limits c id (answerable r)

  answered-complete :
      (c : Connection) (id : ℕ) (r : Request)
      → answered c id r ≡ complete limits c id (answerable r)
  unfolding request_write_fgci write_out write_err write_end equal
  answered-complete c id r = refl

  -- For a request whose input has ended, with no output and no error text waiting: the call of
  -- `request_write_fgci` that answers it writes the response, an empty error stream and the end of the
  -- request. Its output is closed then but still holds the response, so that another call writes that
  -- same response again behind the end of the request.
  pub request_write_fgci-again :
      (c : Connection) (id : ℕ) (r : Request)
      → let response = (answered c id r).1.out in
        (equal response [] ≡ false)
        × ((answered c id r).0.output_buffer
            ≡ write_data_fcgi (write_data_fcgi c.output_buffer id response 6) id [] 7
              ++ end_request_record id (answered c id r).1.status 0)
        × ((answered c id r).1.output_closed ≡ true)
        × (request_write_fgci limits (answered c id r).0 id (answered c id r).1 ≡ (
          record (answered c id r).0 {
            output_buffer = write_data_fcgi (answered c id r).0.output_buffer id response 6;
          },
          record (answered c id r).1 { out = [] },
        ))
  unfolding complete
  request_write_fgci-again c id r =
      let (some, none, closed) = assemble_output_buffer_fields (answerable r) in
      let whole = answered-complete c id r in
      let out = ap (λ w. equal w.1.out []) whole ∙ some in
      let err = ap (λ w. equal w.1.err []) whole ∙ ap (λ e. equal e []) none in
      let end = ap (λ w. w.1.output_closed) whole ∙ closed in
      let written =
        subst (λ w. w.0.output_buffer ≡ written_by c id w.1) (sym whole)
          (ap
            (λ e.
              let d = assemble_output_buffer limits (answerable r) in
              write_data_fcgi (write_data_fcgi c.output_buffer id d.out 6) id e 7
              ++ end_request_record id d.status 0)
            none) in
      (out, written, end, request_write_fgci_closed _ id _ out (err ∙ equal_refl []) end)
