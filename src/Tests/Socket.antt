-- ===== src/Tests/Socket.antt =====
-- WebSocket frames at concrete inputs.
use uce.Base.{true, [], ◌∷◌, ◌++◌, ◌≡◌, refl, codes, arith, Bytes}
use uce.WebSocket.Frame.Encode.{wire_frame, parse-wire_frame}
use uce.WebSocket.Frame.Stream.{parse-append}
use uce.WebSocket.Frame.{
  length_bytes, invalid, parsed, non_minimal_length, frame_size, frame_error, sized_frame, sized,
  unmask, parse, ws_close_frame,
}

abbrev key : Bytes
key = 1 ∷ 2 ∷ 3 ∷ 4 ∷ []

close_frame : ws_close_frame 1000 (codes "bye") ≡ 136 ∷ 5 ∷ 3 ∷ 232 ∷ codes "bye"
unfolding ws_close_frame
close_frame = refl

-- A length that fits the short form must use it.
long_form_refused : parse (129 ∷ 126 ∷ 0 ∷ 5 ∷ codes "hello") ≡ invalid non_minimal_length
unfolding parse sized frame_size
long_form_refused = refl

parse-wire_frame_example :
    parse (wire_frame true key (codes "hi") 1 true ++ codes "next")
    ≡ parsed (record {
      opcode = 1;
      is_final_fragment = true;
      mask_bit = true;
      payload_length = 2;
      header_length = 6;
      frame_length = 8;
      payload = codes "hi";
    })
unfolding length_bytes unmask
parse-wire_frame_example =
    parse-wire_frame true key (codes "hi") (codes "next") 1 true refl (omega arith) (omega arith)
      (omega arith) (omega arith) refl

parse-append_example : parse ((129 ∷ 2 ∷ codes "hi") ++ codes "more") ≡ parse (129 ∷ 2 ∷ codes "hi")
unfolding parse sized frame_size sized_frame frame_error
parse-append_example = parse-append (129 ∷ 2 ∷ codes "hi") (codes "more") (omega arith) (λ e. cc e)
