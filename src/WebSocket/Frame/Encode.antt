-- ===== src/WebSocket/Frame/Encode.antt =====
-- What `ws_encode_frame` writes, and what a client writes by the protocol, is read back by `parse`.
use uce.Base.{
  ℕ, suc, ◌+◌, ◌%◌, ◌^◌, ◌≤◌, ◌<◌, Bool, true, false, [], ◌∷◌, ◌++◌, ◌&&◌, ◌||◌, ◌≡◌, refl, sym, ap,
  ◌∙◌, none, Bytes, length, take, drop, ltb, get_or, if◌then◌else◌, bit_and, bit_or, bit_xor, ap₂,
  arith, length-append, All, IsByte, replicate, append_assoc, take-length_append,
  drop-length_append,
}
use mathlib.Core.Path.{subst}
use uce.Base.Bits.{low_4_bits, low_half_fields, topped_fields, xor_twice}
use uce.Base.Slices.{get_or-lt, drop-drop}
use uce.WebSocket.Frame.Lengths.{flagged, header_size, parse_sized, length-header, drop-header}
use uce.WebSocket.Frame.Stream.{unmask-append}
use uce.WebSocket.Frame.{
  parsed, is_set, unmask, frame_error, frame_payload, frame_at, sized_frame, parse, length_bytes,
  ws_encode_frame,
}

abbrev first_byte : Bool → ℕ → ℕ
first_byte final opcode = if final then bit_or opcode 0x80 else opcode

-- The bytes under a mask of four bytes: each is combined with the first byte of the mask, which then
-- goes to its end.
abbrev pub xor_mask : ℕ → ℕ → ℕ → ℕ → Bytes → Bytes
xor_mask a b c d [] = []
xor_mask a b c d (x ∷ p) = bit_xor x a ∷ xor_mask b c d a p

abbrev pub masked_by : Bytes → Bytes → Bytes
masked_by (a ∷ b ∷ c ∷ d ∷ []) p = xor_mask a b c d p
masked_by mask p = p

-- A frame as the protocol lays it out, with or without a mask.
abbrev pub wire_frame : Bool → Bytes → Bytes → ℕ → Bool → Bytes
wire_frame masked mask payload opcode final =
    first_byte final opcode
    ∷ (flagged masked (length_bytes (length payload))
        ++ (if masked then mask ++ masked_by mask payload else payload))

-- The same frame with its payload as `unmask` masks it.
abbrev coded_frame : Bool → Bytes → Bytes → ℕ → Bool → Bytes
coded_frame masked mask payload opcode final =
    first_byte final opcode
    ∷ (flagged masked (length_bytes (length payload))
        ++ (if masked then mask ++ unmask mask 0 payload else payload))

unmask_later : (mask p : Bytes) (i j : ℕ) → j ≡ i + 4 → unmask mask j p ≡ unmask mask i p
unfolding unmask
unmask_later mask [] i j e = refl
unmask_later mask (x ∷ p) i j e =
    let same : j % 4 ≡ i % 4 = omega arith in
    ap₂ (λ k q. bit_xor x (get_or mask k 0) ∷ q) same
      (unmask_later mask p (i + 1) (j + 1) (omega arith))

module _ (a b c d : ℕ) where
  unmask-xor_mask :
      (p : Bytes)
      → (unmask (a ∷ b ∷ c ∷ d ∷ []) 0 p ≡ xor_mask a b c d p)
        × (unmask (a ∷ b ∷ c ∷ d ∷ []) 1 p ≡ xor_mask b c d a p)
        × (unmask (a ∷ b ∷ c ∷ d ∷ []) 2 p ≡ xor_mask c d a b p)
        × (unmask (a ∷ b ∷ c ∷ d ∷ []) 3 p ≡ xor_mask d a b c p)
  unfolding unmask
  unmask-xor_mask [] = (refl, refl, refl, refl)
  unmask-xor_mask (x ∷ p) =
      let (h0, h1, h2, h3) = unmask-xor_mask p in
      let again = unmask_later (a ∷ b ∷ c ∷ d ∷ []) p 0 4 refl in
      (
        ap (λ q. bit_xor x a ∷ q) h1,
        ap (λ q. bit_xor x b ∷ q) h2,
        ap (λ q. bit_xor x c ∷ q) h3,
        ap (λ q. bit_xor x d ∷ q) (again ∙ h0),
      )

unmask-masked_by : (mask p : Bytes) → length mask ≡ 4 → unmask mask 0 p ≡ masked_by mask p
unmask-masked_by [] p h = absurd (omega arith)
unmask-masked_by (a ∷ []) p h = absurd (omega arith)
unmask-masked_by (a ∷ b ∷ []) p h = absurd (omega arith)
unmask-masked_by (a ∷ b ∷ c ∷ []) p h = absurd (omega arith)
unmask-masked_by (a ∷ b ∷ c ∷ d ∷ []) p h = (unmask-xor_mask a b c d p).0
unmask-masked_by (a ∷ b ∷ c ∷ d ∷ e ∷ mask) p h = absurd (omega arith)

wire_frame-coded_frame :
    (masked : Bool) (mask payload : Bytes) (opcode : ℕ) (final : Bool)
    → length mask ≡ 4
    → wire_frame masked mask payload opcode final ≡ coded_frame masked mask payload opcode final
wire_frame-coded_frame true mask payload opcode final four =
    ap
      (λ t. first_byte final opcode ∷ (flagged true (length_bytes (length payload)) ++ (mask ++ t)))
      (sym (unmask-masked_by mask payload four))
wire_frame-coded_frame false mask payload opcode final four = refl

length-unmask : (mask : Bytes) (i : ℕ) (p : Bytes) → length (unmask mask i p) ≡ length p
unfolding unmask
length-unmask mask i [] = refl
length-unmask mask i (x ∷ p) = ap suc (length-unmask mask (i + 1) p)

unmask-unmask :
    (mask : Bytes) (i : ℕ) (p : Bytes)
    → All IsByte mask
    → All IsByte p
    → unmask mask i (unmask mask i p) ≡ p
unfolding unmask
unmask-unmask mask i [] hm h = refl
unmask-unmask mask i (x ∷ p) hm (hx, h) = rw (
  xor_twice x (get_or mask (i % 4) 0) hx (get_or-lt mask (i % 4) hm),
  unmask-unmask mask (i + 1) p hm h,
)

-- The fields of the first byte.
first_byte_fields :
    (final : Bool) (opcode : ℕ)
    → opcode < 16
    → (bit_and (first_byte final opcode) 0x0F ≡ opcode)
      × (is_set (first_byte final opcode) 0x80 ≡ final)
      × ((is_set (first_byte final opcode) 0x40
            || is_set (first_byte final opcode) 0x20
            || is_set (first_byte final opcode) 0x10)
          ≡ false)
first_byte_fields true opcode h =
    let (a, b, c, d, e) = topped_fields opcode h in (a, rw b, rw (c, d, e))
first_byte_fields false opcode h =
    let (a, b, c, d, e) = low_half_fields opcode h in (a, rw b, rw (c, d, e))

no_frame_error :
    (final : Bool) (opcode n h : ℕ)
    → opcode < 16
    → (is_set opcode 0x08 && ltb 125 n) ≡ false
    → frame_error (first_byte final opcode) n h (h + n) ≡ none
unfolding frame_error
no_frame_error final opcode n h small control =
    let (low, _, reserved) = first_byte_fields final opcode small in
    let order : ltb (h + n) h ≡ false = ground arith in rw (order, reserved, low, control)

frame_payload-wire :
    (b0 : ℕ) (masked : Bool) (mask payload rest : Bytes)
    → length mask ≡ 4
    → All IsByte mask
    → All IsByte payload
    → let m = header_size (length payload) in
      frame_payload masked
        (b0
          ∷ (flagged masked (length_bytes (length payload))
              ++ ((if masked then mask ++ unmask mask 0 payload else payload) ++ rest)))
        (length payload)
        m
        (if masked then m + 4 else m)
      ≡ payload
unfolding frame_payload
frame_payload-wire b0 true mask payload rest four hm hp =
    let n = length payload in
    let body = unmask mask 0 payload in
    let tail : drop 4 ((mask ++ body) ++ rest) ≡ body ++ rest = rw (← four) (
      ap (drop (length mask)) (append_assoc mask body rest)
      ∙ drop-length_append mask (body ++ rest)) in
    let cut : take n (body ++ rest) ≡ body =
      rw (← length-unmask mask 0 payload) (take-length_append body rest) in
    rw (← drop-drop 4 (header_size n), drop-header b0 true n ((mask ++ body) ++ rest), tail, cut)
      (ap (λ t. unmask t 0 body) (append_assoc mask body rest)
        ∙ unmask-append mask (body ++ rest) body 0 (omega arith)
        ∙ unmask-unmask mask 0 payload hm hp)
frame_payload-wire b0 false mask payload rest four hm hp =
    rw (drop-header b0 false (length payload) (payload ++ rest)) (take-length_append payload rest)

length-wire_tail :
    (masked : Bool) (mask payload : Bytes)
    → length mask ≡ 4
    → length (if masked then mask ++ unmask mask 0 payload else payload)
      ≡ (if masked then 4 else 0) + length payload
length-wire_tail true mask payload four = rw (length-append, four, length-unmask) refl
length-wire_tail false mask payload four = omega arith

-- The length of the whole frame.
length-coded_frame :
    (masked : Bool) (mask payload : Bytes) (opcode : ℕ) (final : Bool)
    → length mask ≡ 4
    → length (coded_frame masked mask payload opcode final)
      ≡ (if masked then header_size (length payload) + 4 else header_size (length payload))
        + length payload
length-coded_frame true mask payload opcode final four = omega (
  arith,
  length-append (flagged true (length_bytes (length payload))) (mask ++ unmask mask 0 payload),
  length-wire_tail true mask payload four,
  length-header true (length payload),
)
length-coded_frame false mask payload opcode final four = omega (
  arith,
  length-append (flagged false (length_bytes (length payload))) payload,
  length-header false (length payload),
)

header_size-le : (n : ℕ) → header_size n ≤ 10
header_size-le n = ground arith

no_wrap :
    (masked : Bool) (n : ℕ)
    → n < 2 ^ 63
    → ((if masked then header_size n + 4 else header_size n) + n) % 2 ^ 64
      ≡ (if masked then header_size n + 4 else header_size n) + n
no_wrap true n h = omega (arith, header_size-le n)
no_wrap false n h = omega (arith, header_size-le n)

sized_frame-wire :
    (masked : Bool) (payload s : Bytes) (opcode : ℕ) (final : Bool)
    → opcode < 16
    → length payload < 2 ^ 63
    → (is_set opcode 0x08 && ltb 125 (length payload)) ≡ false
    → let m = header_size (length payload) in
      let h = if masked then m + 4 else m in
      h + length payload ≤ length s
      → frame_payload masked s (length payload) m h ≡ payload
      → sized_frame (first_byte final opcode) masked s (length payload) m
        ≡ parsed (record {
          opcode = opcode;
          is_final_fragment = final;
          mask_bit = masked;
          payload_length = length payload;
          header_length = h;
          frame_length = h + length payload;
          payload = payload;
        })
unfolding sized_frame
sized_frame-wire masked payload s opcode final small fits control room body =
    let n = length payload in
    let h = if masked then header_size n + 4 else header_size n in
    let (low, top, _) = first_byte_fields final opcode small in
    let whole : ltb (length s) (h + n) ≡ false = ground arith in
    rw (no_wrap masked n fits, no_frame_error final opcode n h small control, sized_frame)
      (rw (no_wrap masked n fits, whole) (unfold frame_at in rw (low, top, body)))

parse-coded_frame :
    (masked : Bool) (mask payload rest : Bytes) (opcode : ℕ) (final : Bool)
    → length mask ≡ 4
    → All IsByte mask
    → All IsByte payload
    → opcode < 16
    → length payload < 2 ^ 63
    → (is_set opcode 0x08 && ltb 125 (length payload)) ≡ false
    → parse (coded_frame masked mask payload opcode final ++ rest)
      ≡ parsed (record {
        opcode = opcode;
        is_final_fragment = final;
        mask_bit = masked;
        payload_length = length payload;
        header_length =
            (if masked then header_size (length payload) + 4 else header_size (length payload));
        frame_length = length (coded_frame masked mask payload opcode final);
        payload = payload;
      })
parse-coded_frame masked mask payload rest opcode final four hm hp small fits control =
    let n = length payload in
    let b0 = first_byte final opcode in
    let tail = if masked then mask ++ unmask mask 0 payload else payload in
    let size = length-coded_frame masked mask payload opcode final four in
    let room = length-append (coded_frame masked mask payload opcode final) rest in
    let shape : coded_frame masked mask payload opcode final ++ rest
        ≡ b0 ∷ (flagged masked (length_bytes n) ++ (tail ++ rest)) =
      ap (λ t. b0 ∷ t) (append_assoc (flagged masked (length_bytes n)) tail rest) in
    rw (size, shape)
      (parse_sized b0 masked n (tail ++ rest) fits
        ∙ sized_frame-wire masked payload _ opcode final small fits control
            (subst (λ t. (if masked then header_size n + 4 else header_size n) + n ≤ length t) shape
              (omega arith))
            (frame_payload-wire b0 masked mask payload rest four hm hp))

-- A frame laid out by the protocol, masked or not, with whatever follows it in the buffer, is read
-- back: its flags, its opcode, its payload with the mask taken off, and its exact length. The opcode
-- has four bits, a payload fits 63 bits, and a control frame carries at most 125 bytes.
pub parse-wire_frame :
    (masked : Bool) (mask payload rest : Bytes) (opcode : ℕ) (final : Bool)
    → length mask ≡ 4
    → All IsByte mask
    → All IsByte payload
    → opcode < 16
    → length payload < 2 ^ 63
    → (is_set opcode 0x08 && ltb 125 (length payload)) ≡ false
    → parse (wire_frame masked mask payload opcode final ++ rest)
      ≡ parsed (record {
        opcode = opcode;
        is_final_fragment = final;
        mask_bit = masked;
        payload_length = length payload;
        header_length =
            (if masked then header_size (length payload) + 4 else header_size (length payload));
        frame_length = length (wire_frame masked mask payload opcode final);
        payload = payload;
      })
parse-wire_frame masked mask payload rest opcode final four hm hp small fits control =
    subst
      (λ w.
        parse (w ++ rest)
        ≡ parsed (record {
          opcode = opcode;
          is_final_fragment = final;
          mask_bit = masked;
          payload_length = length payload;
          header_length =
              (if masked then header_size (length payload) + 4 else header_size (length payload));
          frame_length = length w;
          payload = payload;
        }))
      (sym (wire_frame-coded_frame masked mask payload opcode final four))
      (parse-coded_frame masked mask payload rest opcode final four hm hp small fits control)

flagged-false : (b : Bytes) → flagged false b ≡ b
flagged-false [] = refl
flagged-false (x ∷ b) = refl

pub ws_encode_frame-wire_frame :
    (payload : Bytes) (opcode : ℕ) (final : Bool)
    → ws_encode_frame payload opcode final
      ≡ wire_frame false (replicate 4 0) payload (bit_and opcode 0x0F) final
unfolding ws_encode_frame length_bytes
ws_encode_frame-wire_frame payload opcode final =
    ap (λ t. first_byte final (bit_and opcode 0x0F) ∷ (t ++ payload))
      (sym (flagged-false (length_bytes (length payload))))

-- Every frame that the server encodes, with whatever follows it, is read back: unmasked, with its
-- flag, the low four bits of its opcode, its payload and its exact length. The payload fits 63 bits,
-- and that of a control frame 125 bytes.
pub parse-ws_encode_frame :
    (payload rest : Bytes) (opcode : ℕ) (final : Bool)
    → opcode < 256
    → All IsByte payload
    → length payload < 2 ^ 63
    → (is_set (opcode % 16) 0x08 && ltb 125 (length payload)) ≡ false
    → parse (ws_encode_frame payload opcode final ++ rest)
      ≡ parsed (record {
        opcode = opcode % 16;
        is_final_fragment = final;
        mask_bit = false;
        payload_length = length payload;
        header_length = header_size (length payload);
        frame_length = length (ws_encode_frame payload opcode final);
        payload = payload;
      })
parse-ws_encode_frame payload rest opcode final byte hp fits control =
    rw (ws_encode_frame-wire_frame payload opcode final, low_4_bits opcode byte)
      (parse-wire_frame false (replicate 4 0) payload rest (opcode % 16) final refl (omega arith) hp
        (omega arith) fits control)
