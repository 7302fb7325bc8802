-- ===== src/Uri/Percent.antt =====
-- `uri_encode` and `uri_decode` of src/lib/uri.cpp, with `to_hex`, `char_to_u8` and `hex_to_u8` of
-- the function library.
use uce.Base.{
  ℕ, ◌+◌, ◌-◌, ◌*◌, ◌/◌, ◌%◌, ◌<◌, Bool, true, false, [], ◌∷◌, ◌++◌, ◌≡◌, ◌≢◌, refl, sym, ◌∙◌, ap,
  ◌&&◌, ◌||◌, inl, inr, append_assoc, append-nil, Bytes, leb, ◌==◌, IsByte, All, Lacks,
  if◌then◌else◌, arith, Bool-cases, All-append, All-mono,
}
use uce.Base.Chars.{within, is_alnum, is_xdigit}

unfoldable pub char_to_u8 : ℕ → ℕ
char_to_u8 c =
    if within b'0' b'9' c
    then c - b'0'
    else if within b'A' b'F' c
    then c - b'A' + 10
    else if within b'a' b'f' c
    then c - b'a' + 10
    else 0

-- On the two bytes of the text that it is given.
unfoldable pub hex_to_u8 : ℕ → ℕ → ℕ
unfolding char_to_u8
hex_to_u8 hi lo = (char_to_u8 hi * 16 + char_to_u8 lo) % 256

-- `digits[n]` of `to_hex`.
unfoldable pub hex_digit : ℕ → ℕ
hex_digit n = if leb n 9 then b'0' + n else b'A' + (n - 10)

-- `to_hex((u8)c, 2)`
unfoldable pub to_hex2 : ℕ → Bytes
unfolding hex_digit
to_hex2 c = hex_digit (c / 16 % 16) ∷ hex_digit (c % 16) ∷ []

unfoldable pub is_unreserved : ℕ → Bool
unfolding is_alnum
is_unreserved c = is_alnum c || c == b'~' || c == b'.' || c == b'_' || c == b'-'

uri_encode_loop : Bytes → Bytes → Bytes
uri_encode_loop [] result = result
uri_encode_loop (c ∷ q) result =
    uri_encode_loop q
      (if is_unreserved c then result ++ c ∷ [] else (result ++ b'%' ∷ []) ++ to_hex2 c)

unfoldable pub uri_encode : Bytes → Bytes
unfolding uri_encode_loop is_unreserved to_hex2
uri_encode q = uri_encode_loop q []

-- One round at a byte that is not `%` before two hexadecimal digits.
plain : ℕ → ℕ
plain c = if c == b'+' then b' ' else c

uri_decode_loop : Bytes → Bytes → Bytes
uri_decode_loop [] result = result
uri_decode_loop (c ∷ []) result = result ++ plain c ∷ []
uri_decode_loop (c ∷ h ∷ []) result = uri_decode_loop (h ∷ []) (result ++ plain c ∷ [])
uri_decode_loop (c ∷ h ∷ l ∷ q) result =
    let decoded = uri_decode_loop q (result ++ hex_to_u8 h l ∷ []) in
    let copied = uri_decode_loop (h ∷ l ∷ q) (result ++ plain c ∷ []) in
    if c == b'%' && is_xdigit h && is_xdigit l then decoded else copied

unfoldable pub uri_decode : Bytes → Bytes
unfolding uri_decode_loop plain is_xdigit hex_to_u8
uri_decode q = uri_decode_loop q []

-- What `uri_encode` appends for one byte.
abbrev code_of : ℕ → Bytes
code_of c = if is_unreserved c then c ∷ [] else b'%' ∷ to_hex2 c

abbrev encoded : Bytes → Bytes
encoded [] = []
encoded (c ∷ q) = code_of c ++ encoded q

uri_encode_loop-encoded : (q result : Bytes) → uri_encode_loop q result ≡ result ++ encoded q
unfolding uri_encode_loop
uri_encode_loop-encoded [] result = sym (append-nil result)
uri_encode_loop-encoded (c ∷ q) result = elim (Bool-cases (is_unreserved c)) [
  | inl keep ↦ rw keep (simp (uri_encode_loop-encoded q, append_assoc))
  | inr escape ↦ rw escape (simp (uri_encode_loop-encoded q, append_assoc))
]

pub uri_encode-encoded : (q : Bytes) → uri_encode q ≡ encoded q
unfolding uri_encode
uri_encode-encoded q = uri_encode_loop-encoded q []

pub hex_digit_lem :
    (n : ℕ) → n < 16 → (is_xdigit (hex_digit n) ≡ true) × (char_to_u8 (hex_digit n) ≡ n)
unfolding hex_digit is_xdigit char_to_u8
hex_digit_lem n h = ground arith

hex_to_u8-to_hex2 : (c : ℕ) → c < 256 → hex_to_u8 (hex_digit (c / 16 % 16)) (hex_digit (c % 16)) ≡ c
unfolding hex_to_u8
hex_to_u8-to_hex2 c h =
    rw ((hex_digit_lem (c / 16 % 16) (omega arith)).1, (hex_digit_lem (c % 16) (omega arith)).1)
      (omega arith)

is_unreserved-plain : (c : ℕ) → is_unreserved c ≡ true → (plain c ≡ c) × ((c == b'%') ≡ false)
unfolding is_unreserved plain
is_unreserved-plain c h = ground arith

decode_plain :
    (c : ℕ) (rest result : Bytes)
    → is_unreserved c ≡ true
    → uri_decode_loop (c ∷ rest) result ≡ uri_decode_loop rest (result ++ c ∷ [])
decode_plain c [] result h = unfold uri_decode_loop in rw ((is_unreserved-plain c h).0)
decode_plain c (x ∷ []) result h = unfold uri_decode_loop in rw ((is_unreserved-plain c h).0)
decode_plain c (x ∷ y ∷ r) result h =
    unfold uri_decode_loop in rw ((is_unreserved-plain c h).1, (is_unreserved-plain c h).0)

decode_escaped :
    (c : ℕ) (rest result : Bytes)
    → c < 256
    → uri_decode_loop (b'%' ∷ (to_hex2 c ++ rest)) result ≡ uri_decode_loop rest (result ++ c ∷ [])
unfolding uri_decode_loop to_hex2
decode_escaped c rest result h = rw (
  (hex_digit_lem (c / 16 % 16) (omega arith)).0,
  (hex_digit_lem (c % 16) (omega arith)).0,
  hex_to_u8-to_hex2 c h,
)

uri_decode-encoded :
    (q result : Bytes) → All IsByte q → uri_decode_loop (encoded q) result ≡ result ++ q
uri_decode-encoded [] result h = unfold uri_decode_loop in sym (append-nil result)
uri_decode-encoded (c ∷ q) result (hc, h) = elim (Bool-cases (is_unreserved c)) [
  | inl keep ↦
      rw keep (decode_plain c (encoded q) result keep ∙ uri_decode-encoded q _ h ∙ rw append_assoc)
  | inr escape ↦
      rw escape
        (decode_escaped c (encoded q) result hc ∙ uri_decode-encoded q _ h ∙ rw append_assoc)
]

-- Decoding gives back every text that was encoded.
pub uri_decode-uri_encode : (q : Bytes) → All IsByte q → uri_decode (uri_encode q) ≡ q
unfolding uri_decode
uri_decode-uri_encode q h = rw uri_encode-encoded (uri_decode-encoded q [] h)

-- What may stand in an encoded text: an unreserved byte, or the mark of an escape.
unfoldable pub is_encoded : ℕ → Bool
unfolding is_unreserved
is_encoded c = is_unreserved c || c == b'%'

hex_digit-is_encoded : (n : ℕ) → n < 16 → is_encoded (hex_digit n) ≡ true
unfolding is_encoded hex_digit
hex_digit-is_encoded n h = ground arith

code_of-is_encoded : (c : ℕ) → All (λ b. is_encoded b ≡ true) (code_of c)
code_of-is_encoded c = elim (Bool-cases (is_unreserved c)) [
  | inl keep ↦ rw keep (unfold is_encoded in ground arith, tt)
  | inr escape ↦ rw escape (
      unfold to_hex2 in
      (
        unfold is_encoded in refl,
        (
          hex_digit-is_encoded (c / 16 % 16) (omega arith),
          (hex_digit-is_encoded (c % 16) (omega arith), tt),
        ),
      ))
]

encoded-is_encoded : (q : Bytes) → All (λ b. is_encoded b ≡ true) (encoded q)
encoded-is_encoded [] = tt
encoded-is_encoded (c ∷ q) =
    All-append _ (code_of c) (encoded q) (code_of-is_encoded c) (encoded-is_encoded q)

-- Every byte of an encoded text is unreserved or `%`: no separator of a query string, a cookie or a
-- header line is among them.
pub uri_encode-is_encoded : (q : Bytes) → All (λ b. is_encoded b ≡ true) (uri_encode q)
uri_encode-is_encoded q = rw uri_encode-encoded (encoded-is_encoded q)

is_encoded-ne : (b c : ℕ) → is_encoded b ≡ false → is_encoded c ≡ true → c ≢ b
is_encoded-ne b c hb hc e = cc (ap is_encoded e)

pub uri_encode-Lacks : (b : ℕ) (q : Bytes) → is_encoded b ≡ false → Lacks b (uri_encode q)
uri_encode-Lacks b q h =
    All-mono (uri_encode q) (λ c hc. is_encoded-ne b c h hc) (uri_encode-is_encoded q)
