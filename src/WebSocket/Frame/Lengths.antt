-- ===== src/WebSocket/Frame/Lengths.antt =====
-- The lengths of a frame: what `ws_encode_frame` writes is what `parse` reads.
use uce.Base.{
  ℕ, suc, ◌+◌, ◌*◌, ◌/◌, ◌%◌, ◌^◌, ◌<◌, Bool, true, false, [], ◌∷◌, ◌++◌, ◌≡◌, refl, ◌∙◌, Bytes,
  length, drop, leb, ltb, ne→==, if◌then◌else◌, bit_and, arith, Bool-cases, inl, inr,
}
use native.Mathlib.Nat.{zero-add}
use uce.Base.Bits.{low_7_bits, top_bit}
use uce.WebSocket.Frame.{
  is_set, raw, size, frame_size, long_length, sized_frame, sized, parse, long_bytes, length_bytes,
}

long_length-long_bytes : (n : ℕ) → n < 2 ^ 64 → long_length (long_bytes 8 n) 0 ≡ n
unfolding long_length long_bytes
long_length-long_bytes n h =
    let s6 : n / 2 ^ 56 % 256 * 2 ^ 8 % 2 ^ 64 + n / 2 ^ 48 % 256 ≡ n / 2 ^ 48 = omega arith in
    let s5 : n / 2 ^ 48 * 2 ^ 8 % 2 ^ 64 + n / 2 ^ 40 % 256 ≡ n / 2 ^ 40 = omega arith in
    let s4 : n / 2 ^ 40 * 2 ^ 8 % 2 ^ 64 + n / 2 ^ 32 % 256 ≡ n / 2 ^ 32 = omega arith in
    let s3 : n / 2 ^ 32 * 2 ^ 8 % 2 ^ 64 + n / 2 ^ 24 % 256 ≡ n / 2 ^ 24 = omega arith in
    let s2 : n / 2 ^ 24 * 2 ^ 8 % 2 ^ 64 + n / 2 ^ 16 % 256 ≡ n / 2 ^ 16 = omega arith in
    let s1 : n / 2 ^ 16 * 2 ^ 8 % 2 ^ 64 + n / 2 ^ 8 % 256 ≡ n / 2 ^ 8 = omega arith in
    let s0 : n / 2 ^ 8 * 2 ^ 8 % 2 ^ 64 + n / 2 ^ 0 % 256 ≡ n = omega arith in
    rw (zero-add, s6, s5, s4, s3, s2, s1, s0)

-- The second byte and the longer length, with the mask's flag.
abbrev pub flagged : Bool → Bytes → Bytes
flagged masked [] = []
flagged masked (b ∷ bs) = (if masked then b + 128 else b) ∷ bs

abbrev pub header_size : ℕ → ℕ
header_size n = if leb n 125 then 2 else if leb n 0xFFFF then 4 else 10

second_byte :
    (masked : Bool) (x : ℕ)
    → x < 128
    → (bit_and (if masked then x + 128 else x) 0x7F ≡ x)
      × (is_set (if masked then x + 128 else x) 0x80 ≡ masked)
second_byte true x h = (
  low_7_bits (x + 128) (omega arith) ∙ omega arith,
  rw (top_bit (x + 128) (omega arith)) (ground arith),
)
second_byte false x h =
    (low_7_bits x (omega arith) ∙ omega arith, rw (top_bit x (omega arith)) (ground arith))

long_sign : (n : ℕ) → n < 2 ^ 63 → is_set (n / 2 ^ 56 % 256) 0x80 ≡ false
long_sign n h = rw (top_bit (n / 2 ^ 56 % 256) (omega arith)) (ground arith)

-- The lengths are read back, each in the form that the encoder chooses.
frame_size_short :
    (x b1 : ℕ) (b0 : ℕ) (r : Bytes) → leb x 125 ≡ true → frame_size x (b0 ∷ b1 ∷ r) ≡ size x 2
unfolding frame_size
frame_size_short x b1 b0 r h = rw (ne→== x 126 (λ e. ground arith), ne→== x 127 (λ e. ground arith))

frame_size_medium :
    (n b1 b0 : ℕ) (r : Bytes)
    → leb n 125 ≡ false
    → leb n 0xFFFF ≡ true
    → frame_size 126 (b0 ∷ b1 ∷ n / 2 ^ 8 % 256 ∷ n % 256 ∷ r) ≡ size n 4
unfolding frame_size
frame_size_medium n b1 b0 r h k =
    let e : n / 2 ^ 8 % 256 * 2 ^ 8 + n % 256 ≡ n = ground arith in
    let enough : ltb (length (b0 ∷ b1 ∷ n / 2 ^ 8 % 256 ∷ n % 256 ∷ r)) 4 ≡ false = ground arith in
    let big : ltb n 126 ≡ false = ground arith in rw (e, enough, big)

frame_size_long :
    (n b1 b0 : ℕ) (r : Bytes)
    → n < 2 ^ 63
    → leb n 0xFFFF ≡ false
    → frame_size 127 (b0 ∷ b1 ∷ (long_bytes 8 n ++ r)) ≡ size n 10
unfolding frame_size long_bytes
frame_size_long n b1 b0 r h k =
    let value = long_length-long_bytes n (omega arith) in
    let enough : ltb (suc (suc (suc (suc (suc (suc (suc (suc (suc (suc (length r))))))))))) 10
        ≡ false =
      ground arith in
    rw (enough, long_sign n h, value, k)

parse_step :
    (s : Bytes) (n m : ℕ) (masked : Bool)
    → ltb (length s) 2 ≡ false
    → frame_size (bit_and (raw s 1) 0x7F) s ≡ size n m
    → is_set (raw s 1) 0x80 ≡ masked
    → parse s ≡ sized_frame (raw s 0) masked s n m
unfolding parse sized
parse_step s n m masked two e flag = rw (two, e) (rw flag)

pub parse_sized :
    (b0 : ℕ) (masked : Bool) (n : ℕ) (r : Bytes)
    → n < 2 ^ 63
    → parse (b0 ∷ (flagged masked (length_bytes n) ++ r))
      ≡ sized_frame b0 masked (b0 ∷ (flagged masked (length_bytes n) ++ r)) n (header_size n)
unfolding length_bytes
parse_sized b0 masked n r h = elim (Bool-cases (leb n 125)) [
  | inl short ↦
      let b = second_byte masked n (ground arith) in
      rw short
        (parse_step _ n 2 masked (ground arith) (rw b.0 (frame_size_short n _ b0 r short)) b.1)
  | inr longer ↦ elim (Bool-cases (leb n 0xFFFF)) [
    | inl medium ↦
        let b = second_byte masked 126 (omega arith) in
        rw (longer, medium)
          (parse_step _ n 4 masked (ground arith)
            (rw b.0 (frame_size_medium n _ b0 r longer medium)) b.1)
    | inr long ↦
        let b = second_byte masked 127 (omega arith) in
        rw (longer, long)
          (parse_step _ n 10 masked (ground arith) (rw b.0 (frame_size_long n _ b0 r h long)) b.1)
  ]
]

-- The bytes in front of the mask and the payload.
pub length-header :
    (masked : Bool) (n : ℕ) → length (flagged masked (length_bytes n)) + 1 ≡ header_size n
unfolding length_bytes long_bytes
length-header masked n = elim (Bool-cases (leb n 125)) [
  | inl e ↦ rw (e) refl
  | inr e ↦ elim (Bool-cases (leb n 0xFFFF)) [ inl m ↦ rw (e, m) refl | inr l ↦ rw (e, l) refl ]
]

pub drop-header :
    (b0 : ℕ) (masked : Bool) (n : ℕ) (r : Bytes)
    → drop (header_size n) (b0 ∷ (flagged masked (length_bytes n) ++ r)) ≡ r
unfolding length_bytes long_bytes
drop-header b0 masked n r = elim (Bool-cases (leb n 125)) [
  | inl e ↦ rw e refl
  | inr e ↦ elim (Bool-cases (leb n 0xFFFF)) [ inl m ↦ rw (e, m) refl | inr l ↦ rw (e, l) refl ]
]
