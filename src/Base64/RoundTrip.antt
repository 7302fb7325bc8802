-- ===== src/Base64/RoundTrip.antt =====
-- Every text of bytes is decoded from its base64 form.
use uce.Base.{
  ℕ, ◌+◌, ◌*◌, ◌/◌, ◌%◌, ◌<◌, Bool, true, false, [], ◌∷◌, not, ◌≡◌, refl, ◌∙◌, ap, ap₂, Option,
  none, some, Bytes, length, ◌==◌, ==→eq, All, IsByte, arith,
}
use uce.Base.Bits.{holds_below, holds_below→eq, or_add_4, or_add_16, or_add_64}
use uce.Base.Chars.{is_space}
use uce.Base64.Groups.{encoded, base64_encode-encoded}
use uce.Base64.{
  char_at, base64_encode, base64_decode_value, cleaned, digit, padding, group_bytes, group_values,
  group, append_group, is_nil, decode_loop, base64_decode,
}

-- A character of the table: its value, and that it is neither padding nor white space.
eq_false : (b : Bool) → not b ≡ true → b ≡ false
eq_false true h = cc
eq_false false h = refl

is_value : Option ℕ → ℕ → Bool
is_value none n = false
is_value (some m) n = m == n

value_eq : (o : Option ℕ) (n : ℕ) → is_value o n ≡ true → o ≡ some n
unfolding is_value
value_eq none n h = cc
value_eq (some m) n h = ap some (==→eq m n h)

char_at_lem :
    (n : ℕ)
    → n < 64
    → (base64_decode_value (char_at n) ≡ some n)
      × ((char_at n == b'=') ≡ false)
      × (is_space (char_at n) ≡ false)
char_at_lem n h = (value_eq _ n (value_table n h), padding_table n h, space_table n h)
  where
    value_table : (n : ℕ) → n < 64 → is_value (base64_decode_value (char_at n)) n ≡ true
    value_table n h =
        holds_below→eq (λ n. is_value (base64_decode_value (char_at n)) n) 64 n h
          (unfold holds_below is_value base64_decode_value char_at in refl)

    padding_table : (n : ℕ) → n < 64 → (char_at n == b'=') ≡ false
    padding_table n h =
        eq_false _ (
          holds_below→eq (λ n. not (char_at n == b'=')) 64 n h (unfold holds_below char_at in refl))

    space_table : (n : ℕ) → n < 64 → is_space (char_at n) ≡ false
    space_table n h = eq_false _ (
        holds_below→eq (λ n. not (is_space (char_at n))) 64 n h
          (unfold holds_below is_space char_at in refl))

digit-char_at : (n : ℕ) → n < 64 → (digit (char_at n) ≡ some n) × (padding (char_at n) ≡ 0)
unfolding digit padding
digit-char_at n h = rw ((char_at_lem n h).1) ((char_at_lem n h).0, refl)

three_bytes :
    (a b c c2 c3 : ℕ)
    → a < 256
    → b < 256
    → c < 256
    → (c2 == b'=') ≡ false
    → (c3 == b'=') ≡ false
    → group_bytes c2 c3 (a / 4) (a % 4 * 16 + b / 16) (b % 16 * 4 + c / 64) (c % 64)
      ≡ a ∷ b ∷ c ∷ []
unfolding group_bytes
three_bytes a b c c2 c3 ha hb hc e f =
    let v1 : (a % 4 * 16 + b / 16) / 16 ≡ a % 4 = omega arith in
    let v1' : (a % 4 * 16 + b / 16) % 16 ≡ b / 16 = omega arith in
    let v2 : (b % 16 * 4 + c / 64) / 4 ≡ b % 16 = omega arith in
    let v2' : (b % 16 * 4 + c / 64) % 4 ≡ c / 64 = omega arith in
    rw
      (
        e,
        f,
        v1,
        v1',
        v2,
        v2',
        or_add_4 (a / 4) (a % 4) (omega arith) (omega arith),
        or_add_16 (b / 16) (b % 16) (omega arith) (omega arith),
        or_add_64 (c / 64) (c % 64) (omega arith) (omega arith),
      )
      (ap₂ (λ x y. x ∷ y) (omega arith)
        (ap₂ (λ x y. x ∷ y) (omega arith) (ap (λ x. x ∷ []) (omega arith))))

group_three :
    (more : Bool) (a b c : ℕ)
    → a < 256
    → b < 256
    → c < 256
    → group more
        (char_at (a / 4))
        (char_at (a % 4 * 16 + b / 16))
        (char_at (b % 16 * 4 + c / 64))
        (char_at (c % 64))
      ≡ some (a ∷ b ∷ c ∷ [])
group_three more a b c ha hb hc =
    let d0 = digit-char_at (a / 4) (omega arith) in
    let d1 = digit-char_at (a % 4 * 16 + b / 16) (omega arith) in
    let d2 = digit-char_at (b % 16 * 4 + c / 64) (omega arith) in
    let d3 = digit-char_at (c % 64) (omega arith) in
    let n2 = (char_at_lem (b % 16 * 4 + c / 64) (omega arith)).1 in
    let n3 = (char_at_lem (c % 64) (omega arith)).1 in
    unfold group group_values in
    rw (d0.1, d1.1, d2.1, d3.1, n2, d0.0, d1.0, d2.0, d3.0)
      (ap some (three_bytes a b c _ _ ha hb hc n2 n3))

group_two :
    (a b : ℕ)
    → a < 256
    → b < 256
    → group false (char_at (a / 4)) (char_at (a % 4 * 16 + b / 16)) (char_at (b % 16 * 4)) b'='
      ≡ some (a ∷ b ∷ [])
group_two a b ha hb =
    let d0 = digit-char_at (a / 4) (omega arith) in
    let d1 = digit-char_at (a % 4 * 16 + b / 16) (omega arith) in
    let d2 = digit-char_at (b % 16 * 4) (omega arith) in
    let n2 = (char_at_lem (b % 16 * 4) (omega arith)).1 in
    let v1 : (a % 4 * 16 + b / 16) / 16 ≡ a % 4 = omega arith in
    let v1' : (a % 4 * 16 + b / 16) % 16 ≡ b / 16 = omega arith in
    let v2 : b % 16 * 4 / 4 ≡ b % 16 = omega arith in
    unfold group group_values in
    rw (d0.1, d1.1, d2.1, n2, d0.0, d1.0, d2.0)
      (unfold padding digit group_bytes in
        rw
          (
            n2,
            v1,
            v1',
            v2,
            or_add_4 (a / 4) (a % 4) (omega arith) (omega arith),
            or_add_16 (b / 16) (b % 16) (omega arith) (omega arith),
          )
          (ap some (ap₂ (λ x y. x ∷ y) (omega arith) (ap (λ x. x ∷ []) (omega arith)))))

group_one :
    (a : ℕ)
    → a < 256
    → group false (char_at (a / 4)) (char_at (a % 4 * 16)) b'=' b'=' ≡ some (a ∷ [])
group_one a ha =
    let d0 = digit-char_at (a / 4) (omega arith) in
    let d1 = digit-char_at (a % 4 * 16) (omega arith) in
    let v1 : a % 4 * 16 / 16 ≡ a % 4 = omega arith in
    unfold group group_values in
    rw (d0.1, d1.1, d0.0, d1.0)
      (unfold padding digit group_bytes in
        rw (v1, or_add_4 (a / 4) (a % 4) (omega arith) (omega arith))
          (ap some (ap (λ x. x ∷ []) (omega arith))))

decode_loop-encoded : (q : Bytes) → All IsByte q → decode_loop (encoded q) ≡ some q
unfolding decode_loop is_nil append_group
decode_loop-encoded [] h = refl
decode_loop-encoded (a ∷ []) (ha, h) = rw (group_one a ha)
decode_loop-encoded (a ∷ b ∷ []) (ha, (hb, h)) = rw (group_two a b ha hb)
decode_loop-encoded (a ∷ b ∷ c ∷ q) (ha, (hb, (hc, h))) =
    rw (group_three (not (is_nil (encoded q))) a b c ha hb hc, decode_loop-encoded q h)

cleaned-char_at : (n : ℕ) (s : Bytes) → n < 64 → cleaned (char_at n ∷ s) ≡ char_at n ∷ cleaned s
unfolding cleaned
cleaned-char_at n s h = rw (char_at_lem n h).2

cleaned-encoded : (q : Bytes) → All IsByte q → cleaned (encoded q) ≡ encoded q
cleaned-encoded [] h = unfold cleaned in refl
cleaned-encoded (a ∷ []) (ha, h) =
    rw
      (
        cleaned-char_at (a / 4) (char_at (a % 4 * 16) ∷ b'=' ∷ b'=' ∷ []) (omega arith),
        cleaned-char_at (a % 4 * 16) (b'=' ∷ b'=' ∷ []) (omega arith),
      )
      (unfold cleaned is_space in refl)
cleaned-encoded (a ∷ b ∷ []) (ha, (hb, h)) =
    rw
      (
        cleaned-char_at (a / 4) (char_at (a % 4 * 16 + b / 16) ∷ char_at (b % 16 * 4) ∷ b'=' ∷ [])
            (omega arith),
        cleaned-char_at (a % 4 * 16 + b / 16) (char_at (b % 16 * 4) ∷ b'=' ∷ []) (omega arith),
        cleaned-char_at (b % 16 * 4) (b'=' ∷ []) (omega arith),
      )
      (unfold cleaned is_space in refl)
cleaned-encoded (a ∷ b ∷ c ∷ q) (ha, (hb, (hc, h))) =
    cleaned-char_at (a / 4) _ (omega arith)
    ∙ ap (λ t. char_at (a / 4) ∷ t)
        (cleaned-char_at (a % 4 * 16 + b / 16) _ (omega arith)
          ∙ ap (λ t. char_at (a % 4 * 16 + b / 16) ∷ t)
              (cleaned-char_at (b % 16 * 4 + c / 64) _ (omega arith)
                ∙ ap (λ t. char_at (b % 16 * 4 + c / 64) ∷ t)
                    (cleaned-char_at (c % 64) _ (omega arith)
                      ∙ ap (λ t. char_at (c % 64) ∷ t) (cleaned-encoded q h))))

length-encoded : (q : Bytes) → (length (encoded q) % 4 ≡ 0)
length-encoded [] = refl
length-encoded (a ∷ []) = refl
length-encoded (a ∷ b ∷ []) = refl
length-encoded (a ∷ b ∷ c ∷ q) = omega (arith, length-encoded q)

encoded_nonempty : (a : ℕ) (q : Bytes) → (length (encoded (a ∷ q)) == 0) ≡ false
encoded_nonempty a [] = refl
encoded_nonempty a (b ∷ []) = refl
encoded_nonempty a (b ∷ c ∷ q) = ground arith

base64_decode-encoded : (raw : Bytes) → All IsByte raw → base64_decode (encoded raw) ≡ (raw, true)
unfolding base64_decode
base64_decode-encoded [] h = unfold cleaned in refl
base64_decode-encoded (a ∷ q) h = rw (
  cleaned-encoded (a ∷ q) h,
  encoded_nonempty a q,
  length-encoded (a ∷ q),
  decode_loop-encoded (a ∷ q) h,
)

-- Decoding the base64 form of a text of bytes succeeds and gives the text.
pub base64_decode-base64_encode :
    (raw : Bytes) → All IsByte raw → base64_decode (base64_encode raw) ≡ (raw, true)
base64_decode-base64_encode raw h = rw (base64_encode-encoded raw h) (base64_decode-encoded raw h)
