-- ===== src/Tree/Json/Endless.antt =====
-- The loop of `json_decode_array` on a character that `json_decode_value` does not take.
use uce.Base.{
  ℕ, zero, suc, Bool, true, false, [], ◌∷◌, ◌||◌, not, ◌≡◌, refl, ap, ◌∙◌, none, some, Bytes, equal,
  arith, ◌==◌,
}
use uce.Base.Chars.{is_space, is_digit, is_alnum}
use uce.Tree.{DTree, string, push, set_array}
use uce.Tree.Json.{
  json_consume_space, json_decode_while, json_decode_keyword, keyword_value, json_decode_value,
  json_decode_array,
}

-- No space, no letter or digit, and none of the marks the decoder knows.
unfoldable pub is_stuck : ℕ → Bool
is_stuck c = not (
    is_space c
    || is_alnum c
    || c == 34
    || c == 39
    || c == b'{'
    || c == b'['
    || c == b']'
    || c == b',')

stuck_tests :
    (c : ℕ)
    → is_stuck c ≡ true
    → (is_space c ≡ false)
      × ((c == 34 || c == 39) ≡ false)
      × (is_digit c ≡ false)
      × ((c == b'{') ≡ false)
      × ((c == b'[') ≡ false)
      × (is_alnum c ≡ false)
      × ((c == b']') ≡ false)
      × ((c == b',') ≡ false)
unfolding is_stuck is_space is_digit is_alnum
stuck_tests c h = ground arith

json_consume_space-stuck :
    (c : ℕ) (s : Bytes) → is_stuck c ≡ true → json_consume_space (c ∷ s) ≡ c ∷ s
unfolding json_consume_space
json_consume_space-stuck c s h = rw ((stuck_tests c h).0) refl

json_decode_keyword-stuck :
    (c : ℕ) (s : Bytes) → is_stuck c ≡ true → json_decode_keyword (c ∷ s) ≡ ([], c ∷ s)
unfolding json_decode_keyword json_decode_while
json_decode_keyword-stuck c s h =
    let (_, _, _, _, _, alnum, _, _) = stuck_tests c h in
    rw (json_decode_keyword, json_consume_space-stuck c s h, json_decode_while, alnum) refl

-- The value is an empty text that takes nothing.
json_decode_value-stuck :
    (fuel c : ℕ) (s : Bytes)
    → is_stuck c ≡ true
    → json_decode_value (suc fuel) (c ∷ s) ≡ some (string [], c ∷ s)
unfolding json_decode_value keyword_value equal
json_decode_value-stuck fuel c s h =
    let (space, quoted, digit, brace, bracket, alnum, _, _) = stuck_tests c h in
    let here = json_consume_space-stuck c s h in
    rw (json_decode_value, here, quoted, here, digit, here, brace, here, bracket)
      (ap (λ r. some (keyword_value (json_decode_keyword r).0, (json_decode_keyword r).1)) here
        ∙ ap (λ r. some (keyword_value r.0, r.1)) (json_decode_keyword-stuck c s h))

json_decode_array-stuck :
    (fuel c : ℕ) (t : DTree) (s : Bytes)
    → is_stuck c ≡ true
    → json_decode_array fuel t (c ∷ s) ≡ none
unfolding json_decode_array
json_decode_array-stuck zero c t s h = refl
json_decode_array-stuck (suc zero) c t s h =
    let (_, _, _, _, _, _, end, comma) = stuck_tests c h in rw (json_decode_array, end, comma) refl
json_decode_array-stuck (suc (suc fuel)) c t s h =
    let (_, _, _, _, _, _, end, comma) = stuck_tests c h in
    rw
      (
        json_decode_array,
        end,
        comma,
        json_decode_value-stuck fuel c s h,
        json_consume_space-stuck c s h,
      )
      (json_decode_array-stuck (suc fuel) c (push t (string [])) s h)

json_decode_array_entry :
    (fuel : ℕ) (s : Bytes)
    → json_decode_value (suc fuel) (b'[' ∷ s)
      ≡ json_decode_array fuel set_array (json_consume_space s)
unfolding json_decode_value json_consume_space
json_decode_array_entry fuel s = refl

-- An array whose first character is no space, no letter or digit and no mark of the decoder, for
-- example `[-1]`, is never done: whatever the fuel, the run goes on beyond it.
pub json_decode_value-endless :
    (fuel c : ℕ) (s : Bytes) → is_stuck c ≡ true → json_decode_value fuel (b'[' ∷ c ∷ s) ≡ none
json_decode_value-endless zero c s h = unfold json_decode_value in refl
json_decode_value-endless (suc fuel) c s h =
    json_decode_array_entry fuel (c ∷ s)
    ∙ ap (json_decode_array fuel set_array) (json_consume_space-stuck c s h)
    ∙ json_decode_array-stuck fuel c set_array s h
