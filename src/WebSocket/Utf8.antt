-- ===== src/WebSocket/Utf8.antt =====
-- `ws_is_valid_utf8` of src/lib/uri.cpp. The bits that follow the shifted code point are added.
use uce.Base.{
  ℕ, suc, zero, ◌+◌, ◌*◌, Bool, true, false, [], ◌∷◌, Option, none, some, Bytes, length, leb, ltb,
  ◌==◌, if◌then◌else◌, bit_and, ◌&&◌, ◌||◌,
}

-- `trailing` and the bits of the first byte.
unfoldable pub utf8_lead : ℕ → Option (ℕ × ℕ)
utf8_lead c =
    if bit_and c 0xE0 == 0xC0
    then (if bit_and c 0x1F == 0 then none else some (1, bit_and c 0x1F))
    else if bit_and c 0xF0 == 0xE0
    then some (2, bit_and c 0x0F)
    else if bit_and c 0xF8 == 0xF0
    then some (3, bit_and c 0x07)
    else none

-- The loop over the trailing bytes, which are there.
unfoldable pub utf8_follow : ℕ → Bytes → ℕ → Option ℕ
utf8_follow zero s codepoint = some codepoint
utf8_follow (suc trailing) [] codepoint = none
utf8_follow (suc trailing) (follow ∷ s) codepoint =
    if bit_and follow 0xC0 == 0x80
    then utf8_follow trailing s (codepoint * 64 + bit_and follow 0x3F)
    else none

-- The tests on the whole code point.
unfoldable pub utf8_accepts : ℕ → ℕ → Bool
utf8_accepts trailing codepoint =
    if (trailing == 1 && ltb codepoint 0x80)
      || (trailing == 2 && ltb codepoint 0x800)
      || (trailing == 3 && ltb codepoint 0x10000)
    then false
    else if ltb 0x10FFFF codepoint
    then false
    else if leb 0xD800 codepoint && leb codepoint 0xDFFF
    then false
    else true

-- One round on the byte `c` and what follows: how many of those bytes it takes.
unfoldable pub utf8_round : ℕ → Bytes → Option ℕ
utf8_round c s = if leb c 0x7F then some 0 else elim (utf8_lead c) [
  | none ↦ none
  | some (trailing, codepoint) ↦
      if ltb (length s) trailing then none else elim (utf8_follow trailing s codepoint) [
        | none ↦ none
        | some whole ↦ if utf8_accepts trailing whole then some trailing else none
      ]
]

-- The loop, which first passes the bytes that the round before has taken.
unfoldable pub utf8_loop : ℕ → Bytes → Bool
utf8_loop taken [] = true
utf8_loop (suc taken) (c ∷ s) = utf8_loop taken s
utf8_loop zero (c ∷ s) = elim (utf8_round c s) [ none ↦ false | some taken ↦ utf8_loop taken s ]

unfoldable pub ws_is_valid_utf8 : Bytes → Bool
ws_is_valid_utf8 input = utf8_loop 0 input
