-- ===== src/Text/Escape.antt =====
-- `html_escape` of src/lib/functionlib.cpp, `shell_escape` of src/lib/sys.cpp, `json_escape` of
-- src/lib/dtree.cpp and `json_decode_String` of src/lib/functionlib.cpp.
pub mod Readers
use uce.Base.{ℕ, Bool, true, false, [], ◌∷◌, ◌++◌, Bytes, ◌==◌, if◌then◌else◌, codes}

pub html_escape_char : ℕ → Bytes
html_escape_char c =
    if c == b'&'
    then codes "&amp;"
    else if c == b'<'
    then codes "&lt;"
    else if c == b'>'
    then codes "&gt;"
    else if c == 34
    then codes "&quot;"
    else if c == 39
    then codes "&#39;"
    else c ∷ []

unfoldable pub html_escape : Bytes → Bytes
unfolding html_escape_char
html_escape [] = []
html_escape (c ∷ s) = html_escape_char c ++ html_escape s

-- A quote is closed, given after a backslash, and opened again.
unfoldable pub shell_escape_loop : Bytes → Bytes
shell_escape_loop [] = []
shell_escape_loop (c ∷ raw) =
    (if c == 39 then 39 ∷ 92 ∷ 39 ∷ 39 ∷ [] else c ∷ []) ++ shell_escape_loop raw

unfoldable pub shell_escape : Bytes → Bytes
unfolding shell_escape_loop
shell_escape raw = 39 ∷ shell_escape_loop raw ++ 39 ∷ []

unfoldable pub json_escape_char : ℕ → ℕ → Bytes
json_escape_char quote_char c =
    if c == quote_char
    then 92 ∷ quote_char ∷ []
    else if c == 9
    then codes "\\t"
    else if c == 10
    then codes "\\n"
    else if c == 34
    then 92 ∷ 34 ∷ []
    else if c == 13
    then codes "\\r"
    else if c == 92
    then 92 ∷ 92 ∷ []
    else if c == 8
    then codes "\\b"
    else if c == 12
    then codes "\\f"
    else c ∷ []

unfoldable pub json_escape_loop : ℕ → Bytes → Bytes
json_escape_loop quote_char [] = []
json_escape_loop quote_char (c ∷ s) = json_escape_char quote_char c ++ json_escape_loop quote_char s

unfoldable pub json_escape : Bytes → ℕ → Bytes
unfolding json_escape_loop json_escape_char
json_escape s quote_char = quote_char ∷ json_escape_loop quote_char s ++ quote_char ∷ []

-- What the character after a backslash appends.
unfoldable pub json_unescape : ℕ → Bytes
json_unescape c =
    if c == b't'
    then 9 ∷ []
    else if c == b'n'
    then 10 ∷ []
    else if c == b'r'
    then 13 ∷ []
    else if c == 92
    then 92 ∷ []
    else if c == b'b'
    then 8 ∷ []
    else if c == b'f'
    then 12 ∷ []
    else if c == b'u'
    then []
    else c ∷ []

-- The loop, after a backslash or not; it gives the result and what follows the termination. Past the
-- end, `s[i]` is the null byte.
unfoldable pub json_decode_loop : ℕ → Bool → Bytes → Bytes → Bytes × Bytes
json_decode_loop termination_char true [] result = (result ++ 0 ∷ [], [])
json_decode_loop termination_char false [] result = (result, [])
json_decode_loop termination_char true (c ∷ s) result =
    json_decode_loop termination_char false s (result ++ json_unescape c)
json_decode_loop termination_char false (c ∷ s) result = elim (c == termination_char) [
  | true ↦ (result, s)
  | false ↦ elim (c == 92) [
    | true ↦ json_decode_loop termination_char true s result
    | false ↦ json_decode_loop termination_char false s (result ++ c ∷ [])
  ]
]

unfoldable pub json_decode_String : Bytes → ℕ → Bytes × Bytes
json_decode_String s termination_char = json_decode_loop termination_char false s []
