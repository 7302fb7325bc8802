-- ===== src/Text/Escape/Readers.antt =====
-- What a reader of HTML, a shell, or the JSON decoder makes of an escaped text.
use uce.Base.{
  ℕ, zero, suc, true, false, [], ◌∷◌, ◌++◌, ◌≡◌, refl, ap, ◌∙◌, ◌⊎◌, Option, none, some, Bytes,
  ◌==◌, if◌then◌else◌, codes, arith, append_assoc, append-nil, drop, starts,
}
use mathlib.Core.Option
use uce.Text.Escape.{
  html_escape_char, html_escape, shell_escape_loop, shell_escape, json_escape_char,
  json_escape_loop, json_escape, json_unescape, json_decode_loop, json_decode_String,
}

-- A POSIX shell reads one word: between quotes every byte is itself, outside only a byte after a
-- backslash is; any other byte outside the quotes is refused.
pub data Quoting : Type 0 where
  outside escaped quoted : Quoting

unfoldable pub shell_word : Quoting → Bytes → Option Bytes
shell_word outside [] = some []
shell_word escaped [] = none
shell_word quoted [] = none
shell_word escaped (c ∷ s) = Option.map (◌∷◌ c) (shell_word outside s)
shell_word outside (c ∷ s) = elim (c == 39) [
  | true ↦ shell_word quoted s
  | false ↦ elim (c == 92) [ true ↦ shell_word escaped s | false ↦ none ]
]
shell_word quoted (c ∷ s) = elim (c == 39) [
  | true ↦ shell_word outside s
  | false ↦ Option.map (◌∷◌ c) (shell_word quoted s)
]

shell_word-shell_escape_loop :
    (raw : Bytes) → shell_word quoted (shell_escape_loop raw ++ 39 ∷ []) ≡ some raw
unfolding shell_word shell_escape_loop
shell_word-shell_escape_loop [] = refl
shell_word-shell_escape_loop (c ∷ raw) = ground (arith, shell_word-shell_escape_loop raw)

-- A shell reads the escaped form of any text as one word, which is the text; no byte of it stands
-- outside the quotes but after a backslash.
pub shell_word-shell_escape : (raw : Bytes) → shell_word outside (shell_escape raw) ≡ some raw
unfolding shell_word shell_escape
shell_word-shell_escape raw = shell_word-shell_escape_loop raw

-- A character reference behind `&`: the character, and the length of its name with the semicolon.
unfoldable pub reference : Bytes → Option (ℕ × ℕ)
reference s =
    if starts (codes "amp;") s
    then some (b'&', 4)
    else if starts (codes "lt;") s
    then some (b'<', 3)
    else if starts (codes "gt;") s
    then some (b'>', 3)
    else if starts (codes "quot;") s
    then some (34, 5)
    else if starts (codes "#39;") s
    then some (39, 4)
    else none

-- The text of an HTML attribute or element: markup and quotes are refused, references are replaced.
unfoldable pub html_text : ℕ → Bytes → Option Bytes
html_text taken [] = some []
html_text (suc taken) (c ∷ s) = html_text taken s
html_text zero (c ∷ s) = elim (c == b'&') [
  | true ↦ elim (reference s) [
    | none ↦ none
    | some (d, taken) ↦ Option.map (◌∷◌ d) (html_text taken s)
  ]
  | false ↦
      if c == b'<'
      then none
      else if c == b'>'
      then none
      else if c == 34
      then none
      else if c == 39
      then none
      else Option.map (◌∷◌ c) (html_text 0 s)
]

html_text-html_escape_char :
    (c : ℕ) (s : Bytes) → html_text 0 (html_escape_char c ++ s) ≡ Option.map (◌∷◌ c) (html_text 0 s)
unfolding html_text html_escape_char reference starts
html_text-html_escape_char c s = ground arith

-- A reader of HTML that refuses markup and quotes accepts the escaped form of any text, and reads the
-- text.
pub html_text-html_escape : (s : Bytes) → html_text 0 (html_escape s) ≡ some s
unfolding html_escape html_text
html_text-html_escape [] = refl
html_text-html_escape (c ∷ s) =
    html_text-html_escape_char c (html_escape s) ∙ ap (Option.map (◌∷◌ c)) (html_text-html_escape s)

-- One escaped character, between either kind of quotes.
json_decode_loop-json_escape_char :
    (q c : ℕ) (s result : Bytes)
    → (q ≡ 34) ⊎ (q ≡ 39)
    → json_decode_loop q false (json_escape_char q c ++ s) result
      ≡ json_decode_loop q false s (result ++ c ∷ [])
unfolding json_decode_loop json_escape_char json_unescape
json_decode_loop-json_escape_char q c s result quote = ground arith

json_decode_loop_end :
    (q : ℕ) (rest result : Bytes) → json_decode_loop q false (q ∷ rest) result ≡ (result, rest)
unfolding json_decode_loop
json_decode_loop_end q rest result = ground arith

json_decode_loop-json_escape_loop :
    (q : ℕ) (s rest result : Bytes)
    → (q ≡ 34) ⊎ (q ≡ 39)
    → json_decode_loop q false (json_escape_loop q s ++ q ∷ rest) result ≡ (result ++ s, rest)
unfolding json_escape_loop json_decode_loop
json_decode_loop-json_escape_loop q [] rest result quote =
    rw append-nil (json_decode_loop_end q rest result)
json_decode_loop-json_escape_loop q (c ∷ s) rest result quote =
    ap (λ t. json_decode_loop q false t result)
      (append_assoc (json_escape_char q c) (json_escape_loop q s) (q ∷ rest))
    ∙ json_decode_loop-json_escape_char q c (json_escape_loop q s ++ q ∷ rest) result quote
    ∙ json_decode_loop-json_escape_loop q s rest (result ++ c ∷ []) quote
    ∙ ap (λ t. (t, rest)) (append_assoc result (c ∷ []) s)

-- Behind its opening quote, `"` or `'`, the decoder reads an escaped text up to the closing quote and
-- gives the text back, with what follows the quote.
pub json_decode_String-json_escape :
    (s rest : Bytes) (quote_char : ℕ)
    → (quote_char ≡ 34) ⊎ (quote_char ≡ 39)
    → json_decode_String (drop 1 (json_escape s quote_char) ++ rest) quote_char ≡ (s, rest)
unfolding json_decode_String json_escape
json_decode_String-json_escape s rest q quote =
    ap (λ t. json_decode_loop q false t []) (append_assoc (json_escape_loop q s) (q ∷ []) rest)
    ∙ json_decode_loop-json_escape_loop q s rest [] quote
