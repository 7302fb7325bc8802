-- ===== src/Compiler/Code.antt =====
-- How src/lib/compiler-parser.cpp goes through C++ code: its state for quotes and comments, and the
-- two functions that take the code up to `?>` and the markup up to `</>`. A position of the source is
-- the text from there on, with the byte before it; that byte is 0 at the front.
pub mod Copies
pub mod Plain
pub mod Scan
pub mod Closing
use uce.Base.{
  ℕ, zero, suc, ◌+◌, ◌-◌, Bool, true, false, [], ◌∷◌, ◌++◌, ◌&&◌, ◌||◌, not, Bytes, length, drop,
  starts, ◌==◌, ltb, if◌then◌else◌, codes,
}

-- CompilerCodeState
pub record CodeState : Type 0 where
  pub quote_char : ℕ
  pub inside_quote : Bool
  pub inside_line_comment : Bool
  pub inside_block_comment : Bool

abbrev pub new_state : CodeState
new_state = record {
  quote_char = 0;
  inside_quote = false;
  inside_line_comment = false;
  inside_block_comment = false;
}

unfoldable pub code_state_is_neutral : CodeState → Bool
code_state_is_neutral state =
    not state.inside_quote && not state.inside_line_comment && not state.inside_block_comment

-- The next character; past the end it is the null character.
abbrev pub peek : Bytes → ℕ
peek [] = 0
peek (c ∷ s) = c

-- The last byte of what was taken.
abbrev pub last_byte : ℕ → Bytes → ℕ
last_byte c [] = c
last_byte c (d ∷ s) = last_byte d s

-- The state, whether a second character is taken with the first, and the first one.
unfoldable pub consumed : CodeState → ℕ → ℕ → ℕ → CodeState × Bool
consumed state before c c1 =
    if state.inside_quote
    then (
      if state.quote_char == c && not (before == 92)
          then record state { inside_quote = false }
          else state,
      false,
    )
    else if state.inside_line_comment
    then (if c == 10 then record state { inside_line_comment = false } else state, false)
    else if state.inside_block_comment
    then if c == b'*' && c1 == b'/'
      then (record state { inside_block_comment = false }, true)
      else (state, false)
    else if c == b'/' && c1 == b'/'
    then (record state { inside_line_comment = true }, true)
    else if c == b'/' && c1 == b'*'
    then (record state { inside_block_comment = true }, true)
    else (
      if c == 34 || c == 39 then record state { inside_quote = true; quote_char = c } else state,
      false,
    )

-- The state, what is appended to the buffer, and the text behind it.
unfoldable pub code_state_consume : CodeState → ℕ → ℕ → Bytes → CodeState × (Bytes × Bytes)
code_state_consume state before c s =
    let (after, two) = consumed state before c (peek s) in
    (after, if two then (c ∷ peek s ∷ [], drop 1 s) else (c ∷ [], s))

-- The code, and the text behind the `?>`.
unfoldable pub capture_code_loop : ℕ → CodeState → ℕ → Bytes → Bytes → Bytes × Bytes
capture_code_loop zero state before buffer s = (buffer, s)
capture_code_loop (suc fuel) state before buffer [] = (buffer, [])
capture_code_loop (suc fuel) state before buffer (c ∷ s) =
    elim (code_state_is_neutral state && c == b'?' && peek s == b'>') [
      | true ↦ (buffer, drop 1 s)
      | false ↦
          let (after, (copied, rest)) = code_state_consume state before c s in
          capture_code_loop fuel after (last_byte c copied) (buffer ++ copied) rest
    ]

unfoldable pub capture_code_until_php_close : ℕ → Bytes → Bytes × Bytes
unfolding capture_code_loop
capture_code_until_php_close before s = capture_code_loop (length s) new_state before [] s

-- What one round of the loop over markup does: it ends with the text behind `</>`, or it goes on
-- inside of code or not, at a depth, with what it appends and the text behind that.
pub data Round : Type 0 where
  closed : Bytes → Round
  more : Bool → ℕ → CodeState → Bytes → Bytes → Round

unfoldable pub code_round : ℕ → CodeState → ℕ → ℕ → Bytes → Round
code_round depth state before c s =
    let (after, (copied, rest)) = code_state_consume state before c s in
    if code_state_is_neutral state && c == b'?' && peek s == b'>'
    then more false depth state (codes "?>") (drop 1 s)
    else more true depth after copied rest

unfoldable pub text_round : ℕ → CodeState → ℕ → Bytes → Round
text_round depth state c s =
    if c == b'<' && peek s == b'?'
    then more true depth new_state (codes "<?") (drop 1 s)
    else if starts (codes "</>") (c ∷ s)
    then if ltb 0 depth
      then more false (depth - 1) state (codes "</>") (drop 2 s)
      else closed (drop 2 s)
    else if c == b'<' && peek s == b'>'
    then more false (depth + 1) state (codes "<>") (drop 1 s)
    else more false depth state (c ∷ []) s

unfoldable pub markup_loop : ℕ → Bool → ℕ → CodeState → ℕ → Bytes → Bytes → Bytes × Bytes
unfolding code_round text_round
markup_loop zero inside_code depth state before buffer s = (buffer, s)
markup_loop (suc fuel) inside_code depth state before buffer [] = (buffer, [])
markup_loop (suc fuel) inside_code depth state before buffer (c ∷ s) =
    elim (if inside_code then code_round depth state before c s else text_round depth state c s) [
      | closed rest ↦ (buffer, rest)
      | more inside deep after copied rest ↦
          markup_loop fuel inside deep after (last_byte c copied) (buffer ++ copied) rest
    ]

-- The text behind `<>`; the markup, and the text behind its `</>`.
unfoldable pub capture_markup_literal : Bytes → Bytes × Bytes
unfolding markup_loop
capture_markup_literal s = markup_loop (length s) false 0 new_state b'>' [] s
