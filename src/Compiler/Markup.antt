-- ===== src/Compiler/Markup.antt =====
-- `compiler_process_text_literal` of src/lib/compiler-parser.cpp: markup to code that prints it.
pub mod Fuel
use uce.Base.{
  ℕ, zero, suc, Bool, true, false, [], ◌∷◌, ◌++◌, ◌&&◌, ◌||◌, Bytes, length, drop, equal, ◌==◌,
  if◌then◌else◌, codes,
}
use uce.Compiler.Code.{
  CodeState, new_state, code_state_is_neutral, peek, last_byte, code_state_consume,
  capture_markup_literal,
}
use uce.Compiler.Literal.{cpp_string_literal}

-- What `compiler_append_text_literal_output` makes of the content; it clears the literal.
unfoldable pub append_text_literal_output : Bytes → Bytes → Bytes
append_text_literal_output parsed_content literal_buffer =
    if equal literal_buffer []
    then parsed_content
    else parsed_content ++ (codes "print(" ++ (cpp_string_literal literal_buffer ++ codes ");"))

-- The code that prints a field.
abbrev pub field_output : Bool → Bytes → Bytes
field_output escape_field code =
    if escape_field
    then codes "print(html_escape( " ++ (code ++ codes " )); ")
    else codes "print( " ++ (code ++ codes " ); ")

pub record Markup : Type 0 where
  pub parsed_content : Bytes
  pub code_buffer : Bytes
  pub literal_buffer : Bytes
  pub code_state : CodeState
  pub inside_code : Bool
  pub is_field : Bool
  pub escape_field : Bool

abbrev pub new_markup : Markup
new_markup = record {
  parsed_content = [];
  code_buffer = [];
  literal_buffer = [];
  code_state = new_state;
  inside_code = false;
  is_field = false;
  escape_field = false;
}

-- `<?`, `<?=` or `<?:`
pub open_code : Markup → Bytes → Markup × (ℕ × Bytes)
open_code m s =
    let opened = record m {
      inside_code = true;
      code_buffer = [];
      code_state = new_state;
      parsed_content = append_text_literal_output m.parsed_content m.literal_buffer;
      literal_buffer = [];
      is_field = peek (drop 1 s) == b'=' || peek (drop 1 s) == b':';
      escape_field = peek (drop 1 s) == b'=';
    } in
    (opened, if opened.is_field then (peek (drop 1 s), drop 2 s) else (b'?', drop 1 s))

pub close_code : Markup → Markup
close_code m = record m {
  inside_code = false;
  parsed_content =
      m.parsed_content
      ++ (if m.is_field then field_output m.escape_field m.code_buffer else m.code_buffer);
}

pub code_step : (Bytes → Bytes) → Markup → ℕ → ℕ → Bytes → Markup × (ℕ × Bytes)
code_step nested m before c s =
    let neutral = code_state_is_neutral m.code_state in
    let (markup, behind) = capture_markup_literal (drop 1 s) in
    let (after, (copied, rest)) = code_state_consume m.code_state before c s in
    if neutral && c == b'?' && peek s == b'>'
    then (close_code m, (b'>', drop 1 s))
    else if neutral && c == b'<' && peek s == b'>'
    then (record m { code_buffer = m.code_buffer ++ nested markup }, (b'>', behind))
    else (
      record m { code_state = after; code_buffer = m.code_buffer ++ copied },
      (last_byte c copied, rest),
    )

-- One round of the loop, with what is made of nested markup.
unfoldable pub markup_step : (Bytes → Bytes) → Markup → ℕ → ℕ → Bytes → Markup × (ℕ × Bytes)
unfolding open_code close_code code_step
markup_step nested m before c s =
    if m.inside_code
    then code_step nested m before c s
    else if c == b'<' && peek s == b'?'
    then open_code m s
    else (record m { literal_buffer = m.literal_buffer ++ c ∷ [] }, (c, s))

unfoldable pub markup_rounds : (Bytes → Bytes) → ℕ → Markup → ℕ → Bytes → Markup
markup_rounds nested zero m before s = m
markup_rounds nested (suc fuel) m before [] = m
markup_rounds nested (suc fuel) m before (c ∷ s) =
    let (next, (last, rest)) = markup_step nested m before c s in
    markup_rounds nested fuel next last rest

-- The fuel bounds the depth of nested markup.
unfoldable pub process_text_literal : ℕ → Bytes → Bytes
unfolding markup_rounds
process_text_literal zero content = []
process_text_literal (suc fuel) content =
    let m = markup_rounds (process_text_literal fuel) (length content) new_markup 0 content in
    append_text_literal_output m.parsed_content m.literal_buffer
