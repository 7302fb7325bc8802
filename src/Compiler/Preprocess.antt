-- ===== src/Compiler/Preprocess.antt =====
-- `compiler_preprocess_shared_unit_char_wise` of src/lib/compiler-parser.cpp: the code of a unit is kept,
-- its literals become code that prints them, and its `#load` and `EXPORT` lines are acted on.
pub mod Pieces
pub mod Lines
pub mod Loads
use uce.Base.{
  ℕ, zero, suc, ◌-◌, Bool, true, false, List, [], ◌∷◌, ◌++◌, ◌&&◌, ◌||◌, Option, none, some, Bytes,
  length, take, drop, get_or, equal, find, ltb, ◌==◌, if◌then◌else◌, codes,
}
use uce.Base.Chars.{is_space}
use uce.Compiler.Code.{
  CodeState, new_state, code_state_is_neutral, peek, last_byte, code_state_consume,
  capture_code_until_php_close,
}
use uce.Compiler.Markup.{append_text_literal_output, field_output}
use uce.Text.Nibble.{nibble}
use uce.Text.Trim.{trim}

-- The variables of the loop, and the declarations of the unit.
pub record Preprocess : Type 0 where
  pub parsed_content : Bytes
  pub code_state : CodeState
  pub current_line : Bytes
  pub literal_buffer : Bytes
  pub inside_literal : Bool
  pub api_declarations : List Bytes

-- A round gives the variables, the last byte taken, and the text that is left.
abbrev pub Rest : Type 0
Rest = ℕ × Bytes

unfoldable pub flush_literal : Preprocess → Preprocess
flush_literal p = record p {
  parsed_content = append_text_literal_output p.parsed_content p.literal_buffer;
  literal_buffer = [];
}

-- `<?=` or `<?:`, with the text behind `<`.
pub field_round : Preprocess → Bytes → Preprocess × Rest
field_round given s =
    let p = flush_literal given in
    let kind = peek (drop 1 s) in
    let (field_code, rest) = capture_code_until_php_close kind (drop 2 s) in
    (
      record p { parsed_content = p.parsed_content ++ field_output (kind == b'=') field_code },
      (b'>', rest),
    )

unfoldable pub literal_round : Preprocess → ℕ → Bytes → Preprocess × Rest
unfolding field_round flush_literal
literal_round p c s =
    let flushed = flush_literal p in
    if c == b'<' && peek s == b'?' && (peek (drop 1 s) == b'=' || peek (drop 1 s) == b':')
    then field_round p s
    else if c == b'<' && peek s == b'?'
    then (record flushed { inside_literal = false; code_state = new_state }, (b'?', drop 1 s))
    else if c == b'<' && peek s == b'/' && peek (drop 1 s) == b'>'
    then (record flushed { inside_literal = false }, (b'>', drop 2 s))
    else (record p { literal_buffer = p.literal_buffer ++ c ∷ [] }, (c, s))

-- A line that begins with `EXPORT`, with the text from its line break on.
unfoldable pub export_line : Preprocess → Bytes → Preprocess
export_line given s =
    let p = record given { current_line = [] } in
    elim (find (b'{' ∷ []) s) [
      | none ↦ p
      | some end ↦ record p {
        parsed_content = p.parsed_content ++ 10 ∷ [];
        api_declarations = p.api_declarations ++ (trim (take end s) ++ codes ";\n") ∷ [];
      }
    ]

unfoldable pub is_export : Bytes → Bool
is_export trimmed_line =
    ltb 7 (length trimmed_line)
    && equal (take 6 trimmed_line) (codes "EXPORT")
    && is_space (get_or trimmed_line 6 0)

-- What the content begins with; `setup` is the content of the setup template.
unfoldable pub prelude : Bytes → Bytes → Bytes
prelude sys_path setup =
    codes "#include \""
    ++ (sys_path ++ (codes "/src/lib/uce_lib.h\" \n" ++ (setup ++ codes "#line 1\n")))

abbrev pub at_start : Bytes → List Bytes → Preprocess
at_start content api_declarations = record {
  parsed_content = content;
  code_state = new_state;
  current_line = [];
  literal_buffer = [];
  inside_literal = false;
  api_declarations = api_declarations;
}

unfoldable pub finish : Preprocess → Bytes × List Bytes
unfolding flush_literal
finish p =
    let finished = if p.inside_literal then flush_literal p else p in
    (finished.parsed_content, finished.api_declarations)

-- `compiler_load_shared_unit` gives the directory and the name of the loaded unit's source, if any.
module _ (load_shared_unit : Bytes → Option (Bytes × Bytes)) where
  -- The unit that a `#load` line names.
  unfoldable pub load_line : Preprocess → Preprocess
  load_line p =
      let (unit_name, _) = nibble (34 ∷ []) (nibble (34 ∷ []) p.current_line).1 in
      let kept = take (length p.parsed_content - length p.current_line) p.parsed_content in
      elim (load_shared_unit unit_name) [
        | none ↦ record p { parsed_content = kept }
        | some (bin_path, pre_file_name) ↦ record p {
          parsed_content =
              kept ++ (codes "#include \"" ++ (bin_path ++ b'/' ∷ pre_file_name ++ codes "\"\n"));
        }
      ]

  -- What a line of code asks for, with the text from its line break on.
  unfoldable pub directive : Preprocess → Bytes → Preprocess
  unfolding load_line export_line is_export
  directive p s =
      if equal (take 6 p.current_line) (codes "#load ")
      then load_line p
      else if is_export (trim p.current_line)
      then export_line p s
      else p

  -- What happens behind a character of code, with the text behind it.
  unfoldable pub end_of_line : Preprocess → ℕ → Bytes → Preprocess
  unfolding directive
  end_of_line p c s =
      let acted = directive p (c ∷ s) in if c == 10 then record acted { current_line = [] } else p

  unfoldable pub code_round : Preprocess → ℕ → ℕ → Bytes → Preprocess × Rest
  unfolding end_of_line
  code_round p before c s =
      let (after, (copied, rest)) = code_state_consume p.code_state before c s in
      let consumed = record p {
        current_line = p.current_line ++ c ∷ [];
        code_state = after;
        parsed_content = p.parsed_content ++ copied;
      } in
      if code_state_is_neutral p.code_state && (c == b'<' || c == b'?') && peek s == b'>'
      then (
        record p { inside_literal = true; literal_buffer = []; current_line = [] },
        (b'>', drop 1 s),
      )
      else (end_of_line consumed c s, (last_byte c copied, rest))

  unfoldable pub round : Preprocess → ℕ → ℕ → Bytes → Preprocess × Rest
  round p before c s = if p.inside_literal then literal_round p c s else code_round p before c s

  unfoldable pub rounds : ℕ → Preprocess → ℕ → Bytes → Preprocess
  rounds zero p before s = p
  rounds (suc fuel) p before [] = p
  rounds (suc fuel) p before (c ∷ s) =
      let (next, (last, rest)) = round p before c s in rounds fuel next last rest

  -- The content and the declarations.
  unfoldable pub preprocess_shared_unit_char_wise :
      Bytes → Bytes → List Bytes → Bytes → Bytes × List Bytes
  unfolding finish
  preprocess_shared_unit_char_wise sys_path setup api_declarations content =
      finish
        (rounds (length content) (at_start (prelude sys_path setup) api_declarations) 0 content)
