-- ===== src/Tests/Compiler.antt =====
-- The template preprocessor at concrete inputs.
use uce.Base.{
  ℕ, zero, suc, true, false, List, [], ◌∷◌, ◌++◌, ◌≡◌, refl, ◌⊎◌, Option, none, some, Bytes, codes,
  arith, find, starts,
}
use uce.Base.Chars.{is_space}
use uce.Compiler.Code.Scan.{Captured}
use uce.Compiler.Code.Closing.{capture_code_until_php_close-Captured}
use uce.Compiler.Code.{
  new_state, code_state_is_neutral, consumed, code_state_consume, capture_code_until_php_close,
}
use uce.Compiler.Code.Plain.{plain_code}
use uce.Compiler.Entry.ByLine.{by_line, rewrite_named_render_syntax-by_line}
use uce.Compiler.Entry.{rewrite_line, rewrite_named_render_syntax}
use uce.Compiler.Fragment.Plain.{joined, fragment_lines-twice}
use uce.Compiler.Fragment.{line_starts_fragmentable_entrypoint, is_fragment_attr, fragment_lines}
use uce.Compiler.Literal.RawString.{HasAll, read_raw_string, read_raw_string-cpp_string_literal}
use uce.Compiler.Literal.{candidates, cpp_string_literal}
use uce.Compiler.Preprocess.Lines.{rounds_fuel}
use uce.Compiler.Preprocess.Pieces.{Piece, text, field, source_of, output_of}
use uce.Compiler.Preprocess.{Preprocess, at_start, prelude, round, rounds}
use uce.Compiler.Source.{preprocess_source, preprocess_source-document}
use uce.Text.Escape.{json_escape}
use uce.Text.Split.{split}
use uce.Text.Trim.{front, back, trim}

abbrev load_none : Bytes → Option (Bytes × Bytes)
load_none unit_name = none

read_raw_string-cpp_string_literal_example :
    (read_raw_string (cpp_string_literal (codes "a)\"b)UCE\"c") ++ codes ");")
      ≡ some (codes "a)\"b)UCE\"c", codes ");"))
    ⊎ (HasAll (codes "a)\"b)UCE\"c") (candidates (codes "a)\"b)UCE\"c"))
        × (cpp_string_literal (codes "a)\"b)UCE\"c") ≡ json_escape (codes "a)\"b)UCE\"c") 34))
read_raw_string-cpp_string_literal_example =
    read_raw_string-cpp_string_literal (codes "a)\"b)UCE\"c") (codes ");")

capture_code_until_php_close-Captured_example :
    Captured b'='
      (codes "f(\"?>\")?>tail")
      (capture_code_until_php_close b'=' (codes "f(\"?>\")?>tail"))
capture_code_until_php_close-Captured_example =
    capture_code_until_php_close-Captured b'=' (codes "f(\"?>\")?>tail")

captured_code :
    capture_code_until_php_close b'=' (codes "f(\"?>\")?>tail") ≡ (codes "f(\"?>\")", codes "tail")
unfolding capture_code_until_php_close code_state_consume consumed code_state_is_neutral
captured_code = refl

rounds_fuel_example :
    rounds load_none 10 (at_start [] []) 0 (codes "a<>b</>")
    ≡ rounds load_none 20 (at_start [] []) 0 (codes "a<>b</>")
rounds_fuel_example =
    rounds_fuel load_none 10 20 (at_start [] []) 0 (codes "a<>b</>") (omega arith) (omega arith)

-- A unit `x` that is found, and the state at the end of the line that loads it.
abbrev load_x : Bytes → Option (Bytes × Bytes)
load_x unit_name = some (codes "/bin", codes "x.h")

abbrev load_line_text : Bytes
load_line_text = codes "#load \"x\""

abbrev at_break : Preprocess
at_break = record (at_start (codes "a\n") []) {
  parsed_content = codes "a\n#load \"x\"";
  current_line = load_line_text;
  code_state = record new_state { quote_char = 34 };
}

-- The state after so many rounds, which each take one character.
abbrev advanced : ℕ → Preprocess → ℕ → Bytes → Preprocess × (ℕ × Bytes)
advanced zero p before s = (p, (before, s))
advanced (suc n) p before [] = (p, (before, []))
advanced (suc n) p before (c ∷ s) =
    let (next, (last, rest)) = round load_x p before c s in advanced n next last rest

rewrite_named_render_syntax-by_line_example :
    rewrite_named_render_syntax (codes "int a;\nRENDER:x(Request& c)\n{}")
    ≡ by_line (codes "int a;\nRENDER:x(Request& c)\n{}")
rewrite_named_render_syntax-by_line_example =
    rewrite_named_render_syntax-by_line (codes "int a;\nRENDER:x(Request& c)\n{}")

starts_once : line_starts_fragmentable_entrypoint (trim (codes "ONCE()")) ≡ some (codes "ONCE")
unfolding line_starts_fragmentable_entrypoint trim front back is_space starts
starts_once = refl

no_fragment_attr : is_fragment_attr (trim (codes "x;")) ≡ false
unfolding is_fragment_attr trim front back is_space starts
no_fragment_attr = refl

no_entrypoint : line_starts_fragmentable_entrypoint (trim (codes "x;")) ≡ none
unfolding line_starts_fragmentable_entrypoint trim front back is_space starts
no_entrypoint = refl

fragment_lines-twice_example :
    fragment_lines 3 (codes "ONCE()" ∷ codes "x;" ∷ [])
    ≡ codes "ONCE()" ++ (codes "\n" ++ (joined (codes "x;" ∷ []) ++ joined (codes "x;" ∷ [])))
fragment_lines-twice_example =
    fragment_lines-twice 2 (codes "ONCE()") (codes "x;") [] (omega arith) starts_once
      no_fragment_attr (unfold find starts in refl) (unfold find starts in (refl, tt))
      (no_entrypoint, tt)

abbrev page : List Piece
page = text (codes "a ") ∷ field true (codes "x") ∷ text (codes " b") ∷ []

preprocess_source-document_example :
    preprocess_source load_none
      (codes "/uce")
      (codes "")
      []
      (codes "<>" ++ (source_of page ++ codes "</>"))
    ≡ (output_of (prelude (codes "/uce") (codes "")) [] page, [])
unfolding source_of split find starts capture_code_until_php_close code_state_consume consumed
    code_state_is_neutral line_starts_fragmentable_entrypoint rewrite_line trim front back is_space
preprocess_source-document_example =
    preprocess_source-document load_none (codes "/uce") (codes "") [] page
      (omega arith, (plain_code (codes "x") (omega arith, tt), (omega arith, tt)))
      ((refl, refl), tt)
