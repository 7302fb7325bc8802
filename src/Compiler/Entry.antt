-- ===== src/Compiler/Entry.antt =====
-- The named entry points of src/lib/compiler-parser.cpp: `RENDER:name(...)`, `COMPONENT:name(...)` and
-- `SERVE_HTTP:name(...)` become exported functions. `safe_name` is of src/lib/functionlib.cpp.
pub mod ByLine
pub mod Feeds
use uce.Base.{
  ℕ, suc, ◌-◌, Bool, true, false, List, [], ◌∷◌, ◌++◌, ◌||◌, Option, none, some, Bytes, length,
  take, drop, equal, starts, find, ◌==◌, if◌then◌else◌, codes,
}
use uce.Base.Chars.{is_space, is_alnum}
use uce.Compiler.Code.{last_byte}
use uce.Text.Trim.{front, trim}

unfoldable pub safe_name : Bytes → Bytes
unfolding is_alnum
safe_name [] = []
safe_name (c ∷ raw) = (if is_alnum c || c == b'_' then c ∷ [] else []) ++ safe_name raw

-- The line that a signature, which is the text behind the macro, becomes.
unfoldable pub entrypoint_signature : Bytes → Bytes → Bytes → Option Bytes
unfolding safe_name trim
entrypoint_signature indent symbol_prefix signature = elim (find (b'(' ∷ []) signature) [
  | none ↦ none
  | some open_paren_pos ↦
      let render_name = trim (take open_paren_pos signature) in
      if equal render_name []
      then none
      else some (
          indent
          ++ (codes "EXPORT void "
              ++ (symbol_prefix
                  ++ (b'_' ∷ safe_name render_name ++ drop open_paren_pos signature))))
]

-- The new line, where the line is rewritten.
unfoldable pub rewrite_named_entrypoint_line : Bytes → Bytes → Bytes → Option Bytes
unfolding entrypoint_signature trim front is_space
rewrite_named_entrypoint_line line macro_prefix symbol_prefix =
    let indent = take (front is_space line) line in
    let trimmed = trim line in
    if starts macro_prefix trimmed
    then entrypoint_signature indent symbol_prefix (drop (length macro_prefix) trimmed)
    else none

unfoldable pub or_else : Option Bytes → Bytes → Bytes
or_else none line = line
or_else (some new) line = new

unfoldable pub first_some : Option Bytes → Option Bytes → Option Bytes
first_some none second = second
first_some (some new) second = some new

-- A line without its break, as it is written out.
unfoldable pub rewrite_line : Bytes → Bytes
unfolding or_else first_some rewrite_named_entrypoint_line
rewrite_line line =
    let render = rewrite_named_entrypoint_line line (codes "RENDER:") (codes "__uce_render") in
    let component =
      rewrite_named_entrypoint_line line (codes "COMPONENT:") (codes "__uce_component") in
    let serve =
      rewrite_named_entrypoint_line line (codes "SERVE_HTTP:") (codes "__uce_serve_http") in
    or_else (first_some render (first_some component serve)) line

-- What `flush_line` adds to the result.
unfoldable pub flush_line : Bytes → Bytes
flush_line current_line =
    if equal current_line []
    then []
    else if last_byte 0 current_line == 10
    then rewrite_line (take (length current_line - 1) current_line) ++ 10 ∷ []
    else rewrite_line current_line

unfoldable pub named_lines : Bytes → Bytes → Bytes
named_lines current_line [] = flush_line current_line
named_lines current_line (c ∷ content) = elim (c == 10) [
  | true ↦ flush_line (current_line ++ c ∷ []) ++ named_lines [] content
  | false ↦ named_lines (current_line ++ c ∷ []) content
]

unfoldable pub rewrite_named_render_syntax : Bytes → Bytes
rewrite_named_render_syntax content = named_lines [] content
