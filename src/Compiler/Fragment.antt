-- ===== src/Compiler/Fragment.antt =====
-- `compiler_rewrite_fragment_attributes` of src/lib/compiler-parser.cpp: an entry point with a
-- `@fragment` line behind it, and every `ONCE`, has the capture of its output put behind its brace.
-- The lines of the source from an index on are a list.
pub mod Plain
pub mod Fuel
use uce.Base.{
  ℕ, zero, suc, ◌+◌, Bool, true, false, List, [], ◌∷◌, ◌++◌, ◌&&◌, ◌||◌, not, Option, none, some,
  Bytes, length, take, drop, get_or, equal, starts, find, ◌==◌, if◌then◌else◌, codes,
}
use uce.Base.Chars.{is_space}
use uce.Compiler.Literal.{cpp_string_literal, has_none}
use uce.Text.Split.{split}
use uce.Text.Trim.{trim}

unfoldable pub line_starts_entrypoint : Bytes → Bytes → Bool
unfolding has_none
line_starts_entrypoint trimmed macro_name =
    starts (macro_name ++ codes "(") trimmed
    || starts (macro_name ++ codes ":") trimmed && not (has_none (find (codes "(") trimmed))

-- The kind of the entry point, if the line starts one.
unfoldable pub line_starts_fragmentable_entrypoint : Bytes → Option Bytes
unfolding line_starts_entrypoint
line_starts_fragmentable_entrypoint trimmed =
    if line_starts_entrypoint trimmed (codes "ONCE")
    then some (codes "ONCE")
    else if line_starts_entrypoint trimmed (codes "RENDER")
    then some (codes "RENDER")
    else if line_starts_entrypoint trimmed (codes "COMPONENT")
    then some (codes "COMPONENT")
    else none

unfoldable pub fragment_capture_prelude : Bytes → Bytes
fragment_capture_prelude slot =
    codes
      "\nstruct __UceFragmentCapture { Request& context; String slot; __UceFragmentCapture(Request& c, String s) : context(c), slot(s) { ob_start(); } ~__UceFragmentCapture() { String html = ob_get_close(); if(html != \"\") context.call[\"fragments\"][slot] = context.call[\"fragments\"][slot].to_string() + html; } }; __UceFragmentCapture __uce_fragment_capture(context, "
    ++ (cpp_string_literal slot ++ codes ");\n")

-- A line break, where lines follow.
abbrev pub break_before : List Bytes → Bytes
break_before [] = []
break_before (line ∷ lines) = 10 ∷ []

unfoldable pub is_fragment_attr : Bytes → Bool
is_fragment_attr attr_trimmed =
    starts (codes "@fragment") attr_trimmed
    && (length attr_trimmed == 9 || is_space (get_or attr_trimmed 9 0))

-- The slot, whether there was an attribute, and the lines behind the attributes.
unfoldable pub fragment_attrs : Bytes → Bool → List Bytes → Bytes × (Bool × List Bytes)
unfolding is_fragment_attr
fragment_attrs slot has_fragment_attr [] = (slot, (has_fragment_attr, []))
fragment_attrs slot has_fragment_attr (attr_line ∷ lines) =
    elim (is_fragment_attr (trim attr_line)) [
      | true ↦ fragment_attrs (trim (drop 9 (trim attr_line))) true lines
      | false ↦ (slot, (has_fragment_attr, attr_line ∷ lines))
    ]

-- A line with the capture behind the brace at a position.
abbrev pub with_capture : Bytes → ℕ → Bytes → Bytes
with_capture line brace_pos slot =
    take (suc brace_pos) line ++ (fragment_capture_prelude slot ++ drop (suc brace_pos) line)

-- The lines up to the first brace, and the lines behind that, if there is a brace.
unfoldable pub body_lines : Bytes → List Bytes → Bytes × Option (List Bytes)
body_lines slot [] = ([], none)
body_lines slot (body_line ∷ lines) = elim (find (codes "{") body_line) [
  | none ↦
      let (written, behind) = body_lines slot lines in
      (body_line ++ (break_before lines ++ written), behind)
  | some brace_pos ↦ (with_capture body_line brace_pos slot ++ break_before lines, some lines)
]

abbrev pub or_lines : Option (List Bytes) → List Bytes → List Bytes
or_lines none lines = lines
or_lines (some behind) lines = behind

-- What is written for an entry point whose attributes are read, and the lines that the loop goes on
-- with behind the declaration. Where no brace is found, the index is still that of the declaration,
-- whose following lines are the last argument.
unfoldable pub captured : Bool → Bytes → Bytes → Bool → List Bytes → List Bytes → Bytes × List Bytes
captured once line slot has_fragment_attr after lines =
    let (written, behind) = body_lines slot after in
    if not (not (equal slot []) && (once || has_fragment_attr))
    then (line ++ break_before after, after)
    else elim (find (codes "{") line) [
      | some brace_pos ↦ (with_capture line brace_pos slot ++ break_before after, after)
      | none ↦ (line ++ (break_before after ++ written), or_lines behind lines)
    ]

unfoldable pub entrypoint_lines : Bytes → Bytes → List Bytes → Bytes × List Bytes
entrypoint_lines kind line lines =
    let once = equal kind (codes "ONCE") in
    let (slot, (has_fragment_attr, after)) =
      fragment_attrs (if once then codes "once" else []) false lines in
    captured once line slot has_fragment_attr after lines

unfoldable pub fragment_lines : ℕ → List Bytes → Bytes
fragment_lines zero lines = []
fragment_lines (suc fuel) [] = []
fragment_lines (suc fuel) (line ∷ lines) = elim (line_starts_fragmentable_entrypoint (trim line)) [
  | none ↦ line ++ (break_before lines ++ fragment_lines fuel lines)
  | some kind ↦
      let (written, rest) = entrypoint_lines kind line lines in written ++ fragment_lines fuel rest
]

unfoldable pub rewrite_fragment_attributes : Bytes → Bytes
unfolding fragment_lines split
rewrite_fragment_attributes content =
    let lines = split content (codes "\n") in fragment_lines (length lines) lines
