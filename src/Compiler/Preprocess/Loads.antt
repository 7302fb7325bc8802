-- ===== src/Compiler/Preprocess/Loads.antt =====
-- The `#load` lines in the loop of `compiler_preprocess_shared_unit_char_wise`: what each takes off the
-- content is there.
use uce.Base.{ℕ, ◌≤◌, [], ◌∷◌, ◌++◌, ◌≡◌, Option, Bytes, length, codes, none, some}
use uce.Compiler.Preprocess.{Preprocess, round}
use uce.Text.Nibble.{nibble}

-- The line stands within what is parsed.
abbrev pub Fits : Preprocess → Type 0
Fits p = length p.current_line ≤ length p.parsed_content

-- The unit of a `#load` line becomes its `#include` line, when there is one.
abbrev pub included : Option (Bytes × Bytes) → Bytes
included none = []
included (some (bin_path, pre_file_name)) =
    codes "#include \"" ++ (bin_path ++ b'/' ∷ pre_file_name ++ codes "\"\n")

-- What is written is `content`, as long as that is at least as long as the line: its end is cut off by
-- exactly the length of the line, and the text for the unit stands in its place.
abbrev pub Shortened : Bytes → Bytes → Bytes → Bytes → Type 0
Shortened content line unit after =
    (front : Bytes) × (cut : Bytes) × (content ≡ front ++ cut)
    × (length cut ≡ length line)
    × (after ≡ front ++ unit)

-- The states in which the loop of the preprocessor comes to the rest of a content: its variables, the
-- byte before the rest, and the rest.
pub data Reached (load_shared_unit : Bytes → Option (Bytes × Bytes)) (start : Preprocess)
    (content : Bytes) : Preprocess → ℕ → Bytes → Type 0 where
  begun : Reached load_shared_unit start content start 0 content
  went :
      (p : Preprocess) (before c : ℕ) (s : Bytes)
      → Reached load_shared_unit start content p before (c ∷ s)
      → Reached load_shared_unit start content
          (round load_shared_unit p before c s).0
          (round load_shared_unit p before c s).1.0
          (round load_shared_unit p before c s).1.1

module _ (load_shared_unit : Bytes → Option (Bytes × Bytes)) where
  -- The text of the unit that a line names between its first two quotes.
  abbrev pub unit_text : Bytes → Bytes
  unit_text line = included (load_shared_unit (nibble (34 ∷ []) (nibble (34 ∷ []) line).1).0)
