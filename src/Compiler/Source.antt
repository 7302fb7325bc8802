-- ===== src/Compiler/Source.antt =====
-- `compiler_preprocess_source` of src/lib/compiler-parser.cpp, the three passes over a unit.
use mathlib.Core.List.{map}
use uce.Base.{List, [], ◌∷◌, ◌++◌, ◌≡◌, refl, ap, ap₂, ◌∙◌, Option, Bytes, codes, All}
use uce.Compiler.Entry.{rewrite_line, rewrite_named_render_syntax}
use uce.Compiler.Entry.ByLine.{rewrite_named_render_syntax-by_line}
use uce.Compiler.Fragment.{rewrite_fragment_attributes}
use uce.Compiler.Fragment.Plain.{IsPlainLine, rewrite_fragment_attributes-plain}
use uce.Compiler.Preprocess.{prelude, preprocess_shared_unit_char_wise}
use uce.Compiler.Preprocess.Pieces.{Piece, IsPiece, source_of, output_of, preprocess-document}
use uce.Text.Split.{split, join, join-split}

module _ (load_shared_unit : Bytes → Option (Bytes × Bytes)) where
  unfoldable pub preprocess_source : Bytes → Bytes → List Bytes → Bytes → Bytes × List Bytes
  preprocess_source sys_path setup api_declarations content =
      preprocess_shared_unit_char_wise load_shared_unit sys_path setup api_declarations
        (rewrite_named_render_syntax (rewrite_fragment_attributes content))

-- A line that declares no named entry point and none that can be a fragment.
abbrev pub HasNoEntry : Bytes → Type 0
HasNoEntry line = IsPlainLine line × (rewrite_line line ≡ line)

kept_lines :
    (lines : List Bytes)
    → All HasNoEntry lines
    → All IsPlainLine lines × (map rewrite_line lines ≡ lines)
kept_lines [] h = (tt, refl)
kept_lines (line ∷ lines) ((plain, kept), h) =
    let (plains, keeps) = kept_lines lines h in ((plain, plains), ap₂ (λ l ls. l ∷ ls) kept keeps)

-- A content without entry points reaches the third pass as it is.
rewrites_kept :
    (content : Bytes)
    → All HasNoEntry (split content (codes "\n"))
    → rewrite_named_render_syntax (rewrite_fragment_attributes content) ≡ content
rewrites_kept content h =
    let (plains, keeps) = kept_lines (split content (codes "\n")) h in
    ap rewrite_named_render_syntax (rewrite_fragment_attributes-plain content plains)
    ∙ rewrite_named_render_syntax-by_line content
    ∙ ap (λ ls. join ls (codes "\n")) keeps
    ∙ join-split content (codes "\n")

module _ (load_shared_unit : Bytes → Option (Bytes × Bytes)) where
  -- A unit that is one document, on whose lines no entry point is declared, becomes through all three
  -- passes the prelude and the code that prints the document: each text between two fields as one
  -- literal and each field as an expression, in their order. It declares nothing.
  pub preprocess_source-document :
      (sys_path setup : Bytes) (api_declarations : List Bytes) (pieces : List Piece)
      → All IsPiece pieces
      → All HasNoEntry (split (codes "<>" ++ (source_of pieces ++ codes "</>")) (codes "\n"))
      → preprocess_source load_shared_unit sys_path setup api_declarations
          (codes "<>" ++ (source_of pieces ++ codes "</>"))
        ≡ (output_of (prelude sys_path setup) [] pieces, api_declarations)
  unfolding preprocess_source
  preprocess_source-document sys_path setup api_declarations pieces h lines =
      ap (preprocess_shared_unit_char_wise load_shared_unit sys_path setup api_declarations)
        (rewrites_kept _ lines)
      ∙ preprocess-document load_shared_unit sys_path setup api_declarations pieces h
