-- ===== src/Compiler/Preprocess/Pieces.antt =====
-- What `compiler_preprocess_shared_unit_char_wise` makes of a piece of markup.
use uce.Base.{
  ℕ, Bool, true, false, List, [], ◌∷◌, ◌++◌, ◌≡◌, ◌≢◌, refl, sym, ap, ◌∙◌, Option, Bytes, length,
  equal, if◌then◌else◌, codes, arith, All, Lacks, ne→==, append_assoc, append-nil,
}
use uce.Compiler.Code.{code_state_is_neutral, last_byte, capture_code_until_php_close}
use uce.Compiler.Literal.{cpp_string_literal}
use uce.Compiler.Markup.{append_text_literal_output, field_output}
use uce.Compiler.Preprocess.Lines.{rounds_fuel, round-le}
use uce.Compiler.Preprocess.{
  Preprocess, prelude, at_start, finish, flush_literal, field_round, literal_round, code_round,
  round, rounds, preprocess_shared_unit_char_wise,
}

-- A document as a list of texts and fields, `<?= code ?>` with escaping and `<?: code ?>` without.
pub data Piece : Type 0 where
  text : Bytes → Piece
  field : Bool → Bytes → Piece

abbrev pub mark : Bool → ℕ
mark escape_field = if escape_field then b'=' else b':'

unfoldable pub source_of : List Piece → Bytes
source_of [] = []
source_of (text t ∷ pieces) = t ++ source_of pieces
source_of (field escape_field code ∷ pieces) =
    codes "<?" ++ mark escape_field ∷ code ++ (codes "?>" ++ source_of pieces)

-- The code for a text: nothing for the empty one, and else it is printed as one C++ literal.
abbrev pub printed_text : Bytes → Bytes
printed_text [] = []
printed_text (c ∷ t) = codes "print(" ++ (cpp_string_literal (c ∷ t) ++ codes ");")

-- The code for a field, with escaping and without.
abbrev pub printed_field : Bool → Bytes → Bytes
printed_field true code = codes "print(html_escape( " ++ (code ++ codes " )); ")
printed_field false code = codes "print( " ++ (code ++ codes " ); ")

-- The code for a document, behind the content and a text that waits to be printed.
unfoldable pub output_of : Bytes → Bytes → List Piece → Bytes
output_of parsed literal [] = parsed ++ printed_text literal
output_of parsed literal (text t ∷ pieces) = output_of parsed (literal ++ t) pieces
output_of parsed literal (field escape_field code ∷ pieces) =
    output_of ((parsed ++ printed_text literal) ++ printed_field escape_field code) [] pieces

append_text_literal_output-printed_text :
    (parsed literal : Bytes)
    → append_text_literal_output parsed literal ≡ parsed ++ printed_text literal
unfolding append_text_literal_output equal
append_text_literal_output-printed_text parsed [] = sym (append-nil parsed)
append_text_literal_output-printed_text parsed (c ∷ t) = refl

field_output-printed_field :
    (escape_field : Bool) (code : Bytes)
    → field_output escape_field code ≡ printed_field escape_field code
field_output-printed_field true code = refl
field_output-printed_field false code = refl

-- Code that is taken up to the `?>` behind it, whatever follows.
abbrev pub IsFieldCode : Bytes → Type 0
IsFieldCode code =
    (before : ℕ) (rest : Bytes)
    → capture_code_until_php_close before (code ++ (codes "?>" ++ rest)) ≡ (code, rest)

abbrev pub IsPiece : Piece → Type 0
IsPiece (text t) = Lacks b'<' t
IsPiece (field escape_field code) = IsFieldCode code

module _ (load_shared_unit : Bytes → Option (Bytes × Bytes)) where
  -- The variables at the end of the loop.
  abbrev pub looped : Preprocess → ℕ → Bytes → Preprocess
  looped p before s = rounds load_shared_unit (length s) p before s

  looped_cons :
      (p : Preprocess) (before c : ℕ) (s : Bytes) (next : Preprocess) (last : ℕ) (rest : Bytes)
      → round load_shared_unit p before c s ≡ (next, (last, rest))
      → looped p before (c ∷ s) ≡ looped next last rest
  unfolding rounds
  looped_cons p before c s next last rest e =
      ap (λ r. rounds load_shared_unit (length s) r.0 r.1.0 r.1.1) e
      ∙ rounds_fuel load_shared_unit (length s) (length rest) next last rest
          (omega (arith, ap (λ r. length r.1.1) e, round-le load_shared_unit p before c s))
          (omega arith)

  -- The loop inside of a literal.
  abbrev pub inside : Preprocess → Bytes → Preprocess
  inside p literal = record p { inside_literal = true; literal_buffer = literal }

  literal_round-plain :
      (p : Preprocess) (before : ℕ) (literal : Bytes) (c : ℕ) (s : Bytes)
      → c ≢ b'<'
      → round load_shared_unit (inside p literal) before c s
        ≡ (inside p (literal ++ c ∷ []), (c, s))
  unfolding round literal_round
  literal_round-plain p before literal c s ne = rw (ne→== c b'<' ne) refl

  looped-text :
      (p : Preprocess) (before : ℕ) (literal content rest : Bytes)
      → Lacks b'<' content
      → looped (inside p literal) before (content ++ rest)
        ≡ looped (inside p (literal ++ content)) (last_byte before content) rest
  looped-text p before literal [] rest h =
      ap (λ l. looped (inside p l) before rest) (sym (append-nil literal))
  looped-text p before literal (c ∷ content) rest (ne, h) =
      looped_cons (inside p literal) before c (content ++ rest) (inside p (literal ++ c ∷ [])) c
        (content ++ rest) (literal_round-plain p before literal c (content ++ rest) ne)
      ∙ looped-text p c (literal ++ c ∷ []) content rest h
      ∙ ap (λ l. looped (inside p l) (last_byte c content) rest)
          (append_assoc literal (c ∷ []) content)

  -- The variables in code, outside of a literal.
  abbrev pub in_code : Preprocess → Preprocess
  in_code p = record p { inside_literal = false }

  opens_literal :
      (p : Preprocess) (before c : ℕ) (s : Bytes)
      → code_state_is_neutral p.code_state ≡ true
      → round load_shared_unit (in_code p) before b'<' (b'>' ∷ s)
        ≡ (inside (record p { current_line = [] }) [], (b'>', s))
  unfolding round code_round
  opens_literal p before c s neutral = rw neutral refl

  closes_literal :
      (p : Preprocess) (before : ℕ) (literal s : Bytes)
      → round load_shared_unit (inside p literal) before b'<' (codes "/>" ++ s) ≡ (
        record p {
          inside_literal = false;
          literal_buffer = [];
          parsed_content = p.parsed_content ++ printed_text literal;
        },
        (b'>', s),
      )
  unfolding round literal_round flush_literal
  closes_literal p before literal s =
      ap
        (λ t.
          (record p { inside_literal = false; literal_buffer = []; parsed_content = t }, (b'>', s)))
        (append_text_literal_output-printed_text p.parsed_content literal)

  field_round-field :
      (p : Preprocess) (before : ℕ) (literal : Bytes) (escape_field : Bool) (code rest : Bytes)
      → IsFieldCode code
      → round load_shared_unit
          (inside p literal)
          before
          b'<'
          (b'?' ∷ mark escape_field ∷ code ++ (codes "?>" ++ rest))
        ≡ (
          inside
              (record p {
                parsed_content =
                    (p.parsed_content ++ printed_text literal) ++ printed_field escape_field code;
              })
              [],
          (b'>', rest),
        )
  unfolding round literal_round field_round flush_literal
  field_round-field p before literal true code rest h =
      rw (h b'=' rest, append_text_literal_output-printed_text p.parsed_content literal) refl
  field_round-field p before literal false code rest h =
      rw (h b':' rest, append_text_literal_output-printed_text p.parsed_content literal) refl

  looped-pieces :
      (pieces : List Piece) (p : Preprocess) (before : ℕ) (literal rest : Bytes)
      → All IsPiece pieces
      → looped (inside p literal) before (source_of pieces ++ (codes "</>" ++ rest))
        ≡ looped
            (record p {
              inside_literal = false;
              literal_buffer = [];
              parsed_content = output_of p.parsed_content literal pieces;
            })
            b'>'
            rest
  unfolding source_of output_of
  looped-pieces [] p before literal rest h =
      looped_cons (inside p literal) before b'<' (codes "/>" ++ rest) _ b'>' rest
        (closes_literal p before literal rest)
  looped-pieces (text t ∷ pieces) p before literal rest (lacks, h) =
      ap (λ u. looped (inside p literal) before u)
        (append_assoc t (source_of pieces) (codes "</>" ++ rest))
      ∙ looped-text p before literal t (source_of pieces ++ (codes "</>" ++ rest)) lacks
      ∙ looped-pieces pieces p (last_byte before t) (literal ++ t) rest h
  looped-pieces (field escape_field code ∷ pieces) p before literal rest (taken, h) =
      ap (λ u. looped (inside p literal) before (codes "<?" ++ mark escape_field ∷ u))
        (append_assoc code (codes "?>" ++ source_of pieces) (codes "</>" ++ rest))
      ∙ looped_cons (inside p literal) before b'<' _ _ b'>' _ (
          field_round-field p before literal escape_field code
            (source_of pieces ++ (codes "</>" ++ rest)) taken)
      ∙ looped-pieces pieces
          (record p {
            parsed_content =
                (p.parsed_content ++ printed_text literal) ++ printed_field escape_field code;
          })
          b'>' [] rest h

  -- In code that is neither in a quote nor in a comment, `<>`, the pieces of a document and `</>` add
  -- to the content the code that prints the texts between the fields as literals and the fields as
  -- expressions, in their order, and nothing for an empty text; then the loop goes on in code behind
  -- the `</>`.
  pub looped-document :
      (p : Preprocess) (before : ℕ) (pieces : List Piece) (rest : Bytes)
      → code_state_is_neutral p.code_state ≡ true
      → All IsPiece pieces
      → looped (in_code p) before (codes "<>" ++ (source_of pieces ++ (codes "</>" ++ rest)))
        ≡ looped
            (record p {
              inside_literal = false;
              literal_buffer = [];
              current_line = [];
              parsed_content = output_of p.parsed_content [] pieces;
            })
            b'>'
            rest
  looped-document p before pieces rest neutral h =
      let q = record p { current_line = [] } in
      looped_cons (in_code p) before b'<' _ (inside q []) b'>'
        (source_of pieces ++ (codes "</>" ++ rest)) (opens_literal p before 0 _ neutral)
      ∙ looped-pieces pieces q b'>' [] rest h

  -- A unit that is one document becomes the prelude and the code that prints the document; it
  -- declares nothing.
  pub preprocess-document :
      (sys_path setup : Bytes) (api_declarations : List Bytes) (pieces : List Piece)
      → All IsPiece pieces
      → preprocess_shared_unit_char_wise load_shared_unit sys_path setup api_declarations
          (codes "<>" ++ (source_of pieces ++ codes "</>"))
        ≡ (output_of (prelude sys_path setup) [] pieces, api_declarations)
  unfolding preprocess_shared_unit_char_wise finish rounds code_state_is_neutral
  preprocess-document sys_path setup api_declarations pieces h =
      ap finish
        (looped-document (at_start (prelude sys_path setup) api_declarations) 0 pieces [] refl h)
