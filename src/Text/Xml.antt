-- ===== src/Text/Xml.antt =====
-- `xml_escape_text` and `xml_escape_attr` of src/lib/functionlib.cpp.
use uce.Base.{
  ℕ, zero, suc, Bool, true, false, [], ◌∷◌, ◌++◌, ◌≡◌, refl, ap, ◌∙◌, Option, none, some, Bytes,
  ◌==◌, ◌≤◌, ◌⊎◌, All, ltb, not, if◌then◌else◌, codes, arith, starts, ◌&&◌, ◌||◌,
}
use mathlib.Core.Option

xml_text_char : ℕ → Bytes
xml_text_char c =
    if c == b'&'
    then codes "&amp;"
    else if c == b'<'
    then codes "&lt;"
    else if c == b'>'
    then codes "&gt;"
    else c ∷ []

unfoldable pub xml_escape_text : Bytes → Bytes
unfolding xml_text_char
xml_escape_text [] = []
xml_escape_text (c ∷ s) = xml_text_char c ++ xml_escape_text s

xml_attr_char : ℕ → Bytes
xml_attr_char c =
    if c == b'&'
    then codes "&amp;"
    else if c == b'<'
    then codes "&lt;"
    else if c == b'>'
    then codes "&gt;"
    else if c == 34
    then codes "&quot;"
    else if c == 39
    then codes "&apos;"
    else c ∷ []

unfoldable pub xml_escape_attr : Bytes → Bytes
unfolding xml_attr_char
xml_escape_attr [] = []
xml_escape_attr (c ∷ s) = xml_attr_char c ++ xml_escape_attr s

-- A predefined entity behind `&`: the character, and the length of its name with the semicolon.
entity : Bytes → Option (ℕ × ℕ)
entity s =
    if starts (codes "amp;") s
    then some (b'&', 4)
    else if starts (codes "lt;") s
    then some (b'<', 3)
    else if starts (codes "gt;") s
    then some (b'>', 3)
    else if starts (codes "quot;") s
    then some (34, 5)
    else if starts (codes "apos;") s
    then some (39, 5)
    else none

-- The reading of text by XML up to the next markup, in an attribute up to a quote of either kind. It
-- fails at these, at the control characters that XML forbids, and at each white space that XML exchanges:
-- a carriage return, and in an attribute also a tab and a line feed.
unfoldable pub parsed_text : Bool → ℕ → Bytes → Option Bytes
unfolding entity
parsed_text in_attr taken [] = some []
parsed_text in_attr (suc taken) (c ∷ s) = parsed_text in_attr taken s
parsed_text in_attr zero (c ∷ s) = elim (c == b'&') [
  | true ↦ elim (entity s) [
    | none ↦ none
    | some (d, taken) ↦ Option.map (◌∷◌ d) (parsed_text in_attr taken s)
  ]
  | false ↦
      if c == b'<' || c == b'>' || in_attr && (c == 34 || c == 39)
      then none
      else if ltb c 32 && (in_attr || not (c == 9 || c == 10))
      then none
      else Option.map (◌∷◌ c) (parsed_text in_attr 0 s)
]

-- The characters that XML keeps in text, and those that it keeps in an attribute.
abbrev pub IsTextChar : ℕ → Type 0
IsTextChar c = (32 ≤ c) ⊎ (c ≡ 9) ⊎ (c ≡ 10)

abbrev pub IsAttrChar : ℕ → Type 0
IsAttrChar c = 32 ≤ c

parsed_text-xml_text_char :
    (c : ℕ) (s : Bytes)
    → IsTextChar c
    → parsed_text false 0 (xml_text_char c ++ s) ≡ Option.map (◌∷◌ c) (parsed_text false 0 s)
unfolding parsed_text xml_text_char entity starts
parsed_text-xml_text_char c s h = ground arith

parsed_text-xml_attr_char :
    (c : ℕ) (s : Bytes)
    → IsAttrChar c
    → parsed_text true 0 (xml_attr_char c ++ s) ≡ Option.map (◌∷◌ c) (parsed_text true 0 s)
unfolding parsed_text xml_attr_char entity starts
parsed_text-xml_attr_char c s h = ground arith

parsed_text-xml_escape_text :
    (s : Bytes) → All IsTextChar s → parsed_text false 0 (xml_escape_text s) ≡ some s
unfolding xml_escape_text parsed_text
parsed_text-xml_escape_text [] h = refl
parsed_text-xml_escape_text (c ∷ s) (hc, h) =
    parsed_text-xml_text_char c (xml_escape_text s) hc
    ∙ ap (Option.map (◌∷◌ c)) (parsed_text-xml_escape_text s h)

parsed_text-xml_escape_attr :
    (s : Bytes) → All IsAttrChar s → parsed_text true 0 (xml_escape_attr s) ≡ some s
unfolding xml_escape_attr parsed_text
parsed_text-xml_escape_attr [] h = refl
parsed_text-xml_escape_attr (c ∷ s) (hc, h) =
    parsed_text-xml_attr_char c (xml_escape_attr s) hc
    ∙ ap (Option.map (◌∷◌ c)) (parsed_text-xml_escape_attr s h)

-- The escaped form of a text without control characters but tabs and line feeds is read back by a
-- reader that takes from XML text only what XML leaves as it is; the form for an attribute, of a text
-- without any control character below 32, by such a reader of attributes with quotes of either kind. So
-- the forms hold no markup, and that for an attribute no quote.
pub xml_escape_lem :
    (s attr : Bytes)
    → All IsTextChar s
    → All IsAttrChar attr
    → (parsed_text false 0 (xml_escape_text s) ≡ some s)
      × (parsed_text true 0 (xml_escape_attr attr) ≡ some attr)
xml_escape_lem s attr h k = (parsed_text-xml_escape_text s h, parsed_text-xml_escape_attr attr k)
