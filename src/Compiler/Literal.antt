-- ===== src/Compiler/Literal.antt =====
-- The string literals that src/lib/compiler-parser.cpp writes into C++ source, and `to_hex` of
-- src/lib/functionlib.h.
pub mod RawString
use uce.Base.{
  ℕ, zero, suc, ◌*◌, ◌/◌, ◌%◌, ◌^◌, Bool, true, false, List, [], ◌∷◌, ◌++◌, ◌||◌, not, Option, none,
  some, Bytes, equal, find, bit_xor, if◌then◌else◌, codes,
}
use uce.Text.Escape.{json_escape}
use uce.Uri.Percent.{hex_digit}

-- The digits of a number, the highest of so many first.
unfoldable pub to_hex : ℕ → ℕ → Bytes
unfolding hex_digit
to_hex w zero = []
to_hex w (suc hex_len) = hex_digit (w / 16 ^ hex_len % 16) ∷ to_hex w hex_len

unfoldable pub content_hash : ℕ → Bytes → ℕ
content_hash hash [] = hash
content_hash hash (c ∷ content) = content_hash (bit_xor hash c * 1099511628211 % 2 ^ 64) content

-- The delimiters with the numbers from the second argument on.
unfoldable pub numbered : ℕ → ℕ → ℕ → List Bytes
numbered zero i hash = []
numbered (suc n) i hash =
    (codes "UCE" ++ to_hex (bit_xor hash (i * 0x9E3779B97F4A7C15 % 2 ^ 64)) 12)
    ∷ numbered n (suc i) hash

unfoldable pub candidates : Bytes → List Bytes
unfolding numbered content_hash
candidates content =
    []
    ∷ codes "UCE"
    ∷ codes "UCE_LITERAL"
    ∷ codes "uce_literal_0"
    ∷ codes "uce_literal_1"
    ∷ numbered 64 0 (content_hash 1469598103934665603 content)

abbrev pub terminator : Bytes → Bytes
terminator delimiter = b')' ∷ delimiter ++ 34 ∷ []

unfoldable pub has_none : Option ℕ → Bool
has_none none = true
has_none (some i) = false

-- The first of the delimiters whose terminator the content does not have.
unfoldable pub first_free : Bytes → List Bytes → Bytes
unfolding has_none
first_free content [] = []
first_free content (delimiter ∷ delimiters) =
    if has_none (find (terminator delimiter) content)
    then delimiter
    else first_free content delimiters

unfoldable pub cpp_raw_string_delimiter : Bytes → Bytes
cpp_raw_string_delimiter content = first_free content (candidates content)

abbrev pub raw_string : Bytes → Bytes → Bytes
raw_string delimiter content = b'R' ∷ 34 ∷ delimiter ++ (b'(' ∷ content ++ terminator delimiter)

unfoldable pub cpp_string_literal : Bytes → Bytes
cpp_string_literal content =
    let delimiter = cpp_raw_string_delimiter content in
    if not (equal delimiter []) || has_none (find (terminator []) content)
    then raw_string delimiter content
    else json_escape content 34
