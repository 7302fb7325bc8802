-- ===== src/Compiler/Literal/RawString.antt =====
-- A C++ raw string is read, apart from src/lib/compiler-parser.cpp, as the language defines it, and the
-- literals of `compiler_cpp_string_literal` are read back.
use mathlib.Core.Option
use uce.Base.{
  ℕ, zero, suc, ◌*◌, ◌/◌, ◌%◌, ◌^◌, ◌<◌, Bool, true, false, List, [], ◌∷◌, ◌++◌, ◌≡◌, refl, ap, ◌∙◌,
  ◌⊎◌, inl, inr, ◌&&◌, ◌||◌, not, Option, none, some, Bytes, length, take, drop, equal, starts,
  starts_append, find, ◌==◌, ltb, bit_xor, if◌then◌else◌, arith, All, Lacks, Option-cases,
  append_assoc, take-length_append, drop-length_append, find_byte,
}
use uce.Compiler.Literal.{
  to_hex, numbered, candidates, terminator, has_none, first_free, cpp_raw_string_delimiter,
  raw_string, cpp_string_literal,
}
use uce.Text.Escape.{json_escape}
use uce.Uri.Percent.{hex_digit}

-- No parenthesis, backslash, quote, space or control character.
unfoldable delimiter_char : ℕ → Bool
delimiter_char c = ltb 32 c && not (c == b'(') && not (c == b')') && not (c == 92) && not (c == 34)

unfoldable delimiter_chars : Bytes → Bool
delimiter_chars [] = true
delimiter_chars (c ∷ d) = delimiter_char c && delimiter_chars d

-- The string that a raw string literal at the front stands for, and what follows the literal. The
-- delimiter has at most 16 characters.
unfoldable pub read_raw_string : Bytes → Option (Bytes × Bytes)
unfolding delimiter_chars delimiter_char
read_raw_string (r ∷ quote ∷ s) =
    if r == b'R' && quote == 34
    then elim (find (b'(' ∷ []) s) [
      | none ↦ none
      | some i ↦
          if delimiter_chars (take i s) && ltb i 17
          then elim (find (terminator (take i s)) (drop (suc i) s)) [
            | none ↦ none
            | some j ↦ some (
              take j (drop (suc i) s),
              drop (length (terminator (take i s))) (drop j (drop (suc i) s)),
            )
          ]
          else none
    ]
    else none
read_raw_string _ = none

-- What a delimiter of the preprocessor is.
abbrev IsDelimiter : Bytes → Type 0
IsDelimiter d = (delimiter_chars d ≡ true) × (length d < 17)

starts_in : (d s r : Bytes) → Lacks b')' d → starts d (s ++ b')' ∷ r) ≡ true → starts d s ≡ true
unfolding starts
starts_in [] s r h e = refl
starts_in (x ∷ d) [] r (ne, h) e = ground arith
starts_in (x ∷ d) (c ∷ s) r (ne, h) e = ground (arith, starts_in d s r h)

none_parts :
    (b : Bool) (o : Option ℕ)
    → (if b then some 0 else Option.map suc o) ≡ none
    → (b ≡ false) × (o ≡ none)
none_parts true o e = cc
none_parts false none e = (refl, refl)
none_parts false (some i) e = cc

not_starts :
    (d : Bytes) (c : ℕ) (s r : Bytes)
    → Lacks b')' d
    → starts (b')' ∷ d) (c ∷ s) ≡ false
    → starts (b')' ∷ d) (c ∷ s ++ b')' ∷ r) ≡ false
unfolding starts
not_starts d c s r h e = ground (arith, starts_in d s r h)

-- A terminator that the content does not have is found right behind the content.
find_behind :
    (d s r : Bytes)
    → Lacks b')' d
    → find (b')' ∷ d) s ≡ none
    → find (b')' ∷ d) (s ++ (b')' ∷ d ++ r)) ≡ some (length s)
unfolding find
find_behind d [] r h e = rw (starts_append (b')' ∷ d) r) refl
find_behind d (c ∷ s) r h e =
    let (not_here, later) = none_parts (starts (b')' ∷ d) (c ∷ s)) (find (b')' ∷ d) s) e in
    rw (not_starts d c s (d ++ r) h not_here, find_behind d s r h later) refl

delimiter_chars-Lacks :
    (d : Bytes) → delimiter_chars d ≡ true → Lacks b'(' d × Lacks b')' (d ++ 34 ∷ [])
unfolding delimiter_chars delimiter_char
delimiter_chars-Lacks [] e = (tt, omega arith)
delimiter_chars-Lacks (c ∷ d) e = ground (arith, delimiter_chars-Lacks d)

drop-past_suc : (p : Bytes) (b : ℕ) (r : Bytes) → drop (suc (length p)) (p ++ b ∷ r) ≡ r
drop-past_suc [] b r = refl
drop-past_suc (x ∷ p) b r = drop-past_suc p b r

raw_string_behind :
    (d content rest : Bytes)
    → raw_string d content ++ rest ≡ b'R' ∷ 34 ∷ d ++ (b'(' ∷ content ++ (terminator d ++ rest))
raw_string_behind d content rest =
    ap (λ x. b'R' ∷ 34 ∷ x)
      (append_assoc d (b'(' ∷ content ++ terminator d) rest
        ∙ ap (λ x. d ++ b'(' ∷ x) (append_assoc content (terminator d) rest))

read_behind :
    (d content rest : Bytes)
    → IsDelimiter d
    → find (terminator d) content ≡ none
    → read_raw_string (b'R' ∷ 34 ∷ d ++ (b'(' ∷ content ++ (terminator d ++ rest)))
      ≡ some (content, rest)
unfolding read_raw_string
read_behind d content rest (chars, short) lacks =
    let (left, right) = delimiter_chars-Lacks d chars in
    let few : ltb (length d) 17 ≡ true = ground arith in
    rw
      (
        find_byte b'(' d (content ++ (terminator d ++ rest)) left,
        take-length_append d (b'(' ∷ content ++ (terminator d ++ rest)),
        chars,
        few,
        drop-past_suc d b'(' (content ++ (terminator d ++ rest)),
        find_behind (d ++ 34 ∷ []) content rest right lacks,
        take-length_append d (b'(' ∷ content ++ (terminator d ++ rest)),
        drop-past_suc d b'(' (content ++ (terminator d ++ rest)),
        take-length_append content (terminator d ++ rest),
        drop-length_append content (terminator d ++ rest),
        drop-length_append (terminator d) rest,
      )
      refl

read_raw_string-raw_string :
    (d content rest : Bytes)
    → IsDelimiter d
    → find (terminator d) content ≡ none
    → read_raw_string (raw_string d content ++ rest) ≡ some (content, rest)
read_raw_string-raw_string d content rest legal lacks =
    ap read_raw_string (raw_string_behind d content rest) ∙ read_behind d content rest legal lacks

hex_digit-delimiter_char : (n : ℕ) → delimiter_char (hex_digit (n % 16)) ≡ true
unfolding delimiter_char hex_digit
hex_digit-delimiter_char n = ground arith

to_hex-delimiter_chars : (w n : ℕ) → delimiter_chars (to_hex w n) ≡ true
unfolding to_hex delimiter_chars
to_hex-delimiter_chars w zero = refl
to_hex-delimiter_chars w (suc n) =
    rw (hex_digit-delimiter_char (w / 16 ^ n), to_hex-delimiter_chars w n) refl

length-to_hex : (w n : ℕ) → length (to_hex w n) ≡ n
unfolding to_hex
length-to_hex w zero = refl
length-to_hex w (suc n) = ap suc (length-to_hex w n)

numbered-IsDelimiter : (n i hash : ℕ) → All IsDelimiter (numbered n i hash)
unfolding numbered
numbered-IsDelimiter zero i hash = tt
numbered-IsDelimiter (suc n) i hash = (
  (
    unfold delimiter_chars delimiter_char in to_hex-delimiter_chars _ 12,
    rw (length-to_hex (bit_xor hash (i * 0x9E3779B97F4A7C15 % 2 ^ 64)) 12) (omega arith),
  ),
  numbered-IsDelimiter n (suc i) hash,
)

candidates-IsDelimiter : (content : Bytes) → All IsDelimiter (candidates content)
unfolding candidates delimiter_chars delimiter_char
candidates-IsDelimiter content = (
  (refl, omega arith),
  (
    (refl, omega arith),
    (
      (refl, omega arith),
      ((refl, omega arith), ((refl, omega arith), numbered-IsDelimiter 64 0 _)),
    ),
  ),
)

first_free_here :
    (content d : Bytes) (ds : List Bytes)
    → find (terminator d) content ≡ none
    → first_free content (d ∷ ds) ≡ d
unfolding first_free has_none
first_free_here content d ds e = rw e refl

first_free_later :
    (content d : Bytes) (ds : List Bytes) (i : ℕ)
    → find (terminator d) content ≡ some i
    → first_free content (d ∷ ds) ≡ first_free content ds
unfolding first_free has_none
first_free_later content d ds i e = rw e refl

-- The content has the terminators of all the delimiters.
abbrev pub HasAll : Bytes → List Bytes → Type 0
HasAll content = All (λ d. (i : ℕ) × (find (terminator d) content ≡ some i))

-- The two outcomes of the search for a delimiter.
first_free_cases :
    (content : Bytes) (ds : List Bytes)
    → All IsDelimiter ds
    → (IsDelimiter (first_free content ds)
        × (find (terminator (first_free content ds)) content ≡ none))
      ⊎ (HasAll content ds × (first_free content ds ≡ []))
first_free_cases content [] _ = inr (tt, unfold first_free in refl)
first_free_cases content (d ∷ ds) (legal, later) =
    elim (Option-cases (find (terminator d) content)) [
      | inl e ↦ inl (rw (first_free_here content d ds e) (legal, e))
      | inr (i, e) ↦ elim (first_free_cases content ds later) [
        | inl found ↦ inl (rw (first_free_later content d ds i e) found)
        | inr (all, nothing) ↦ inr (((i, e), all), first_free_later content d ds i e ∙ nothing)
      ]
    ]

written_raw :
    (content d : Bytes)
    → find (terminator d) content ≡ none
    → (if not (equal d []) || has_none (find (terminator []) content)
        then raw_string d content
        else json_escape content 34)
      ≡ raw_string d content
unfolding equal has_none
written_raw content [] e = rw e refl
written_raw content (c ∷ d) e = refl

written_json :
    (content d : Bytes)
    → d ≡ []
    → HasAll content (candidates content)
    → (if not (equal d []) || has_none (find (terminator []) content)
        then raw_string d content
        else json_escape content 34)
      ≡ json_escape content 34
unfolding equal has_none candidates
written_json content d empty ((i, e), _) = rw (empty, e) refl

-- Every literal that `compiler_cpp_string_literal` makes is a C++ raw string with a delimiter that
-- the language allows, and reading it gives the content back and leaves what follows it, whatever
-- that is; or the content has the terminators of all 69 candidates, and the literal is the JSON form.
pub read_raw_string-cpp_string_literal :
    (content rest : Bytes)
    → (read_raw_string (cpp_string_literal content ++ rest) ≡ some (content, rest))
      ⊎ (HasAll content (candidates content)
          × (cpp_string_literal content ≡ json_escape content 34))
unfolding cpp_string_literal cpp_raw_string_delimiter
read_raw_string-cpp_string_literal content rest =
    elim (first_free_cases content (candidates content) (candidates-IsDelimiter content)) [
      | inl (legal, e) ↦ inl (
          ap (λ t. read_raw_string (t ++ rest)) (written_raw content _ e)
          ∙ read_raw_string-raw_string _ content rest legal e)
      | inr (all, e) ↦ inr (all, written_json content _ e all)
    ]
