-- ===== src/Tree/Json.antt =====
-- `json_encode` and `json_decode` of src/lib/functionlib.cpp on trees.
pub mod Endless
pub mod Cost
pub mod Normal
pub mod RoundTrip
pub mod Steps
pub mod Text
use uce.Base.{
  ℕ, zero, suc, ◌+◌, ◌*◌, Bool, true, false, List, [], ◌∷◌, ◌++◌, ◌||◌, Option, none, some, Bytes,
  length, drop, equal, ◌==◌, if◌then◌else◌, codes,
}
use uce.Base.Chars.{is_space, is_digit, is_alnum}
use uce.Base.Maps.{lookup}
use uce.Compiler.Code.{peek}
use uce.Text.Escape.{json_escape, json_decode_String}
use uce.Tree.{
  DTree, string, float, bool, map, Entries, no_entries, entry, listed, put, index_key, is_list,
  push, set_array,
}

unfoldable pub or_null : Option Bytes → Bytes
or_null none = codes "null"
or_null (some json) = json

-- So many items from an index on.
unfoldable pub json_items : ℕ → ℕ → List (Bytes × Bytes) → Bytes
unfolding or_null index_key
json_items zero i m = []
json_items (suc n) i m =
    (if i == 0 then [] else codes ", ")
    ++ (or_null (lookup (index_key i) m) ++ json_items n (suc i) m)

unfoldable pub json_fields : ℕ → Bool → List (Bytes × Bytes) → Bytes
json_fields quote_char first [] = []
json_fields quote_char first ((key, json) ∷ m) =
    (if first then [] else codes ", ")
    ++ (json_escape key quote_char ++ (codes ": " ++ (json ++ json_fields quote_char false m)))

-- A number is printed by a parameter, `std::to_string` of a `double`.
module _ (to_string : ℕ → Bytes) (quote_char : ℕ) where
  unfoldable mutual
    pub json_encode : DTree → Bytes
    json_encode (string s) = json_escape s quote_char
    json_encode (float f) = to_string f
    json_encode (bool b) = if b then codes "true" else codes "false"
    json_encode (map list_mode array_index e) =
        let m = encoded e in
        if is_list (map list_mode array_index e)
        then b'[' ∷ json_items (length m) 0 m ++ b']' ∷ []
        else b'{' ∷ json_fields quote_char true m ++ b'}' ∷ []

    pub encoded : Entries → List (Bytes × Bytes)
    encoded no_entries = []
    encoded (entry k v e) = (k, json_encode v) ∷ encoded e

unfoldable pub json_consume_space : Bytes → Bytes
unfolding is_space
json_consume_space [] = []
json_consume_space (c ∷ s) = let later = json_consume_space s in if is_space c then later else c ∷ s

-- The longest text at the front of characters that satisfy a test, and what follows.
unfoldable pub json_decode_while : (ℕ → Bool) → Bytes → Bytes × Bytes
json_decode_while test [] = ([], [])
json_decode_while test (c ∷ s) =
    let (result, rest) = json_decode_while test s in
    if test c then (c ∷ result, rest) else ([], c ∷ s)

unfoldable pub json_decode_keyword : Bytes → Bytes × Bytes
unfolding json_consume_space json_decode_while is_alnum
json_decode_keyword s = json_decode_while is_alnum (json_consume_space s)

unfoldable pub json_decode_number : Bytes → Bytes × Bytes
unfolding json_consume_space json_decode_while is_digit
json_decode_number s = json_decode_while (λ c. is_digit c || c == b'.') (json_consume_space s)

unfoldable pub keyword_value : Bytes → DTree
keyword_value value =
    if equal value (codes "true")
    then bool true
    else if equal value (codes "false")
    then bool false
    else string []

-- The value, and what follows it. Every call takes a unit of fuel, and `none` is a run that goes on
-- beyond it. Past the end, `s[i]` is the null byte.
unfoldable mutual
  unfolding json_consume_space json_decode_keyword json_decode_number keyword_value put push
      is_digit

  pub json_decode_value : ℕ → Bytes → Option (DTree × Bytes)
  json_decode_value zero t = none
  json_decode_value (suc fuel) t =
      let s = json_consume_space t in
      let c = peek s in
      elim (c == 34 || c == 39) [
        | true ↦ let (text, rest) = json_decode_String (drop 1 s) c in some (string text, rest)
        | false ↦ elim (is_digit c) [
          | true ↦ let (text, rest) = json_decode_number s in some (string text, rest)
          | false ↦ elim (c == b'{') [
            | true ↦ json_decode_map fuel no_entries (json_consume_space (drop 1 s))
            | false ↦ elim (c == b'[') [
              | true ↦ json_decode_array fuel set_array (json_consume_space (drop 1 s))
              | false ↦
                  let (value, rest) = json_decode_keyword s in some (keyword_value value, rest)
            ]
          ]
        ]
      ]

  pub json_decode_map : ℕ → Entries → Bytes → Option (DTree × Bytes)
  json_decode_map zero e s = none
  json_decode_map (suc fuel) e [] = some (map false 0 e, [])
  json_decode_map (suc fuel) e (c ∷ s) = elim (c == b'}') [
    | true ↦ some (map false 0 e, s)
    | false ↦ elim (c == b',') [
      | true ↦ json_decode_map fuel e (json_consume_space s)
      | false ↦ elim (c == 34 || c == 39) [
        | true ↦
            let (key, behind) = json_decode_String s c in
            let r = json_consume_space behind in
            elim (peek r == b':') [
              | true ↦ elim (json_decode_value fuel (drop 1 r)) [
                | none ↦ none
                | some (v, rest) ↦ json_decode_map fuel (put key v e) (json_consume_space rest)
              ]
              | false ↦ some (map false 0 e, r)
            ]
        | false ↦ some (map false 0 e, c ∷ s)
      ]
    ]
  ]

  pub json_decode_array : ℕ → DTree → Bytes → Option (DTree × Bytes)
  json_decode_array zero t s = none
  json_decode_array (suc fuel) t [] = some (t, [])
  json_decode_array (suc fuel) t (c ∷ s) = elim (c == b']') [
    | true ↦ some (t, s)
    | false ↦ elim (c == b',') [
      | true ↦ json_decode_array fuel t (json_consume_space s)
      | false ↦ elim (json_decode_value fuel (c ∷ s)) [
        | none ↦ none
        | some (v, rest) ↦ json_decode_array fuel (push t v) (json_consume_space rest)
      ]
    ]
  ]

-- The text that follows the value is dropped.
unfoldable pub json_decode : Bytes → Option DTree
json_decode s = elim (json_decode_value (2 * length s + 1) s) [
  | none ↦ none
  | some (t, rest) ↦ some t
]
