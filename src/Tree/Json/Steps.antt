-- ===== src/Tree/Json/Steps.antt =====
-- Single steps of the JSON decoder of src/lib/functionlib.cpp.
use uce.Base.{
  ℕ, zero, suc, ◌+◌, ◌≤◌, Bool, true, false, List, [], ◌∷◌, ◌++◌, ◌||◌, ◌≡◌, refl, ap, ◌∙◌, ◌⊎◌,
  some, Bytes, length, drop, equal, arith, append_assoc, length-append, ◌==◌, if◌then◌else◌, codes,
}
use uce.Base.Chars.{is_space, is_alnum}
use uce.Base.Maps.{IsSorted}
use uce.Compiler.Code.{peek}
use uce.Text.Escape.{json_escape, json_decode_String}
use uce.Text.Escape.Readers.{json_decode_String-json_escape}
use uce.Tree.{
  DTree, string, bool, map, Entries, no_entries, entry, listed, entries, indexed, list_entries,
  push, put, set_array,
}
use uce.Tree.Lists.{push_last}
use uce.Tree.Json.{
  json_consume_space, json_decode_while, json_decode_keyword, keyword_value, json_decode_value,
  json_decode_map, json_decode_array,
}
use uce.Tree.Json.Text.{starts_value}

pub list_entries-listed : (e : Entries) → indexed 0 (listed e) ≡ true → list_entries true e ≡ true
unfolding list_entries listed
list_entries-listed no_entries h = refl
list_entries-listed (entry k v e) h = h

pub starts_value-cons :
    (c : ℕ) (s : Bytes)
    → starts_value (c ∷ s) ≡ true
    → (is_space c ≡ false) × ((c == b']') ≡ false) × ((c == b',') ≡ false)
unfolding starts_value
starts_value-cons c s h = ground arith

pub json_consume_space-append :
    (s rest : Bytes) → starts_value s ≡ true → json_consume_space (s ++ rest) ≡ s ++ rest
unfolding json_consume_space starts_value
json_consume_space-append [] rest h = cc h
json_consume_space-append (c ∷ s) rest h = rw ((starts_value-cons c s h).0) refl

pub json_decode_value_space :
    (fuel : ℕ) (s : Bytes) → json_decode_value fuel (b' ' ∷ s) ≡ json_decode_value fuel s
unfolding json_decode_value json_consume_space
json_decode_value_space zero s = refl
json_decode_value_space (suc fuel) s = refl

-- One element of an array.
pub json_decode_array_value :
    (fuel : ℕ) (t v : DTree) (s rest : Bytes)
    → starts_value s ≡ true
    → json_decode_value fuel (s ++ rest) ≡ some (v, rest)
    → json_consume_space rest ≡ rest
    → json_decode_array (suc fuel) t (s ++ rest) ≡ json_decode_array fuel (push t v) rest
unfolding json_decode_array starts_value
json_decode_array_value fuel t v [] rest h p q = cc h
json_decode_array_value fuel t v (c ∷ s) rest h p q =
    let (_, end, comma) = starts_value-cons c s h in rw (json_decode_array, end, comma, p, q) refl

-- A comma before the next one.
pub json_decode_array_comma :
    (fuel : ℕ) (first : Bool) (t : DTree) (s : Bytes)
    → json_consume_space s ≡ s
    → json_decode_array (suc (suc fuel)) t ((if first then [] else codes ", ") ++ s)
      ≡ json_decode_array (suc (if first then suc fuel else fuel)) t s
unfolding json_decode_array json_consume_space
json_decode_array_comma fuel true t s p = refl
json_decode_array_comma fuel false t s p = ap (json_decode_array (suc fuel) t) p

pub json_decode_map_comma :
    (fuel : ℕ) (first : Bool) (e : Entries) (s : Bytes)
    → json_consume_space s ≡ s
    → json_decode_map (suc (suc fuel)) e ((if first then [] else codes ", ") ++ s)
      ≡ json_decode_map (suc (if first then suc fuel else fuel)) e s
unfolding json_decode_map json_consume_space
json_decode_map_comma fuel true e s p = refl
json_decode_map_comma fuel false e s p = ap (json_decode_map (suc fuel) e) p

pub json_decode_while_end :
    (test : ℕ → Bool) (s : Bytes) → test (peek s) ≡ false → json_decode_while test s ≡ ([], s)
unfolding json_decode_while
json_decode_while_end test [] h = refl
json_decode_while_end test (c ∷ s) h = rw h refl

pub json_decode_value_bool :
    (fuel : ℕ) (b : Bool) (rest : Bytes)
    → is_alnum (peek rest) ≡ false
    → json_decode_value (suc fuel) ((if b then codes "true" else codes "false") ++ rest)
      ≡ some (bool b, rest)
unfolding json_decode_value json_consume_space json_decode_keyword json_decode_while keyword_value
    equal
json_decode_value_bool fuel true rest h = rw (json_decode_while_end is_alnum rest h) refl
json_decode_value_bool fuel false rest h = rw (json_decode_while_end is_alnum rest h) refl

-- The two quotes.
pub quote_lem :
    (q : ℕ)
    → (q ≡ 34) ⊎ (q ≡ 39)
    → (is_space q ≡ false)
      × ((q == b'}') ≡ false)
      × ((q == b',') ≡ false)
      × ((q == 34 || q == 39) ≡ true)
unfolding is_space
quote_lem q h = ground arith

pub json_decode_value_quote :
    (fuel c : ℕ) (s : Bytes)
    → (c == 34 || c == 39) ≡ true
    → json_consume_space (c ∷ s) ≡ c ∷ s
    → json_decode_value (suc fuel) (c ∷ s)
      ≡ some (string (json_decode_String s c).0, (json_decode_String s c).1)
unfolding json_decode_value
json_decode_value_quote fuel c s quoted space =
    rw (json_decode_value, space, quoted)
      (ap
        (λ r. some (
          string (json_decode_String (drop 1 r) (peek r)).0,
          (json_decode_String (drop 1 r) (peek r)).1,
        ))
        space)

pub json_decode_map_key :
    (fuel c : ℕ) (e : Entries) (s key text : Bytes) (v : DTree) (rest : Bytes)
    → (c == b'}') ≡ false
    → (c == b',') ≡ false
    → (c == 34 || c == 39) ≡ true
    → json_decode_String s c ≡ (key, codes ": " ++ text)
    → json_decode_value fuel text ≡ some (v, rest)
    → json_consume_space rest ≡ rest
    → json_decode_map (suc fuel) e (c ∷ s) ≡ json_decode_map fuel (put key v e) rest
unfolding json_decode_map json_consume_space
json_decode_map_key fuel c e s key text v rest end comma quoted p d r =
    rw (json_decode_map, end, comma, quoted, p, p, json_decode_value_space fuel text, d, r)
      (ap (λ z. json_decode_map fuel (put z.0 v e) rest) p)

pub json_decode_value-array :
    (fuel : ℕ) (s rest : Bytes)
    → json_consume_space (s ++ b']' ∷ rest) ≡ s ++ b']' ∷ rest
    → json_decode_value (suc fuel) ((b'[' ∷ s ++ b']' ∷ []) ++ rest)
      ≡ json_decode_array fuel (map true 0 (entries [])) (s ++ b']' ∷ rest)
unfolding json_decode_value json_consume_space entries
json_decode_value-array fuel s rest p =
    ap (json_decode_array fuel set_array)
      (ap json_consume_space (append_assoc s (b']' ∷ []) rest) ∙ p)

pub json_decode_value-map :
    (fuel : ℕ) (s rest : Bytes)
    → json_consume_space (s ++ b'}' ∷ rest) ≡ s ++ b'}' ∷ rest
    → json_decode_value (suc fuel) ((b'{' ∷ s ++ b'}' ∷ []) ++ rest)
      ≡ json_decode_map fuel (entries []) (s ++ b'}' ∷ rest)
unfolding json_decode_value json_consume_space entries
json_decode_value-map fuel s rest p =
    ap (json_decode_map fuel no_entries)
      (ap json_consume_space (append_assoc s (b'}' ∷ []) rest) ∙ p)

pub json_decode_array_end :
    (fuel : ℕ) (t : DTree) (s : Bytes) → json_decode_array (suc fuel) t (b']' ∷ s) ≡ some (t, s)
unfolding json_decode_array
json_decode_array_end fuel t s = refl

pub json_decode_map_end :
    (fuel : ℕ) (e : Entries) (s : Bytes)
    → json_decode_map (suc fuel) e (b'}' ∷ s) ≡ some (map false 0 e, s)
unfolding json_decode_map
json_decode_map_end fuel e s = refl

pub field_text :
    (sep name json later rest : Bytes)
    → (sep ++ (name ++ (codes ": " ++ (json ++ later)))) ++ rest
      ≡ sep ++ (name ++ (codes ": " ++ (json ++ (later ++ rest))))
field_text sep name json later rest =
    append_assoc sep (name ++ (codes ": " ++ (json ++ later))) rest
    ∙ ap (λ x. sep ++ x)
        (append_assoc name (codes ": " ++ (json ++ later)) rest
          ∙ ap (λ x. name ++ (codes ": " ++ x)) (append_assoc json later rest))

-- Fuel for an entry is fuel for its parts.
pub entry_fuel :
    (first : Bool) (fuel v e : ℕ)
    → 2 + v + e ≤ suc (suc fuel)
    → (v ≤ (if first then suc fuel else fuel)) × (e ≤ (if first then suc fuel else fuel))
entry_fuel true fuel v e h = (omega arith, omega arith)
entry_fuel false fuel v e h = (omega arith, omega arith)

pub push_last-length :
    (before : List (Bytes × DTree)) (k : Bytes) (v : DTree) (m : List (Bytes × DTree))
    → IsSorted (before ++ (k, v) ∷ m)
    → indexed 0 (before ++ (k, v) ∷ m) ≡ true
    → push (map true (length before) (entries before)) v
      ≡ map true (length (before ++ (k, v) ∷ [])) (entries (before ++ (k, v) ∷ []))
push_last-length before k v m s i =
    rw (length-append before ((k, v) ∷ [])) (push_last before k v m s i)

module _ (q : ℕ) (quote : (q ≡ 34) ⊎ (q ≡ 39)) where
  pub json_decode_value_string :
      (fuel : ℕ) (s rest : Bytes)
      → json_decode_value (suc fuel) (json_escape s q ++ rest) ≡ some (string s, rest)
  unfolding json_consume_space json_escape
  json_decode_value_string fuel s rest =
      let (space, _, _, quoted) = quote_lem q quote in
      json_decode_value_quote fuel q (drop 1 (json_escape s q) ++ rest) quoted (rw space refl)
      ∙ ap (λ r. some (string r.0, r.1)) (json_decode_String-json_escape s rest q quote)

  pub json_escape_space :
      (s rest : Bytes) → json_consume_space (json_escape s q ++ rest) ≡ json_escape s q ++ rest
  unfolding json_consume_space json_escape
  json_escape_space s rest = rw ((quote_lem q quote).0) refl

  -- One field of a map.
  pub json_decode_map_field :
      (fuel : ℕ) (e : Entries) (key : Bytes) (v : DTree) (s rest : Bytes)
      → json_decode_value fuel (s ++ rest) ≡ some (v, rest)
      → json_consume_space rest ≡ rest
      → json_decode_map (suc fuel) e (json_escape key q ++ (codes ": " ++ (s ++ rest)))
        ≡ json_decode_map fuel (put key v e) rest
  unfolding json_escape
  json_decode_map_field fuel e key v s rest p r =
      let (_, end, comma, quoted) = quote_lem q quote in
      json_decode_map_key fuel q e (drop 1 (json_escape key q) ++ (codes ": " ++ (s ++ rest))) key
        (s ++ rest) v rest end comma quoted
        (json_decode_String-json_escape key (codes ": " ++ (s ++ rest)) q quote) p r
