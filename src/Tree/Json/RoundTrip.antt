-- ===== src/Tree/Json/RoundTrip.antt =====
-- `json_decode` of src/lib/functionlib.cpp on what `json_encode` makes.
use uce.Base.{
  ℕ, zero, suc, ◌+◌, ◌*◌, ◌≤◌, Bool, true, false, List, [], ◌∷◌, ◌++◌, ◌≡◌, refl, ap, ap₂, sym, ◌∙◌,
  ◌⊎◌, some, Bytes, length, arith, append_assoc, append-nil, length-append, if◌then◌else◌, codes,
}
use uce.Base.Chars.{is_alnum}
use uce.Base.Maps.{IsSorted}
use uce.Compiler.Code.{peek}
use uce.Text.Escape.{json_escape}
use uce.Tree.{
  DTree, string, float, bool, map, Entries, no_entries, entry, listed, entries, entries-listed,
  indexed,
}
use uce.Tree.Lists.{put_last}
use uce.Tree.Json.{
  json_fields, json_encode, encoded, json_decode_value, json_decode_map, json_decode_array,
  json_decode,
}
use uce.Tree.Json.Text.{starts_value, items_text}
use uce.Tree.Json.Steps.{
  json_consume_space-append, json_decode_array_value, json_decode_array_comma,
  json_decode_map_comma, json_decode_value_bool, json_decode_value-array, json_decode_value-map,
  json_decode_array_end, json_decode_map_end, field_text, entry_fuel, push_last-length,
  json_decode_value_string, json_escape_space, json_decode_map_field,
}
use uce.Tree.Json.Normal.{
  IsKind, IsNormal, AllNormal, cost, cost_entries, starts_value-json_encode, items_text_end,
  json_fields_end, items_text_start, json_encode-list, json_encode-map, json_fields_start,
}
use uce.Tree.Json.Cost.{cost-json_encode}

module _ (to_string : ℕ → Bytes) (quote_char : ℕ)
    (quote : (quote_char ≡ 34) ⊎ (quote_char ≡ 39)) where
  -- Entry by entry, on enough fuel.
  mutual
    unfolding IsNormal IsKind cost items_text json_fields encoded listed

    value_back :
        (t : DTree) (fuel : ℕ) (rest : Bytes)
        → IsNormal t
        → cost t ≤ fuel
        → is_alnum (peek rest) ≡ false
        → json_decode_value fuel (json_encode to_string quote_char t ++ rest) ≡ some (t, rest)
    value_back (float f) fuel rest w h a = elim w [ ]
    value_back (string s) zero rest w h a = ground arith
    value_back (bool b) zero rest w h a = ground arith
    value_back (map b n e) zero rest w h a = ground arith
    value_back (string s) (suc fuel) rest w h a =
        json_decode_value_string quote_char quote fuel s rest
    value_back (bool b) (suc fuel) rest w h a = json_decode_value_bool fuel b rest a
    value_back (map true n e) (suc fuel) rest (w, s, (count, i)) h a =
        ap (λ x. json_decode_value (suc fuel) (x ++ rest))
          (json_encode-list to_string quote_char quote n e s i)
        ∙ json_decode_value-array fuel (items_text to_string quote_char true e) rest
            (items_text_start to_string quote_char quote true e rest w)
        ∙ items_back e fuel true (listed e) [] rest refl w s i (omega arith)
        ∙ ap₂ (λ k x. some (map true k x, rest)) (sym count) (entries-listed e)
    value_back (map false n e) (suc fuel) rest (w, s, (count, i)) h a =
        ap (λ x. json_decode_value (suc fuel) (x ++ rest))
          (json_encode-map to_string quote_char quote n e i)
        ∙ json_decode_value-map fuel (json_fields quote_char true (encoded to_string quote_char e))
            rest (json_fields_start to_string quote_char quote true e rest)
        ∙ fields_back e fuel true (listed e) [] rest refl w s (omega arith)
        ∙ ap₂ (λ k x. some (map false k x, rest)) (sym count) (entries-listed e)

    items_back :
        (e : Entries) (fuel : ℕ) (first : Bool) (m before : List (Bytes × DTree)) (rest : Bytes)
        → m ≡ before ++ listed e
        → AllNormal e
        → IsSorted m
        → indexed 0 m ≡ true
        → cost_entries e ≤ fuel
        → json_decode_array fuel
            (map true (length before) (entries before))
            (items_text to_string quote_char first e ++ b']' ∷ rest)
          ≡ some (map true (length m) (entries m), rest)
    items_back no_entries zero first m before rest p w s i h = ground arith
    items_back no_entries (suc fuel) first m before rest p w s i h =
        json_decode_array_end fuel (map true (length before) (entries before)) rest
        ∙ ap (λ l. some (map true (length l) (entries l), rest)) (sym (p ∙ append-nil before))
    items_back (entry k v e) zero first m before rest p w s i h = ground arith
    items_back (entry k v e) (suc zero) first m before rest p w s i h = ground arith
    items_back (entry k v e) (suc (suc fuel)) first m before rest p (wv, w) s i h =
        let sep : Bytes = if first then [] else codes ", " in
        let f1 : ℕ = if first then suc fuel else fuel in
        let t : DTree = map true (length before) (entries before) in
        let json : Bytes = json_encode to_string quote_char v in
        let later : Bytes = items_text to_string quote_char false e in
        let text : Bytes = later ++ b']' ∷ rest in
        let start : starts_value json ≡ true =
          starts_value-json_encode to_string quote_char quote v wv in
        let (space, alnum) = items_text_end to_string quote_char quote e rest in
        let (fuel_v, fuel_e) = entry_fuel first fuel (cost v) (cost_entries e) h in
        ap (json_decode_array (suc (suc fuel)) t) (
          append_assoc sep (json ++ later) (b']' ∷ rest)
          ∙ ap (λ x. sep ++ x) (append_assoc json later (b']' ∷ rest)))
        ∙ json_decode_array_comma fuel first t (json ++ text)
            (json_consume_space-append json text start)
        ∙ json_decode_array_value f1 t v json text start (value_back v f1 text wv fuel_v alnum)
            space
        ∙ ap (λ u. json_decode_array f1 u text)
            (push_last-length before k v (listed e) (rw (← p) s) (rw (← p) i))
        ∙ items_back e f1 false m (before ++ (k, v) ∷ []) rest
            (p ∙ sym (append_assoc before ((k, v) ∷ []) (listed e))) w s i fuel_e

    fields_back :
        (e : Entries) (fuel : ℕ) (first : Bool) (m before : List (Bytes × DTree)) (rest : Bytes)
        → m ≡ before ++ listed e
        → AllNormal e
        → IsSorted m
        → cost_entries e ≤ fuel
        → json_decode_map fuel
            (entries before)
            (json_fields quote_char first (encoded to_string quote_char e) ++ b'}' ∷ rest)
          ≡ some (map false 0 (entries m), rest)
    fields_back no_entries zero first m before rest p w s h = ground arith
    fields_back no_entries (suc fuel) first m before rest p w s h =
        json_decode_map_end fuel (entries before) rest
        ∙ ap (λ l. some (map false 0 (entries l), rest)) (sym (p ∙ append-nil before))
    fields_back (entry k v e) zero first m before rest p w s h = ground arith
    fields_back (entry k v e) (suc zero) first m before rest p w s h = ground arith
    fields_back (entry k v e) (suc (suc fuel)) first m before rest p (wv, w) s h =
        let sep : Bytes = if first then [] else codes ", " in
        let f1 : ℕ = if first then suc fuel else fuel in
        let name : Bytes = json_escape k quote_char in
        let json : Bytes = json_encode to_string quote_char v in
        let later : Bytes = json_fields quote_char false (encoded to_string quote_char e) in
        let text : Bytes = later ++ b'}' ∷ rest in
        let (space, alnum) = json_fields_end to_string quote_char quote e rest in
        let (fuel_v, fuel_e) = entry_fuel first fuel (cost v) (cost_entries e) h in
        ap (json_decode_map (suc (suc fuel)) (entries before))
          (field_text sep name json later (b'}' ∷ rest))
        ∙ json_decode_map_comma fuel first (entries before) (name ++ (codes ": " ++ (json ++ text)))
            (json_escape_space quote_char quote k (codes ": " ++ (json ++ text)))
        ∙ json_decode_map_field quote_char quote f1 (entries before) k v json text
            (value_back v f1 text wv fuel_v alnum) space
        ∙ ap (λ u. json_decode_map f1 u text) (put_last before k v (listed e) (rw (← p) s))
        ∙ fields_back e f1 false m (before ++ (k, v) ∷ []) rest
            (p ∙ sym (append_assoc before ((k, v) ∷ []) (listed e))) w s fuel_e

  -- The decoder gives a tree of texts, truth values, lists and other maps back from its encoded form,
  -- between either kind of quotes, whatever follows it that is no letter or digit; a list is one whose keys
  -- are the indices in the order of the map, and whose list flag and next index are set.
  pub json_decode-json_encode :
      (t : DTree) (rest : Bytes)
      → IsNormal t
      → is_alnum (peek rest) ≡ false
      → json_decode (json_encode to_string quote_char t ++ rest) ≡ some t
  unfolding json_decode
  json_decode-json_encode t rest w a =
      let bound = cost-json_encode to_string quote_char quote t w in
      let text : Bytes = json_encode to_string quote_char t in
      rw
        (
          json_decode,
          value_back t (2 * length (text ++ rest) + 1) rest w
              (rw (length-append text rest) (omega arith)) a,
        )
        refl
