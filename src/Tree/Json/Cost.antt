-- ===== src/Tree/Json/Cost.antt =====
-- How deep the calls of the decoder nest on what `json_encode` makes.
use uce.Base.{
  ℕ, ◌+◌, ◌*◌, ◌≤◌, Bool, true, false, [], ◌∷◌, ◌++◌, ◌≡◌, ◌⊎◌, Bytes, length, arith, length-append,
  if◌then◌else◌, codes,
}
use uce.Text.Escape.{json_escape}
use uce.Tree.{DTree, string, float, bool, map, Entries, no_entries, entry}
use uce.Tree.Json.{json_fields, json_encode, encoded}
use uce.Tree.Json.Text.{items_text}
use uce.Tree.Json.Normal.{
  IsKind, IsNormal, AllNormal, cost, cost_entries, json_encode-list, json_encode-map,
}

module _ (to_string : ℕ → Bytes) (quote_char : ℕ)
    (quote : (quote_char ≡ 34) ⊎ (quote_char ≡ 39)) where
  field_length :
      (name json later : Bytes) (first : Bool)
      → 2 + length json + length later
        ≤ length ((if first then [] else codes ", ") ++ (name ++ (codes ": " ++ (json ++ later))))
  field_length name json later first =
      rw
        (
          length-append (if first then [] else codes ", ")
              (name ++ (codes ": " ++ (json ++ later))),
          length-append name (codes ": " ++ (json ++ later)),
          length-append json later,
        )
        (omega arith)

  -- The calls nest at most twice for each byte of the text.
  mutual
    unfolding IsNormal IsKind cost items_text json_fields encoded json_escape json_encode

    pub cost-json_encode :
        (t : DTree) → IsNormal t → cost t ≤ 2 * length (json_encode to_string quote_char t)
    cost-json_encode (string s) w = omega arith
    cost-json_encode (float f) w = elim w [ ]
    cost-json_encode (bool true) w = omega arith
    cost-json_encode (bool false) w = omega arith
    cost-json_encode (map true n e) (w, s, (count, i)) =
        let bound = cost-items_text e w in
        rw
          (
            json_encode-list to_string quote_char quote n e s i,
            length-append (items_text to_string quote_char true e) (b']' ∷ []),
          )
          (omega arith)
    cost-json_encode (map false n e) (w, s, (count, i)) =
        let bound = cost-json_fields e true w in
        rw
          (
            json_encode-map to_string quote_char quote n e i,
            length-append (json_fields quote_char true (encoded to_string quote_char e))
                (b'}' ∷ []),
          )
          (omega arith)

    cost-items_text :
        (e : Entries)
        → AllNormal e
        → cost_entries e ≤ 2 * length (items_text to_string quote_char true e) + 3
    cost-items_text no_entries w = omega arith
    cost-items_text (entry k v e) (wv, w) =
        let bound = cost-json_encode v wv in
        let later = cost-later e w in
        rw
          (length-append (json_encode to_string quote_char v)
            (items_text to_string quote_char false e))
          (omega arith)

    cost-later :
        (e : Entries)
        → AllNormal e
        → cost_entries e ≤ 2 * length (items_text to_string quote_char false e) + 1
    cost-later no_entries w = omega arith
    cost-later (entry k v e) (wv, w) =
        let bound = cost-json_encode v wv in
        let later = cost-later e w in
        rw
          (length-append (json_encode to_string quote_char v)
            (items_text to_string quote_char false e))
          (omega arith)

    cost-json_fields :
        (e : Entries) (first : Bool)
        → AllNormal e
        → cost_entries e
          ≤ 2 * length (json_fields quote_char first (encoded to_string quote_char e)) + 1
    cost-json_fields no_entries first w = omega arith
    cost-json_fields (entry k v e) first (wv, w) =
        let bound = cost-json_encode v wv in
        let later = cost-json_fields e false w in
        let text =
          field_length (json_escape k quote_char) (json_encode to_string quote_char v)
            (json_fields quote_char false (encoded to_string quote_char e)) first in
        omega arith
