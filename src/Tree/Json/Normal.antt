-- ===== src/Tree/Json/Normal.antt =====
-- The trees that the decoder gives back, and the text of their entries.
use uce.Base.{
  ℕ, ◌+◌, Bool, true, false, [], ◌∷◌, ◌++◌, ◌≡◌, refl, ap, ◌∙◌, ◌⊎◌, inl, inr, Bytes, length,
  append_assoc, Bool-cases,
}
use uce.Base.Chars.{is_space, is_alnum}
use uce.Base.Maps.{IsSorted}
use uce.Compiler.Code.{peek}
use uce.Text.Escape.{json_escape}
use uce.Tree.{
  DTree, string, float, bool, map, Entries, no_entries, entry, listed, indexed, list_entries,
  is_list,
}
use uce.Tree.Json.{json_fields, json_encode, encoded, json_consume_space}
use uce.Tree.Json.Text.{
  starts_value, items_text, json_items-encoded, IsSorted-encoded, indexed-encoded,
}
use uce.Tree.Json.Steps.{list_entries-listed, json_consume_space-append, quote_lem}

-- A list counts its entries; what is no list has no next index.
unfoldable pub IsKind : Bool → ℕ → Entries → Type 0
IsKind true array_index e = (array_index ≡ length (listed e)) × (indexed 0 (listed e) ≡ true)
IsKind false array_index e = (array_index ≡ 0) × (list_entries false e ≡ false)

unfoldable mutual
  -- A text, a truth value, a list with its next index, or a map that is no list, of such trees.
  pub IsNormal : DTree → Type 0
  IsNormal (string s) = Unit
  IsNormal (float f) = ⊥
  IsNormal (bool b) = Unit
  IsNormal (map list_mode array_index e) =
      AllNormal e × IsSorted (listed e) × IsKind list_mode array_index e

  pub AllNormal : Entries → Type 0
  AllNormal no_entries = Unit
  AllNormal (entry k v e) = IsNormal v × AllNormal e

-- The calls of the decoder that nest in one another for a tree.
unfoldable mutual
  pub cost : DTree → ℕ
  cost (string s) = 1
  cost (float f) = 1
  cost (bool b) = 1
  cost (map list_mode array_index e) = 1 + cost_entries e

  pub cost_entries : Entries → ℕ
  cost_entries no_entries = 1
  cost_entries (entry k v e) = 2 + cost v + cost_entries e

module _ (to_string : ℕ → Bytes) (quote_char : ℕ)
    (quote : (quote_char ≡ 34) ⊎ (quote_char ≡ 39)) where
  pub starts_value-json_encode :
      (t : DTree) → IsNormal t → starts_value (json_encode to_string quote_char t) ≡ true
  unfolding starts_value json_encode IsNormal json_escape is_list is_space
  starts_value-json_encode (string s) w = elim quote [ inl e ↦ rw e refl | inr e ↦ rw e refl ]
  starts_value-json_encode (float f) w = elim w [ ]
  starts_value-json_encode (bool true) w = refl
  starts_value-json_encode (bool false) w = refl
  starts_value-json_encode (map list_mode array_index e) w =
      elim (Bool-cases (list_entries list_mode e)) [ inl h ↦ rw h refl | inr h ↦ rw h refl ]

  -- What follows a value in a list or a map is no space and no letter.
  pub items_text_end :
      (e : Entries) (rest : Bytes)
      → json_consume_space (items_text to_string quote_char false e ++ b']' ∷ rest)
          ≡ items_text to_string quote_char false e ++ b']' ∷ rest
        × (is_alnum (peek (items_text to_string quote_char false e ++ b']' ∷ rest)) ≡ false)
  unfolding items_text json_consume_space is_alnum
  items_text_end no_entries rest = (refl, refl)
  items_text_end (entry k v e) rest = (refl, refl)

  pub json_fields_end :
      (e : Entries) (rest : Bytes)
      → json_consume_space
            (json_fields quote_char false (encoded to_string quote_char e) ++ b'}' ∷ rest)
          ≡ json_fields quote_char false (encoded to_string quote_char e) ++ b'}' ∷ rest
        × (is_alnum
              (peek (json_fields quote_char false (encoded to_string quote_char e) ++ b'}' ∷ rest))
            ≡ false)
  unfolding json_fields encoded json_consume_space is_alnum
  json_fields_end no_entries rest = (refl, refl)
  json_fields_end (entry k v e) rest = (refl, refl)

  pub items_text_start :
      (first : Bool) (e : Entries) (rest : Bytes)
      → AllNormal e
      → json_consume_space (items_text to_string quote_char first e ++ b']' ∷ rest)
        ≡ items_text to_string quote_char first e ++ b']' ∷ rest
  unfolding items_text json_consume_space AllNormal
  items_text_start first no_entries rest w = refl
  items_text_start false (entry k v e) rest w = refl
  items_text_start true (entry k v e) rest (w, _) =
      rw
        (append_assoc (json_encode to_string quote_char v) (items_text to_string quote_char false e)
          (b']' ∷ rest))
        (json_consume_space-append (json_encode to_string quote_char v)
          (items_text to_string quote_char false e ++ b']' ∷ rest) (starts_value-json_encode v w))

  pub json_encode-list :
      (n : ℕ) (e : Entries)
      → IsSorted (listed e)
      → indexed 0 (listed e) ≡ true
      → json_encode to_string quote_char (map true n e)
        ≡ b'[' ∷ items_text to_string quote_char true e ++ b']' ∷ []
  unfolding json_encode is_list
  json_encode-list n e s i = rw (list_entries-listed e i) (
      ap (λ x. b'[' ∷ x ++ b']' ∷ [])
        (json_items-encoded to_string quote_char (encoded to_string quote_char e) [] e true refl
          refl (IsSorted-encoded to_string quote_char e s)
          (indexed-encoded to_string quote_char 0 e ∙ i)))

  pub json_encode-map :
      (n : ℕ) (e : Entries)
      → list_entries false e ≡ false
      → json_encode to_string quote_char (map false n e)
        ≡ b'{' ∷ json_fields quote_char true (encoded to_string quote_char e) ++ b'}' ∷ []
  unfolding json_encode is_list
  json_encode-map n e l = rw l refl

  pub json_fields_start :
      (first : Bool) (e : Entries) (rest : Bytes)
      → json_consume_space
          (json_fields quote_char first (encoded to_string quote_char e) ++ b'}' ∷ rest)
        ≡ json_fields quote_char first (encoded to_string quote_char e) ++ b'}' ∷ rest
  unfolding json_fields encoded json_consume_space json_escape
  json_fields_start first no_entries rest = refl
  json_fields_start false (entry k v e) rest = refl
  json_fields_start true (entry k v e) rest = rw ((quote_lem quote_char quote).0) refl
