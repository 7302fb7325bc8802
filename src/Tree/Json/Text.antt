-- ===== src/Tree/Json/Text.antt =====
-- The text of `json_encode` as the decoder meets it: entry by entry.
use uce.Base.{
  ℕ, suc, Bool, true, false, List, [], ◌∷◌, ◌++◌, ◌&&◌, not, ◌≡◌, refl, ap, sym, ◌∙◌, some,
  equal_refl, Bytes, length, arith, append_assoc, length-append, ◌==◌, if◌then◌else◌, codes,
}
use uce.Base.Chars.{is_space}
use uce.Base.Maps.{IsSorted, Above, lookup, lookup_past, below-sorted}
use uce.Tree.{Entries, no_entries, entry, listed, key_is_index, index_key, indexed}
use uce.Tree.Lists.{indexed-index_key}
use uce.Tree.Json.{or_null, json_items, json_encode, encoded}

-- A text that starts a value of an array.
unfoldable pub starts_value : Bytes → Bool
starts_value [] = false
starts_value (c ∷ s) = not (is_space c) && not (c == b']') && not (c == b',')

-- In a sorted list with the indices for keys, the search for an index gives the value at the position.
lookup_index {ℓ} :
    {V : Type ℓ} (before : List (Bytes × V)) (k : Bytes) (v : V) (m all : List (Bytes × V))
    → all ≡ before ++ (k, v) ∷ m
    → IsSorted all
    → indexed 0 all ≡ true
    → lookup (index_key (length before)) all ≡ some v
unfolding lookup
lookup_index before k v m all p s h =
    let key_lem : k ≡ index_key (length before) =
      indexed-index_key before 0 k v m (rw (← p) h) ∙ ap index_key (omega arith) in
    rw (p, ← key_lem)
      (lookup_past before k ((k, v) ∷ m) (below-sorted before k v m (rw (← p) s))
        ∙ rw (equal_refl k) refl)

module _ (to_string : ℕ → Bytes) (quote_char : ℕ) where
  -- The values one after the other.
  unfoldable pub items_text : Bool → Entries → Bytes
  items_text first no_entries = []
  items_text first (entry k v e) =
      (if first then [] else codes ", ")
      ++ (json_encode to_string quote_char v ++ items_text false e)

  Above-encoded :
      (k : Bytes) (e : Entries) → Above k (listed e) → Above k (encoded to_string quote_char e)
  unfolding listed encoded
  Above-encoded k no_entries a = tt
  Above-encoded k (entry j v e) (p, a) = (p, Above-encoded k e a)

  pub IsSorted-encoded :
      (e : Entries) → IsSorted (listed e) → IsSorted (encoded to_string quote_char e)
  unfolding listed encoded
  IsSorted-encoded no_entries s = tt
  IsSorted-encoded (entry k v e) (a, s) = (Above-encoded k e a, IsSorted-encoded e s)

  pub indexed-encoded :
      (n : ℕ) (e : Entries) → indexed n (encoded to_string quote_char e) ≡ indexed n (listed e)
  unfolding listed encoded indexed
  indexed-encoded n no_entries = refl
  indexed-encoded n (entry k v e) =
      ap (λ b. key_is_index k (some n) && b) (indexed-encoded (suc n) e)

  -- The values that `json_encode` looks up by their indices are those of the entries in order.
  pub json_items-encoded :
      (m before : List (Bytes × Bytes)) (e : Entries) (first : Bool)
      → m ≡ before ++ encoded to_string quote_char e
      → (length before == 0) ≡ first
      → IsSorted m
      → indexed 0 m ≡ true
      → json_items (length (encoded to_string quote_char e)) (length before) m ≡ items_text first e
  unfolding json_items items_text encoded or_null
  json_items-encoded m before no_entries first p f s h = refl
  json_items-encoded m before (entry k v e) first p f s h =
      let json : Bytes = json_encode to_string quote_char v in
      let later : m ≡ (before ++ (k, json) ∷ []) ++ encoded to_string quote_char e =
        p ∙ sym (append_assoc before ((k, json) ∷ []) (encoded to_string quote_char e)) in
      let next : length (before ++ (k, json) ∷ []) ≡ suc (length before) =
        length-append before ((k, json) ∷ []) ∙ omega arith in
      let rest =
        json_items-encoded m (before ++ (k, json) ∷ []) e false later (ground (arith, next)) s h in
      rw (f, lookup_index before k json (encoded to_string quote_char e) m p s h, ← next, rest) refl
