-- ===== src/Uri/Query.antt =====
-- `parse_query` and `encode_query` of src/lib/uri.cpp.
pub mod RoundTrip
use uce.Base.{
  ℕ, ◌+◌, Bool, true, false, List, [], ◌∷◌, ◌++◌, none, some, Bytes, length, take, drop, ltb, equal,
  find, if◌then◌else◌,
}
use uce.Base.Maps.{StringMap, insert}
use uce.Text.Split.{split}
use uce.Uri.Percent.{uri_encode, uri_decode}

-- The result and `*first_keyless_path`.
pub record Parsed : Type 0 where
  pub result : StringMap
  pub keyless : Bytes

-- A part with no `=`.
pub keyless_part : Bytes → Parsed → Parsed
keyless_part key p = record {
  result = insert key [] p.result;
  keyless = if equal p.keyless [] then key else p.keyless;
}

-- One round of the loop over the parts.
pub parse_part : Bytes → Parsed → Parsed
parse_part part p = if equal part [] then p else elim (find (b'=' ∷ []) part) [
  | none ↦ keyless_part (uri_decode part) p
  | some equals ↦ record p {
    result = insert (uri_decode (take equals part)) (uri_decode (drop (equals + 1) part)) p.result;
  }
]

pub parse_parts : List Bytes → Parsed → Parsed
parse_parts [] p = p
parse_parts (part ∷ parts) p = parse_parts parts (parse_part part p)

-- `parse_query(q, &first_keyless_path)`
unfoldable pub parse_query_keyless : Bytes → Parsed
unfolding parse_parts parse_part keyless_part
parse_query_keyless q = parse_parts (split q (b'&' ∷ [])) (record { result = []; keyless = [] })

unfoldable pub parse_query : Bytes → StringMap
unfolding parse_query_keyless
parse_query q = (parse_query_keyless q).result

pub encode_query_loop : StringMap → Bytes → Bytes
encode_query_loop [] result = result
encode_query_loop ((k, v) ∷ map) result = encode_query_loop map (
    (if ltb 0 (length result) then result ++ b'&' ∷ [] else result)
    ++ (uri_encode k ++ (b'=' ∷ uri_encode v)))

unfoldable pub encode_query : StringMap → Bytes
unfolding encode_query_loop
encode_query map = encode_query_loop map []
