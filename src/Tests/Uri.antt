-- ===== src/Tests/Uri.antt =====
-- src/lib/uri.cpp and the text functions at concrete inputs.
use uce.Base.{true, false, [], ◌∷◌, ◌≡◌, ◌⊎◌, refl, codes, All, arith, equal, find, compare_bytes}
use uce.Base.Chars.{is_space}
use uce.Base.Maps.{StringMap, insert}
use uce.Base64.RoundTrip.{base64_decode-base64_encode}
use uce.Base64.{
  base64_encode, base64_decode, decode_loop, cleaned, is_nil, append_group, group, group_values,
  group_bytes, padding, digit, base64_decode_value,
}
use uce.Text.Split.{split}
use uce.Text.Trim.{trim}
use uce.Text.Nibble.{nibble}
use uce.Uri.Percent.{uri_encode, uri_decode}
use uce.Uri.Query.RoundTrip.{parse_query-encode_query}
use uce.Uri.Query.{parse_query, parse_query_keyless, encode_query}
use uce.Uri.Route.Safe.{IsSegment, request_route_lem}
use uce.Uri.Route.{
  slash, route_path_sanitize, route_path_normalized_is_safe, request_route_from_raw_path,
  route_path_normalize,
}

split_parts : split (codes "a//b/") (codes "/") ≡ codes "a" ∷ [] ∷ codes "b" ∷ [] ∷ []
unfolding split find
split_parts = refl

trim_both : trim (codes " \t a b \n") ≡ codes "a b"
unfolding trim
trim_both = refl

encode_text : uri_encode (codes "a b/~") ≡ codes "a%20b%2F~"
unfolding uri_encode
encode_text = refl

decode_text : uri_decode (codes "a%2Fb+c%4%zz") ≡ codes "a/b c%4%zz"
unfolding uri_decode
decode_text = refl

base64_text : base64_encode (codes "Many") ≡ codes "TWFueQ=="
unfolding base64_encode
base64_text = refl

base64_spaces : base64_decode (codes " TWFu\neQ== ") ≡ (codes "Many", true)
unfolding base64_decode decode_loop cleaned is_nil append_group group group_values group_bytes
    padding digit base64_decode_value is_space
base64_spaces = refl

-- Padding in front of a group is let through.
base64_padding_in_front : (base64_decode (codes "==AA")).1 ≡ true
unfolding base64_decode decode_loop cleaned is_nil append_group group group_values group_bytes
    padding digit base64_decode_value is_space
base64_padding_in_front = refl

query_text :
    parse_query (codes "b=2&&x+y&a=%31")
    ≡ (codes "a", codes "1") ∷ (codes "b", codes "2") ∷ (codes "x y", []) ∷ []
unfolding parse_query uri_decode split find equal insert compare_bytes
query_text = refl

abbrev user_map : StringMap
user_map = (codes "id", codes "7&8") ∷ (codes "name", codes "A=B") ∷ []

route_text :
    route_path_sanitize (codes " /blog/first-post/ ") (codes "index") ≡ codes "blog/first-post"
unfolding route_path_sanitize route_path_normalize route_path_normalized_is_safe equal split find
route_text = refl

route_dots : route_path_sanitize (codes "../etc") (codes "index") ≡ []
unfolding route_path_sanitize route_path_normalize route_path_normalized_is_safe equal split find
route_dots = refl

parse_query-encode_query_example :
    parse_query_keyless (encode_query user_map) ≡ record { result = user_map; keyless = [] }
unfolding compare_bytes
parse_query-encode_query_example =
    parse_query-encode_query user_map (omega arith) ((refl, tt), (tt, tt))

base64_decode-base64_encode_example :
    base64_decode (base64_encode (codes "hello")) ≡ (codes "hello", true)
base64_decode-base64_encode_example = base64_decode-base64_encode (codes "hello") (omega arith)

request_route_lem_example :
    let r = request_route_from_raw_path (codes "/blog/x") (codes "index") in
    (r.l_path ≡ route_path_sanitize (codes "/blog/x") (codes "index"))
    × (((r.valid ≡ true)
          × All IsSegment (split r.l_path (slash ∷ []))
          × IsSegment r.page
          × (r.page ≡ (nibble (slash ∷ []) r.l_path).0))
        ⊎ ((r.valid ≡ false) × (r.l_path ≡ []) × (r.page ≡ [])))
request_route_lem_example = request_route_lem (codes "/blog/x") (codes "index")
