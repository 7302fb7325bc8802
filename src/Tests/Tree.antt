-- ===== src/Tests/Tree.antt =====
-- Trees and JSON at concrete inputs; a number is printed as its pattern's digits.
use uce.Base.{
  true, false, [], ◌∷◌, ◌++◌, ◌≡◌, ◌≤◌, refl, inl, some, none, compare_bytes, equal, length, codes,
  arith,
}
use uce.Base.Chars.{is_space, is_alnum, is_digit}
use uce.Fastcgi.Response.{digits}
use uce.Tree.{
  DTree, Entries, string, bool, map, no_entries, entry, listed, entries, index_key, all_digits,
  key_is_index, indexed, list_entries, is_list, push, pop,
}
use uce.Tree.Children.{is_list-length, pop-push}
use uce.Tree.Json.{json_encode, json_decode, json_decode_value, json_items, json_fields, or_null}
use uce.Text.Escape.{json_escape, json_escape_loop, json_escape_char}
use uce.Base.Maps.{lookup}
use uce.Tree.Json.Endless.{is_stuck, json_decode_value-endless}
use uce.Tree.Json.Normal.{IsNormal, IsKind}
use uce.Tree.Json.RoundTrip.{json_decode-json_encode}

abbrev tags : DTree
tags =
    map true 2
      (entry (codes "0") (string (codes "a\"b")) (entry (codes "1") (bool true) no_entries))

abbrev user : DTree
user =
    map false 0 (entry (codes "name") (string (codes "ann")) (entry (codes "tags") tags no_entries))

abbrev short_list : Entries
short_list = entry (codes "0") (string []) (entry (codes "1") (bool true) no_entries)

user_text :
    json_encode (digits 20) 34 user ≡ codes "{\"name\": \"ann\", \"tags\": [\"a\\\"b\", true]}"
unfolding json_encode json_items json_fields is_list list_entries indexed listed key_is_index
    all_digits is_digit index_key digits compare_bytes equal or_null lookup json_escape
    json_escape_loop json_escape_char
user_text = refl

user-IsNormal : IsNormal user
unfolding IsNormal IsKind list_entries indexed listed key_is_index index_key digits compare_bytes
    equal all_digits is_digit
user-IsNormal = (
  (tt, ((((tt, (tt, tt)), ((refl, tt), (tt, tt)), (refl, refl))), tt)),
  ((refl, tt), (tt, tt)),
  (refl, refl),
)

json_decode-json_encode_example :
    json_decode (json_encode (digits 20) 34 user ++ codes "]") ≡ some user
unfolding is_alnum
json_decode-json_encode_example =
    json_decode-json_encode (digits 20) 34 (inl refl) user (codes "]") user-IsNormal refl

json_decode_value-endless_example : json_decode_value 1000 (codes "[-1]") ≡ none
unfolding is_stuck is_space is_alnum
json_decode_value-endless_example = json_decode_value-endless 1000 b'-' (codes "1]") refl

is_list-length_example : length (listed short_list) ≤ 10
unfolding is_list list_entries indexed listed key_is_index index_key digits compare_bytes equal
    all_digits is_digit
is_list-length_example = is_list-length true 2 short_list ((refl, tt), (tt, tt)) refl

pop-push_example :
    pop (push (map true 1 (entries ((codes "0", string []) ∷ []))) user)
    ≡ (map true 1 (entries ((codes "0", string []) ∷ [])), user)
unfolding indexed key_is_index index_key digits equal all_digits is_digit
pop-push_example = pop-push ((codes "0", string []) ∷ []) user refl (omega arith)
