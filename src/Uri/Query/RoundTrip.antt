-- ===== src/Uri/Query/RoundTrip.antt =====
-- A map is read back from its query string. Sessions are stored in this form.
use mathlib.Core.List.{map}
use uce.Base.{
  suc, ◌+◌, true, List, [], ◌∷◌, ◌++◌, ◌≡◌, refl, sym, ◌∙◌, ap, append_assoc, append-nil, Bytes,
  length, ltb, equal, find, find_byte, All, All-append, Lacks, IsByte, arith, take-length_append,
  drop_past, length-append, equal-append_cons,
}
use uce.Base.Maps.{below-sorted, StringMap, insert, insert_last, IsSorted}
use uce.Text.Split.{split, split_at, split_none}
use uce.Uri.Percent.{uri_encode, uri_decode-uri_encode, uri_encode-Lacks, is_encoded}
use uce.Uri.Query.{
  Parsed, parse_part, parse_parts, parse_query_keyless, encode_query_loop, encode_query,
}

-- Keys and values are made of bytes.
abbrev pub IsBytesMap : StringMap → Type 0
IsBytesMap = All (λ e. All IsByte e.0 × All IsByte e.1)

abbrev entry : Bytes × Bytes → Bytes
entry e = uri_encode e.0 ++ (b'=' ∷ uri_encode e.1)

entry-Lacks : (e : Bytes × Bytes) → Lacks b'&' (entry e)
entry-Lacks (k, v) =
    All-append _ (uri_encode k) _ (uri_encode-Lacks b'&' k (unfold is_encoded in refl))
      (omega arith, uri_encode-Lacks b'&' v (unfold is_encoded in refl))

-- The entries, each behind an ampersand.
abbrev behind : StringMap → Bytes
behind [] = []
behind (e ∷ m) = b'&' ∷ (entry e ++ behind m)

entry-nonempty : (p : Bytes) (e : Bytes × Bytes) → ltb 0 (length (p ++ entry e)) ≡ true
entry-nonempty p (k, v) =
    let n : length (p ++ entry (k, v))
        ≡ length p + (length (uri_encode k) + suc (length (uri_encode v))) =
      length-append p _ ∙ ap (λ t. length p + t) (length-append (uri_encode k) _) in
    rw n (ground arith)

encode_query_loop-behind :
    (m : StringMap) (result : Bytes)
    → ltb 0 (length result) ≡ true
    → encode_query_loop m result ≡ result ++ behind m
unfolding encode_query_loop
encode_query_loop-behind [] result h = sym (append-nil result)
encode_query_loop-behind (e ∷ m) result h =
    rw h (encode_query_loop-behind m _ (entry-nonempty _ e) ∙ simp append_assoc)

pub encode_query-behind :
    (e : Bytes × Bytes) (m : StringMap) → encode_query (e ∷ m) ≡ entry e ++ behind m
unfolding encode_query encode_query_loop
encode_query-behind e m = encode_query_loop-behind m (entry e) (entry-nonempty [] e)

split-behind :
    (e : Bytes × Bytes) (m : StringMap)
    → split (entry e ++ behind m) (b'&' ∷ []) ≡ entry e ∷ map entry m
split-behind e [] = rw append-nil (split_none b'&' (entry e) (entry-Lacks e))
split-behind e (f ∷ m) =
    split_at b'&' (entry e) _ (entry-Lacks e) ∙ ap (◌∷◌ (entry e)) (split-behind f m)

parse_part-entry :
    (k v : Bytes) (p : Parsed)
    → All IsByte k
    → All IsByte v
    → parse_part (entry (k, v)) p ≡ record p { result = insert k v p.result }
parse_part-entry k v p hk hv =
    let at_equals =
      find_byte b'=' (uri_encode k) (uri_encode v)
        (uri_encode-Lacks b'=' k (unfold is_encoded in refl)) in
    unfold parse_part in
    rw (equal-append_cons (uri_encode k) b'=' (uri_encode v), at_equals, parse_part)
      (rw (
        take-length_append (uri_encode k) (b'=' ∷ uri_encode v),
        drop_past (uri_encode k) b'=' (uri_encode v),
        uri_decode-uri_encode k hk,
        uri_decode-uri_encode v hv,
      ))

parse_parts_cons :
    (x : Bytes) (xs : List Bytes) (p : Parsed)
    → parse_parts (x ∷ xs) p ≡ parse_parts xs (parse_part x p)
unfolding parse_parts
parse_parts_cons x xs p = refl

parse_parts-entries :
    (before m : StringMap) (keyless : Bytes)
    → IsBytesMap m
    → IsSorted (before ++ m)
    → parse_parts (map entry m) (record { result = before; keyless = keyless })
      ≡ record { result = before ++ m; keyless = keyless }
parse_parts-entries before [] keyless b s = unfold parse_parts in rw append-nil
parse_parts-entries before ((k, v) ∷ m) keyless ((bk, bv), b) s =
    parse_parts_cons (entry (k, v)) (map entry m) _
    ∙ ap (parse_parts (map entry m)) (parse_part-entry k v _ bk bv)
    ∙ ap (λ t. parse_parts (map entry m) (record { result = t; keyless = keyless }))
        (insert_last k v before (below-sorted before k v m s))
    ∙ parse_parts-entries (before ++ (k, v) ∷ []) m keyless b (rw append_assoc s)
    ∙ ap (λ t. record { result = t; keyless = keyless }) (append_assoc before ((k, v) ∷ []) m)

-- A map of texts of bytes whose keys are in order, as the entries of a `std::map` are, is read back
-- from its query string, and no keyless part is reported.
pub parse_query-encode_query :
    (m : StringMap)
    → IsBytesMap m
    → IsSorted m
    → parse_query_keyless (encode_query m) ≡ record { result = m; keyless = [] }
parse_query-encode_query [] b s = unfold parse_query_keyless encode_query split find equal in refl
parse_query-encode_query (e ∷ m) b s =
    unfold parse_query_keyless in
    rw (encode_query-behind e m, split-behind e m) (parse_parts-entries [] (e ∷ m) [] b s)
