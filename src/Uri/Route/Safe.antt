-- ===== src/Uri/Route/Safe.antt =====
-- What a route that was let through looks like.
use uce.Base.{
  ℕ, true, false, List, [], ◌∷◌, ◌≡◌, ◌≢◌, ◌↔◌, refl, Bytes, equal, equal_iff, not, inl, inr,
  if◌then◌else◌, ◌&&◌, ◌||◌, codes, arith, All, find, Option-cases, Bool-cases, ◌⊎◌,
}
use uce.Base.Names.{IsNameByte}
use uce.Base.Chars.{is_alnum}
use uce.Text.Nibble.{nibble}
use uce.Text.Split.{split, split_found, split_whole}
use uce.Uri.Route.{
  slash, route_byte, route_bytes, route_parts, route_path_normalize, route_path_normalized_is_safe,
  route_path_sanitize, route_path_sanitize_normalized, request_route_from_raw_path,
}

-- A name of letters, digits, `-` and `_`.
abbrev pub IsSegment : Bytes → Type 0
IsSegment part = (part ≢ []) × All IsNameByte part

route_byte-IsNameByte : (c : ℕ) → route_byte c ≡ true → IsNameByte c
unfolding route_byte is_alnum
route_byte-IsNameByte c h = ground arith

IsNameByte-route_byte : (c : ℕ) → IsNameByte c → route_byte c ≡ true
unfolding route_byte is_alnum
IsNameByte-route_byte c h = ground arith

route_bytes-All : (part : Bytes) → route_bytes part ≡ true → All IsNameByte part
unfolding route_bytes
route_bytes-All [] h = tt
route_bytes-All (c ∷ part) h = elim (Bool-cases (route_byte c)) [
  | inl e ↦ (route_byte-IsNameByte c e, route_bytes-All part (rw e at h))
  | inr e ↦ cc (rw e at h)
]

All-route_bytes : (part : Bytes) → All IsNameByte part → route_bytes part ≡ true
unfolding route_bytes
All-route_bytes [] h = refl
All-route_bytes (c ∷ part) (hc, h) = rw (IsNameByte-route_byte c hc) (All-route_bytes part h)

route_parts-All : (parts : List Bytes) → route_parts parts ≡ true → All IsSegment parts
unfolding route_parts
route_parts-All [] h = tt
route_parts-All (part ∷ parts) h =
    ground (arith, route_parts-All parts, route_bytes-All part, equal_iff part [])

dots_refused :
    (part : Bytes)
    → IsSegment part
    → (equal part [] || equal part (codes ".") || equal part (codes "..")) ≡ false
unfolding equal
dots_refused [] (ne, h) = absurd (ne refl)
dots_refused (c ∷ part) (ne, (hc, h)) = ground arith

All-route_parts : (parts : List Bytes) → All IsSegment parts → route_parts parts ≡ true
unfolding route_parts
All-route_parts [] h = refl
All-route_parts (part ∷ parts) (hp, h) =
    rw (dots_refused part hp, All-route_bytes part hp.1) (All-route_parts parts h)

-- A path passes the test exactly when it is empty or all its segments are names of letters, digits,
-- `-` and `_`, so that none is empty, `.` or `..`.
pub route_path_normalized_is_safe_iff :
    (path : Bytes)
    → (route_path_normalized_is_safe path ≡ true)
      ↔ ((path ≡ []) ⊎ All IsSegment (split path (slash ∷ [])))
unfolding route_path_normalized_is_safe
route_path_normalized_is_safe_iff path = (forth, back)
  where
    forth :
        (if equal path [] then true else route_parts (split path (slash ∷ []))) ≡ true
        → (path ≡ []) ⊎ All IsSegment (split path (slash ∷ []))
    forth h = elim (Bool-cases (equal path [])) [
      | inl e ↦ inl ((equal_iff path []).0 e)
      | inr e ↦ inr (route_parts-All _ (rw e at h))
    ]

    back :
        (path ≡ []) ⊎ All IsSegment (split path (slash ∷ []))
        → (if equal path [] then true else route_parts (split path (slash ∷ []))) ≡ true
    back (inl e) = rw ((equal_iff path []).1 e)
    back (inr h) = elim (Bool-cases (equal path [])) [
      | inl e ↦ rw e
      | inr e ↦ rw e (All-route_parts _ h)
    ]

-- What both sanitizers return for the path that they chose.
kept_safe :
    (path : Bytes)
    → let r = if not (route_path_normalized_is_safe path) then [] else path in
      (r ≡ []) ⊎ All IsSegment (split r (slash ∷ []))
kept_safe path = elim (Bool-cases (route_path_normalized_is_safe path)) [
  | inl e ↦ rw e ((route_path_normalized_is_safe_iff path).0 e)
  | inr e ↦ rw e (inl refl)
]

-- Whatever the request and the default are, a route that is let through has only names of letters,
-- digits, `-` and `_` as segments; any other gives the empty path.
pub route_path_sanitize-IsSegment :
    (path default_path : Bytes)
    → (route_path_sanitize path default_path ≡ [])
      ⊎ All IsSegment (split (route_path_sanitize path default_path) (slash ∷ []))
unfolding route_path_sanitize
route_path_sanitize-IsSegment path default_path = kept_safe _

sanitize_normalized-sanitize :
    (raw default_path : Bytes)
    → route_path_sanitize_normalized (route_path_normalize raw) default_path
      ≡ route_path_sanitize raw default_path
unfolding route_path_sanitize_normalized route_path_sanitize
sanitize_normalized-sanitize raw default_path = refl

first-IsSegment :
    (path : Bytes)
    → All IsSegment (split path (slash ∷ []))
    → IsSegment (nibble (slash ∷ []) path).0
unfolding nibble
first-IsSegment path h = elim (Option-cases (find (slash ∷ []) path)) [
  | inl e ↦ rw (e, nibble) ((rw (split_whole slash [] path e) at h).0)
  | inr (stop, e) ↦ rw (e, nibble) ((rw (split_found slash [] path e) at h).0)
]

-- The fields of a route whose sanitized path is `l`.
page_of : Bytes → Bytes → Bytes
page_of l default_path =
    let first = if not (equal l []) then (nibble (slash ∷ []) l).0 else [] in
    if not (equal l []) && equal first [] then default_path else first

page_of_lem :
    (l default_path : Bytes)
    → (l ≡ []) ⊎ All IsSegment (split l (slash ∷ []))
    → ((not (equal l []) ≡ true)
        × All IsSegment (split l (slash ∷ []))
        × IsSegment (page_of l default_path)
        × (page_of l default_path ≡ (nibble (slash ∷ []) l).0))
      ⊎ ((not (equal l []) ≡ false) × (l ≡ []) × (page_of l default_path ≡ []))
unfolding page_of
page_of_lem l default_path safe = elim (Bool-cases (equal l [])) [
  | inl e ↦ rw e (inr (refl, (equal_iff l []).0 e, refl))
  | inr e ↦ elim safe [
    | inl nil ↦ cc (e, (equal_iff l []).1 nil)
    | inr segments ↦
        let page = first-IsSegment l segments in
        let named : equal (nibble (slash ∷ []) l).0 [] ≡ false = not_nil page.0 in
        rw (e, named) (inl (refl, segments, page, refl))
  ]
]
  where
    not_nil : {p : Bytes} → p ≢ [] → equal p [] ≡ false
    not_nil {p} ne = elim (Bool-cases (equal p [])) [
      | inl e ↦ absurd (ne ((equal_iff p []).0 e))
      | inr e ↦ e
    ]

-- The route of a request: the path is the sanitized one; the route is valid exactly when that is
-- not empty, and then every segment of the path is a name and the page is the first of them;
-- otherwise path and page are empty.
pub request_route_lem :
    (raw default_path : Bytes)
    → let r = request_route_from_raw_path raw default_path in
      (r.l_path ≡ route_path_sanitize raw default_path)
      × (((r.valid ≡ true)
            × All IsSegment (split r.l_path (slash ∷ []))
            × IsSegment r.page
            × (r.page ≡ (nibble (slash ∷ []) r.l_path).0))
          ⊎ ((r.valid ≡ false) × (r.l_path ≡ []) × (r.page ≡ [])))
unfolding request_route_from_raw_path page_of
request_route_lem raw default_path = (
  sanitize_normalized-sanitize raw default_path,
  page_of_lem (route_path_sanitize_normalized (route_path_normalize raw) default_path) default_path
      (rw (sanitize_normalized-sanitize raw default_path)
        (route_path_sanitize-IsSegment raw default_path)),
)
