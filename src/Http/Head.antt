-- ===== src/Http/Head.antt =====
-- The lines of the head of a response.
use uce.Base.{
  List, [], ◌∷◌, ◌++◌, ◌≡◌, refl, ap, ap₂, sym, ◌∙◌, inl, inr, Bytes, find, starts, All, All-append,
  append_assoc, codes, Bool-cases,
}
use uce.Base.Maps.{StringMap}
use uce.Http.{
  http_header_name_valid, http_header_value_clean, http_set_cookie_header_valid,
  http_status_line_clean, crlf, render_header_map, render_set_cookie_headers, response_head,
}
use uce.Http.Fields.{
  IsLine, IsHeaderLine, HeaderLines, CookieLines, IsStatusLine, http_header_name_valid-IsFieldName,
  IsFieldName-http_header_name_valid, IsFieldName-IsHeaderLine, http_header_value_clean-Cleaned,
  http_header_value_clean-IsLine, http_set_cookie_header_valid-IsCookieLine,
  IsCookieLine-http_set_cookie_header_valid, IsCookieLine-IsHeaderLine,
  http_status_line_clean-IsLine, http_status_line_clean-IsStatusLine, longer, not_found-IsLine,
  IsLine-append,
}

-- Lines, each with its end.
abbrev pub lines : List Bytes → Bytes
lines [] = []
lines (l ∷ ls) = l ++ (crlf ++ lines ls)

lines-append : (ls ks : List Bytes) → lines ls ++ lines ks ≡ lines (ls ++ ks)
lines-append [] ks = refl
lines-append (l ∷ ls) ks =
    append_assoc l (crlf ++ lines ls) (lines ks) ∙ ap (λ t. l ++ (crlf ++ t)) (lines-append ls ks)

one_line :
    (l rest : Bytes) (ls : List Bytes) → rest ≡ lines ls → (l ++ crlf) ++ rest ≡ lines (l ∷ ls)
one_line l rest ls e = append_assoc l crlf rest ∙ ap (λ t. l ++ (crlf ++ t)) e

render_header_map-HeaderLines :
    (headers : StringMap)
    → (ls : List Bytes) × HeaderLines headers ls
      × All IsHeaderLine ls
      × (render_header_map headers ≡ lines ls)
unfolding render_header_map HeaderLines
render_header_map-HeaderLines [] = ([], refl, tt, refl)
render_header_map-HeaderLines ((name, value) ∷ headers) =
    let (ls, hs, all, later) = render_header_map-HeaderLines headers in
    elim (Bool-cases (http_header_name_valid name)) [
      | inr e ↦
          rw e (ls, inr (λ h. cc (e, IsFieldName-http_header_name_valid name h), hs), all, later)
      | inl e ↦
          let valid = http_header_name_valid-IsFieldName name e in
          let (line, positive) = IsFieldName-IsHeaderLine name valid in
          let clean = http_header_value_clean value in
          let colon : IsLine (codes ": ") =
            not_found-IsLine (codes ": ") (unfold find starts in refl)
              (unfold find starts in refl) in
          let whole : IsHeaderLine (name ++ (codes ": " ++ clean)) = (
            IsLine-append name (codes ": " ++ clean) line
                (IsLine-append (codes ": ") clean colon (http_header_value_clean-IsLine value)),
            longer name (codes ": " ++ clean) positive,
          ) in
          let shape : name ++ (codes ": " ++ (clean ++ crlf))
              ≡ (name ++ (codes ": " ++ clean)) ++ crlf =
            sym (append_assoc name (codes ": " ++ clean) crlf) in
          rw (e, shape)
            (
              (name ++ (codes ": " ++ clean)) ∷ ls,
              inl (valid, clean, ls, http_header_value_clean-Cleaned value, refl, hs),
              (whole, all),
              one_line _ _ ls later,
            )
    ]

render_set_cookie_headers-CookieLines :
    (headers : List Bytes)
    → (ls : List Bytes) × CookieLines headers ls
      × All IsHeaderLine ls
      × (render_set_cookie_headers headers ≡ lines ls)
unfolding render_set_cookie_headers CookieLines
render_set_cookie_headers-CookieLines [] = ([], refl, tt, refl)
render_set_cookie_headers-CookieLines (header ∷ headers) =
    let (ls, hs, all, later) = render_set_cookie_headers-CookieLines headers in
    elim (Bool-cases (http_set_cookie_header_valid header)) [
      | inr e ↦ rw e (
        ls,
        inr (λ h. cc (e, IsCookieLine-http_set_cookie_header_valid header h), hs),
        all,
        later,
      )
      | inl e ↦
          let valid = http_set_cookie_header_valid-IsCookieLine header e in
          rw e (
            header ∷ ls,
            inl (valid, ls, refl, hs),
            (IsCookieLine-IsHeaderLine header valid, all),
            one_line header _ ls later,
          )
    ]

-- Whatever the status, the headers and the cookies are, the head is exactly these lines and an empty
-- one at the end: a status line, the given one if it is a line and else that of an error; `name: value`
-- for each header whose name is of letters, digits, `-` and `_`, with a space for each carriage return
-- and line feed in the value; and each cookie that is a line that starts with `Set-Cookie: `. None of
-- the lines holds a carriage return or a line feed, and those behind the first are not empty.
pub response_head_lem :
    (response_code : Bytes) (header : StringMap) (set_cookies : List Bytes)
    → (status : Bytes) × (ls : List Bytes) × (ks : List Bytes) × IsLine status
      × IsStatusLine response_code status
      × HeaderLines header ls
      × CookieLines set_cookies ks
      × All IsHeaderLine (ls ++ ks)
      × (response_head response_code header set_cookies ≡ lines (status ∷ (ls ++ ks)) ++ crlf)
unfolding response_head
response_head_lem response_code header set_cookies =
    let (ls, hs, all_headers, e) = render_header_map-HeaderLines header in
    let (ks, gs, all_cookies, d) = render_set_cookie_headers-CookieLines set_cookies in
    let status = http_status_line_clean response_code in
    let joined : render_header_map header ++ (render_set_cookie_headers set_cookies ++ crlf)
        ≡ lines (ls ++ ks) ++ crlf =
      sym (append_assoc (render_header_map header) (render_set_cookie_headers set_cookies) crlf)
      ∙ ap₂ (λ s t. (s ++ t) ++ crlf) e d
      ∙ ap (λ t. t ++ crlf) (lines-append ls ks) in
    (
      status,
      ls,
      ks,
      http_status_line_clean-IsLine response_code,
      http_status_line_clean-IsStatusLine response_code,
      hs,
      gs,
      All-append IsHeaderLine ls ks all_headers all_cookies,
      ap (λ t. status ++ (crlf ++ t)) joined
          ∙ sym (append_assoc status (crlf ++ lines (ls ++ ks)) crlf),
    )
