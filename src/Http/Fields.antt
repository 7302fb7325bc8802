-- ===== src/Http/Fields.antt =====
-- What a line of the head of a response is, and that the tests and the cleaning of src/lib/uri.cpp
-- let through just that.
use uce.Base.{
  ℕ, ◌+◌, ◌≤◌, ◌<◌, ◌⊎◌, ◌≢◌, true, false, List, [], ◌∷◌, ◌++◌, ◌≡◌, refl, ap, sym, ◌∙◌, inl, inr,
  Bytes, length, not, ◌&&◌, find, starts, equal, All, Lacks, arith, codes, Bool-cases, Option-cases,
  find_byte_none→Lacks, find_byte_none,
}
use uce.Base.Chars.{is_alnum, lower, to_lower}
use uce.Base.Names.{IsNameByte}
use uce.Base.Maps.{StringMap}
use uce.Http.{
  name_bytes, http_header_name_valid, http_header_value_clean, is_found,
  http_set_cookie_header_valid, http_status_line_clean,
}
use uce.Text.Nibble.{str_starts_with}

-- The name of a header: letters, digits, `-` and `_`, at least one.
abbrev pub IsFieldName : Bytes → Type 0
IsFieldName name = (name ≢ []) × All IsNameByte name

-- A value with a space for each carriage return and line feed.
abbrev pub Cleaned : Bytes → Bytes → Type 0
Cleaned [] clean = clean ≡ []
Cleaned (c ∷ value) [] = ⊥
Cleaned (c ∷ value) (d ∷ clean) =
    ((((c ≡ 13) ⊎ (c ≡ 10)) × (d ≡ 32)) ⊎ ((c ≢ 13) × (c ≢ 10) × (d ≡ c))) × Cleaned value clean

-- A text that starts with a pattern, in which a small letter also stands for the capital one.
abbrev pub StartsLike : Bytes → Bytes → Type 0
StartsLike [] s = Unit
StartsLike (p ∷ pattern) [] = ⊥
StartsLike (p ∷ pattern) (c ∷ s) =
    (((b'A' ≤ c) × (c ≤ b'Z') × (c + 32 ≡ p)) ⊎ (((c < b'A') ⊎ (b'Z' < c)) × (c ≡ p)))
    × StartsLike pattern s

-- A line holds neither a carriage return nor a line feed.
abbrev pub IsLine : Bytes → Type 0
IsLine s = Lacks 13 s × Lacks 10 s

abbrev pub IsHeaderLine : Bytes → Type 0
IsHeaderLine s = IsLine s × (1 ≤ length s)

-- A cookie that is sent: one line that starts with `Set-Cookie: `, in whatever case.
abbrev pub IsCookieLine : Bytes → Type 0
IsCookieLine s = IsLine s × StartsLike (codes "set-cookie: ") s

-- The lines of the headers: one, `name: value`, for each header with the name of one, and no other.
unfoldable pub HeaderLines : StringMap → List Bytes → Type 0
HeaderLines [] ls = ls ≡ []
HeaderLines ((name, value) ∷ headers) ls =
    (IsFieldName name
      × (clean : Bytes) × (rest : List Bytes) × Cleaned value clean
      × (ls ≡ (name ++ (codes ": " ++ clean)) ∷ rest)
      × HeaderLines headers rest)
    ⊎ ((IsFieldName name → ⊥) × HeaderLines headers ls)

-- The lines of the cookies: each that is sent, as it is, and no other.
unfoldable pub CookieLines : List Bytes → List Bytes → Type 0
CookieLines [] ls = ls ≡ []
CookieLines (header ∷ headers) ls =
    (IsCookieLine header × (rest : List Bytes) × (ls ≡ header ∷ rest) × CookieLines headers rest)
    ⊎ ((IsCookieLine header → ⊥) × CookieLines headers ls)

-- The status line: the given one, if it is a line, and else that of an error.
abbrev pub IsStatusLine : Bytes → Bytes → Type 0
IsStatusLine given status =
    (IsLine given × (status ≡ given))
    ⊎ ((IsLine given → ⊥)
        × ((status ≡ codes "HTTP/1.1 500 Internal Server Error")
            ⊎ (status ≡ codes "Status: 500 Internal Server Error")))

Lacks-append : (b : ℕ) (p q : Bytes) → Lacks b p → Lacks b q → Lacks b (p ++ q)
Lacks-append b [] q hp hq = hq
Lacks-append b (c ∷ p) q (h, hp) hq = (h, Lacks-append b p q hp hq)

pub IsLine-append : (p q : Bytes) → IsLine p → IsLine q → IsLine (p ++ q)
IsLine-append p q (a, b) (c, d) = (Lacks-append 13 p q a c, Lacks-append 10 p q b d)

pub http_header_value_clean-IsLine : (value : Bytes) → IsLine (http_header_value_clean value)
unfolding http_header_value_clean
http_header_value_clean-IsLine [] = (tt, tt)
http_header_value_clean-IsLine (c ∷ value) =
    let (a, b) = http_header_value_clean-IsLine value in ((ground arith, a), (ground arith, b))

name_bytes-All : (name : Bytes) → name_bytes name ≡ true → All IsNameByte name
unfolding name_bytes is_alnum
name_bytes-All [] h = tt
name_bytes-All (c ∷ name) h = (ground arith, name_bytes-All name (ground arith))

All-name_bytes : (name : Bytes) → All IsNameByte name → name_bytes name ≡ true
unfolding name_bytes is_alnum
All-name_bytes [] h = refl
All-name_bytes (c ∷ name) (hc, h) = ground (arith, All-name_bytes name h)

pub http_header_name_valid-IsFieldName :
    (name : Bytes) → http_header_name_valid name ≡ true → IsFieldName name
unfolding http_header_name_valid equal
http_header_name_valid-IsFieldName [] h = cc
http_header_name_valid-IsFieldName (c ∷ name) h = (λ e. cc e, name_bytes-All (c ∷ name) h)

pub IsFieldName-http_header_name_valid :
    (name : Bytes) → IsFieldName name → http_header_name_valid name ≡ true
unfolding http_header_name_valid equal
IsFieldName-http_header_name_valid [] (some_name, h) = absurd (some_name refl)
IsFieldName-http_header_name_valid (c ∷ name) (some_name, h) = All-name_bytes (c ∷ name) h

name_Lacks : (b : ℕ) (name : Bytes) → All IsNameByte name → b ≤ 13 → Lacks b name
name_Lacks b [] h k = tt
name_Lacks b (c ∷ name) (hc, h) k = (λ e. ground arith, name_Lacks b name h k)

pub IsFieldName-IsHeaderLine : (name : Bytes) → IsFieldName name → IsHeaderLine name
IsFieldName-IsHeaderLine [] (some_name, h) = absurd (some_name refl)
IsFieldName-IsHeaderLine (c ∷ name) (some_name, h) = (
  (name_Lacks 13 (c ∷ name) h (omega arith), name_Lacks 10 (c ∷ name) h (omega arith)),
  omega arith,
)

pub http_header_value_clean-Cleaned :
    (value : Bytes) → Cleaned value (http_header_value_clean value)
unfolding http_header_value_clean
http_header_value_clean-Cleaned [] = refl
http_header_value_clean-Cleaned (c ∷ value) =
    let later = http_header_value_clean-Cleaned value in (ground arith, later)

to_lower-StartsLike :
    (pattern s : Bytes) → str_starts_with (to_lower s) pattern ≡ true → StartsLike pattern s
unfolding str_starts_with to_lower lower equal
to_lower-StartsLike [] s h = tt
to_lower-StartsLike (p ∷ pattern) [] h = ground arith
to_lower-StartsLike (p ∷ pattern) (c ∷ s) h =
    (ground arith, to_lower-StartsLike pattern s (ground arith))

StartsLike-to_lower :
    (pattern s : Bytes) → StartsLike pattern s → str_starts_with (to_lower s) pattern ≡ true
unfolding str_starts_with to_lower lower equal
StartsLike-to_lower [] s h = ground arith
StartsLike-to_lower (p ∷ pattern) [] h = absurd h
StartsLike-to_lower (p ∷ pattern) (c ∷ s) (hc, h) = ground (arith, StartsLike-to_lower pattern s h)

pub longer : (p q : Bytes) → 1 ≤ length p → 1 ≤ length (p ++ q)
longer (c ∷ p) q h = omega arith
longer [] q h = absurd (omega arith)

not_found : (b : ℕ) (s : Bytes) → is_found (find (b ∷ []) s) ≡ false → Lacks b s
not_found b s h = elim (Option-cases (find (b ∷ []) s)) [
  | inl e ↦ find_byte_none→Lacks b s e
  | inr (at, e) ↦ absurd (differ (sym (ap is_found e) ∙ h))
]
  where
    differ : true ≡ false → ⊥
    differ e = cc

-- A text in which neither byte is found.
pub not_found-IsLine :
    (s : Bytes)
    → is_found (find (13 ∷ []) s) ≡ false
    → is_found (find (10 ∷ []) s) ≡ false
    → IsLine s
not_found-IsLine s no_return no_feed = (not_found 13 s no_return, not_found 10 s no_feed)

Lacks-not_found : (b : ℕ) (s : Bytes) → Lacks b s → is_found (find (b ∷ []) s) ≡ false
Lacks-not_found b s h = ap is_found (find_byte_none b s h)

pub http_set_cookie_header_valid-IsCookieLine :
    (header : Bytes) → http_set_cookie_header_valid header ≡ true → IsCookieLine header
unfolding http_set_cookie_header_valid
http_set_cookie_header_valid-IsCookieLine header h = (
  not_found-IsLine header (ground arith) (ground arith),
  to_lower-StartsLike (codes "set-cookie: ") header (ground arith),
)

pub IsCookieLine-http_set_cookie_header_valid :
    (header : Bytes) → IsCookieLine header → http_set_cookie_header_valid header ≡ true
unfolding http_set_cookie_header_valid
IsCookieLine-http_set_cookie_header_valid header ((a, b), h) =
    rw (Lacks-not_found 13 header a, Lacks-not_found 10 header b)
      (StartsLike-to_lower (codes "set-cookie: ") header h)

pub IsCookieLine-IsHeaderLine : (header : Bytes) → IsCookieLine header → IsHeaderLine header
IsCookieLine-IsHeaderLine [] (line, h) = absurd h
IsCookieLine-IsHeaderLine (c ∷ header) (line, h) = (line, omega arith)

pub http_status_line_clean-IsLine :
    (status_line : Bytes) → IsLine (http_status_line_clean status_line)
unfolding http_status_line_clean
http_status_line_clean-IsLine s =
    elim (Bool-cases (not (is_found (find (13 ∷ []) s)) && not (is_found (find (10 ∷ []) s)))) [
      | inl e ↦ rw e (not_found-IsLine s (ground arith) (ground arith))
      | inr e ↦ elim (Bool-cases (str_starts_with s (codes "HTTP/"))) [
        | inl h ↦
            rw (e, h)
              (not_found-IsLine (codes "HTTP/1.1 500 Internal Server Error")
                (unfold find starts in refl) (unfold find starts in refl))
        | inr h ↦
            rw (e, h)
              (not_found-IsLine (codes "Status: 500 Internal Server Error")
                (unfold find starts in refl) (unfold find starts in refl))
      ]
    ]

pub http_status_line_clean-IsStatusLine :
    (given : Bytes) → IsStatusLine given (http_status_line_clean given)
unfolding http_status_line_clean
http_status_line_clean-IsStatusLine s =
    elim (Bool-cases (not (is_found (find (13 ∷ []) s)) && not (is_found (find (10 ∷ []) s)))) [
      | inl e ↦ rw e (inl (not_found-IsLine s (ground arith) (ground arith), refl))
      | inr e ↦
          let broken : IsLine s → ⊥ = λ (a, b). both a b e in
          elim (Bool-cases (str_starts_with s (codes "HTTP/"))) [
            | inl h ↦ rw (e, h) (inr (broken, inl refl))
            | inr h ↦ rw (e, h) (inr (broken, inr refl))
          ]
    ]
  where
    both :
        Lacks 13 s
        → Lacks 10 s
        → (not (is_found (find (13 ∷ []) s)) && not (is_found (find (10 ∷ []) s))) ≡ false
        → ⊥
    both a b e = cc (e, Lacks-not_found 13 s a, Lacks-not_found 10 s b)
