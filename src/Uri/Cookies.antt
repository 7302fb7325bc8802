-- ===== src/Uri/Cookies.antt =====
-- `parse_cookies` of src/lib/uri.cpp, and the name and value that `set_cookie` writes.
use uce.Base.{
  ℕ, zero, suc, ◌-◌, ◌≤◌, Bool, true, false, List, [], ◌∷◌, ◌++◌, ◌≡◌, ◌≢◌, refl, ap, sym, ◌∙◌,
  Bytes, length, leb, append_assoc, length-append, arith, codes, All, Lacks, take-length,
}
use uce.Base.Chars.{is_space}
use uce.Base.Maps.{StringMap, insert}
use uce.Text.Nibble.{nibble, nibble_at, nibble_whole}
use uce.Text.Trim.{trim, front, back, trim-strip, strip_fixed}

-- Every round takes a byte at least.
unfoldable pub cookies_loop : ℕ → Bytes → StringMap → StringMap
cookies_loop fuel [] result = result
cookies_loop zero (c ∷ s) result = result
cookies_loop (suc fuel) (c ∷ s) result =
    let (key, rest) = nibble (codes "=") (c ∷ s) in
    let (value, later) = nibble (codes ";") rest in
    cookies_loop fuel later (insert (trim key) value result)

unfoldable pub parse_cookies : Bytes → StringMap
parse_cookies cookie_string = cookies_loop (length cookie_string) cookie_string []

-- The header `Cookie` of a browser: the pairs with a semicolon and a space between them.
unfoldable pub cookie_text : List (Bytes × Bytes) → Bytes
cookie_text [] = []
cookie_text ((name, value) ∷ []) = name ++ (b'=' ∷ value)
cookie_text ((name, value) ∷ c ∷ cookies) =
    name ++ (b'=' ∷ (value ++ (codes "; " ++ cookie_text (c ∷ cookies))))

unfoldable pub cookie_map : List (Bytes × Bytes) → StringMap → StringMap
cookie_map [] result = result
cookie_map ((name, value) ∷ cookies) result = cookie_map cookies (insert name value result)

-- A name without white space and `=`, and a value without `;`.
abbrev pub IsCookie : Bytes × Bytes → Type 0
IsCookie (name, value) = All (λ c. is_space c ≡ false) name × Lacks b'=' name × Lacks b';' value

back_plain : (s : Bytes) → All (λ c. is_space c ≡ false) s → back is_space s ≡ length s
unfolding back
back_plain [] h = refl
back_plain (c ∷ s) (p, h) = rw (p, back_plain s h) (ground arith)

front_plain : (s : Bytes) → All (λ c. is_space c ≡ false) s → front is_space s ≡ 0
unfolding front
front_plain [] h = refl
front_plain (c ∷ s) (p, h) = rw p refl

trim_plain : (s : Bytes) → All (λ c. is_space c ≡ false) s → trim s ≡ s
trim_plain s h = trim-strip s ∙ strip_fixed is_space s (front_plain s h) (back_plain s h)

back_space : (s : Bytes) (k : ℕ) → back is_space s ≡ suc k → back is_space (b' ' ∷ s) ≡ suc (suc k)
unfolding back
back_space s k h = rw h (ground arith)

front_space : (s : Bytes) → front is_space s ≡ 0 → front is_space (b' ' ∷ s) ≡ 1
unfolding front is_space
front_space s h = ap suc h

trim_space : (s : Bytes) → All (λ c. is_space c ≡ false) s → trim (b' ' ∷ s) ≡ s
unfolding trim
trim_space [] h = unfold front back is_space in refl
trim_space (c ∷ s) h =
    let more : leb (suc (suc (length s))) 1 ≡ false = ground arith in
    let less : suc (suc (length s)) - 1 ≡ suc (length s) = omega arith in
    rw
      (
        trim,
        back_space (c ∷ s) (length s) (back_plain (c ∷ s) h),
        front_space (c ∷ s) (front_plain (c ∷ s) h),
        more,
        less,
      )
      (take-length (c ∷ s))

-- Behind the first cookie, a space is left in front of the name.
abbrev lead : Bool → Bytes
lead true = []
lead false = codes " "

trim-lead :
    (first : Bool) (name : Bytes)
    → All (λ c. is_space c ≡ false) name
    → trim (lead first ++ name) ≡ name
trim-lead true name h = trim_plain name h
trim-lead false name h = trim_space name h

lead-Lacks : (first : Bool) (name : Bytes) → Lacks b'=' name → Lacks b'=' (lead first ++ name)
lead-Lacks true name h = h
lead-Lacks false name h = ((λ e. space_ne b' ' refl e), h)
  where
    space_ne : (c : ℕ) → c ≡ b' ' → c ≡ b'=' → ⊥
    space_ne c e f = omega arith

loop_round :
    (fuel : ℕ) (s key rest value later : Bytes) (result : StringMap)
    → s ≢ []
    → nibble (codes "=") s ≡ (key, rest)
    → nibble (codes ";") rest ≡ (value, later)
    → cookies_loop (suc fuel) s result ≡ cookies_loop fuel later (insert (trim key) value result)
unfolding cookies_loop
loop_round fuel [] key rest value later result ne h k = absurd (ne refl)
loop_round fuel (c ∷ s) key rest value later result ne h k =
    ap
      (λ z.
        cookies_loop fuel (nibble (codes ";") z.1).1
          (insert (trim z.0) (nibble (codes ";") z.1).0 result))
      h
    ∙ ap (λ z. cookies_loop fuel z.1 (insert (trim key) z.0 result)) k

loop_end : (fuel : ℕ) (result : StringMap) → cookies_loop fuel [] result ≡ result
unfolding cookies_loop
loop_end zero result = refl
loop_end (suc fuel) result = refl

middle_ne : (p : Bytes) (c : ℕ) (r : Bytes) → p ++ c ∷ r ≢ []
middle_ne [] c r h = cc h
middle_ne (d ∷ p) c r h = cc h

cookies_loop-cookie_text :
    (cookies : List (Bytes × Bytes)) (c : Bytes × Bytes) (fuel : ℕ) (first : Bool)
    (result : StringMap)
    → All IsCookie (c ∷ cookies)
    → length (c ∷ cookies) ≤ fuel
    → cookies_loop fuel (lead first ++ cookie_text (c ∷ cookies)) result
      ≡ cookie_map (c ∷ cookies) result
unfolding cookie_text cookie_map
cookies_loop-cookie_text cookies c zero first result a h = absurd (omega arith)
cookies_loop-cookie_text [] (name, value) (suc fuel) first result ((plain, eq, semi), a) h =
    let key : Bytes = lead first ++ name in
    ap (λ x. cookies_loop (suc fuel) x result) (sym (append_assoc (lead first) name (b'=' ∷ value)))
    ∙ loop_round fuel (key ++ b'=' ∷ value) key value value [] result (middle_ne key b'=' value)
        (nibble_at b'=' key value (lead-Lacks first name eq)) (nibble_whole b';' value semi)
    ∙ loop_end fuel _
    ∙ ap (λ k. insert k value result) (trim-lead first name plain)
cookies_loop-cookie_text (d ∷ cookies) (name, value) (suc fuel) first result ((plain, eq, semi), a)
      h =
    let key : Bytes = lead first ++ name in
    let later : Bytes = lead false ++ cookie_text (d ∷ cookies) in
    let rest : Bytes = value ++ b';' ∷ later in
    ap (λ x. cookies_loop (suc fuel) x result) (sym (append_assoc (lead first) name (b'=' ∷ rest)))
    ∙ loop_round fuel (key ++ b'=' ∷ rest) key rest value later result (middle_ne key b'=' rest)
        (nibble_at b'=' key rest (lead-Lacks first name eq)) (nibble_at b';' value later semi)
    ∙ ap (λ k. cookies_loop fuel later (insert k value result)) (trim-lead first name plain)
    ∙ cookies_loop-cookie_text cookies d fuel false (insert name value result) a (omega arith)

long_enough : (cookies : List (Bytes × Bytes)) → length cookies ≤ length (cookie_text cookies)
unfolding cookie_text
long_enough [] = omega arith
long_enough ((name, value) ∷ []) = rw (length-append name (b'=' ∷ value)) (omega arith)
long_enough ((name, value) ∷ c ∷ cookies) =
    let later = long_enough (c ∷ cookies) in
    let rest : Bytes = codes "; " ++ cookie_text (c ∷ cookies) in
    rw (length-append name (b'=' ∷ (value ++ rest)), length-append value rest) (omega arith)

-- Each cookie of a browser's header is in the result under its name, with its value as it stands in the
-- header: an escape in it is not decoded. No name has white space or `=`, and no value `;`.
pub parse_cookies-cookie_text :
    (cookies : List (Bytes × Bytes))
    → All IsCookie cookies
    → parse_cookies (cookie_text cookies) ≡ cookie_map cookies []
unfolding parse_cookies
parse_cookies-cookie_text [] a = unfold cookie_map cookie_text cookies_loop in refl
parse_cookies-cookie_text (c ∷ cookies) a =
    cookies_loop-cookie_text cookies c (length (cookie_text (c ∷ cookies))) true [] a
      (long_enough (c ∷ cookies))
