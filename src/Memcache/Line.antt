-- ===== src/Memcache/Line.antt =====
-- The line of a command that stores a value.
use uce.Base.{
  ℕ, zero, suc, ◌+◌, ◌%◌, ◌/◌, ◌≤◌, ◌<◌, Bool, true, false, [], ◌∷◌, ◌++◌, ◌≡◌, ◌≢◌, ◌⊎◌, inl, inr,
  refl, ap, ap₂, ◌∙◌, none, some, Bytes, length, drop, find, starts, arith, codes, All, All-append,
  Lacks, find_byte_none→Lacks, ltb, if◌then◌else◌, take-length_append,
}
use uce.Base.Chars.{is_space}
use uce.Fastcgi.Response.{digits}
use uce.Text.Nibble.{nibble}
use uce.Text.Split.{split, split_at, split_none}
use uce.Memcache.{memcache_escape_key, set_line, set_command}

find_crlf :
    (p r : Bytes) → Lacks 13 p → find (codes "\r\n") (p ++ (codes "\r\n" ++ r)) ≡ some (length p)
unfolding find starts
find_crlf [] r h = refl
find_crlf (c ∷ p) r (ne, h) = rw (find_crlf p r h) (ground arith)

pub drop_line : (p r : Bytes) → drop (length p + 2) (p ++ (codes "\r\n" ++ r)) ≡ r
drop_line [] r = refl
drop_line (c ∷ p) r =
    let later : Bytes = c ∷ (p ++ (codes "\r\n" ++ r)) in
    let n : suc (length p) + 2 ≡ suc (length p + 2) = omega arith in
    ap (λ i. drop i later) n ∙ drop_line p r

-- A line ends where the first carriage return stands.
pub nibble_crlf :
    (p r : Bytes) → Lacks 13 p → nibble (codes "\r\n") (p ++ (codes "\r\n" ++ r)) ≡ (p, r)
unfolding nibble
nibble_crlf p r h =
    rw (nibble, find_crlf p r h) (ap₂ (λ x y. (x, y)) (take-length_append p _) (drop_line p r))

-- A text with `_` for each space and for each of the bytes 9 to 13.
abbrev pub Exchanged : Bytes → Bytes → Type 0
Exchanged [] word = word ≡ []
Exchanged (c ∷ key) [] = ⊥
Exchanged (c ∷ key) (d ∷ word) =
    ((((c ≡ 32) ⊎ ((9 ≤ c) × (c ≤ 13))) × (d ≡ b'_')) ⊎ ((c ≢ 32) × ((c < 9) ⊎ (13 < c)) × (d ≡ c)))
    × Exchanged key word

memcache_escape_key-Exchanged : (key : Bytes) → Exchanged key (memcache_escape_key key)
unfolding memcache_escape_key is_space
memcache_escape_key-Exchanged [] = refl
memcache_escape_key-Exchanged (c ∷ key) =
    let later = memcache_escape_key-Exchanged key in (ground arith, later)

-- No byte of an escaped key is white space.
pub memcache_escape_key-All :
    (key : Bytes) → All (λ c. is_space c ≡ false) (memcache_escape_key key)
unfolding memcache_escape_key is_space
memcache_escape_key-All [] = tt
memcache_escape_key-All (c ∷ key) = (one (is_space c) refl, memcache_escape_key-All key)
  where
    one : (b : Bool) → is_space c ≡ b → is_space (if b then b'_' else c) ≡ false
    one true e = refl
    one false e = e

-- The characters of a number.
abbrev pub IsFigure : ℕ → Type 0
IsFigure c = (b'0' ≤ c) × (c ≤ b'9')

pub digits-All : (fuel n : ℕ) → All IsFigure (digits fuel n)
unfolding digits
digits-All zero n = tt
digits-All (suc fuel) n =
    let small : n % 10 < 10 = omega arith in
    All-append IsFigure (if ltb n 10 then [] else digits fuel (n / 10)) _
      (chosen (ltb n 10) (digits fuel (n / 10)) (digits-All fuel (n / 10)))
      ((omega arith, omega arith), tt)
  where
    chosen : (b : Bool) (s : Bytes) → All IsFigure s → All IsFigure (if b then [] else s)
    chosen true s h = tt
    chosen false s h = h

pub figures_lack : (b : ℕ) (s : Bytes) → All IsFigure s → (b < b'0') ⊎ (b'9' < b) → Lacks b s
figures_lack b [] h k = tt
figures_lack b (c ∷ s) ((lo, hi), h) k = (λ e. differ c lo hi k e, figures_lack b s h k)
  where
    differ : (c : ℕ) → b'0' ≤ c → c ≤ b'9' → (b < b'0') ⊎ (b'9' < b) → c ≡ b → ⊥
    differ c lo hi (inl k) e = omega arith
    differ c lo hi (inr k) e = omega arith

spaces_lack : (b : ℕ) (s : Bytes) → All (λ c. is_space c ≡ false) s → is_space b ≡ true → Lacks b s
spaces_lack b [] h k = tt
spaces_lack b (c ∷ s) (p, h) k = (λ e. cc (p, k, ap is_space e), spaces_lack b s h k)

space : is_space 32 ≡ true
unfolding is_space
space = refl

return : is_space 13 ≡ true
unfolding is_space
return = refl

feed : is_space 10 ≡ true
unfolding is_space
feed = refl

memcache_escape_key_cons : (key : Bytes) → key ≢ [] → memcache_escape_key key ≢ []
unfolding memcache_escape_key
memcache_escape_key_cons [] h e = h refl
memcache_escape_key_cons (c ∷ key) h e = cc e

digits_cons : (n : ℕ) → digits 20 n ≢ []
unfolding digits
digits_cons n = behind _ _
  where
    behind : (s : Bytes) (c : ℕ) → s ++ c ∷ [] ≢ []
    behind [] c e = cc e
    behind (x ∷ s) c e = cc e

module _ (b : ℕ) (key : Bytes) (expires_in size : ℕ) where
  -- A byte of white space but the space itself, which no part of the line holds.
  set_line-Lacks :
      find (b ∷ []) (codes "set ") ≡ none
      → find (b ∷ []) (codes " 0 ") ≡ none
      → find (b ∷ []) (codes " ") ≡ none
      → is_space b ≡ true
      → b < b'0'
      → Lacks b (set_line key expires_in size)
  unfolding set_line
  set_line-Lacks f g h white low =
      All-append (λ c. c ≢ b) (codes "set ") _ (find_byte_none→Lacks b (codes "set ") f)
        (All-append (λ c. c ≢ b) (memcache_escape_key key) _
          (spaces_lack b (memcache_escape_key key) (memcache_escape_key-All key) white)
          (All-append (λ c. c ≢ b) (codes " 0 ") _ (find_byte_none→Lacks b (codes " 0 ") g)
            (All-append (λ c. c ≢ b) (digits 20 expires_in) _
              (figures_lack b (digits 20 expires_in) (digits-All 20 expires_in) (inl low))
              (All-append (λ c. c ≢ b) (codes " ") _ (find_byte_none→Lacks b (codes " ") h)
                (figures_lack b (digits 20 size) (digits-All 20 size) (inl low))))))

-- A server reads the command to store a value as one line of five words and the value, whether a
-- line ends at a line feed or at a carriage return with one: the line itself holds neither. For a key
-- that is not empty no word is empty: they are `set`, the key with each byte of white space exchanged
-- for `_`, 0, the time and the length of the value.
pub set_command_lem :
    (key value : Bytes) (expires_in : ℕ)
    → key ≢ []
    → let line = set_line key expires_in (length value) in
      (set_command key value expires_in ≡ line ++ (codes "\r\n" ++ (value ++ codes "\r\n")))
      × Lacks 10 line
      × Lacks 13 line
      × (nibble (codes "\r\n") (set_command key value expires_in) ≡ (line, value ++ codes "\r\n"))
      × (split line (codes " ")
          ≡ codes "set"
            ∷ memcache_escape_key key
            ∷ codes "0"
            ∷ digits 20 expires_in
            ∷ digits 20 (length value)
            ∷ [])
      × Exchanged key (memcache_escape_key key)
      × All (λ word. word ≢ []) (split line (codes " "))
unfolding set_command set_line find starts
set_command_lem key value expires_in some_key = (
  refl,
  set_line-Lacks 10 key expires_in (length value) refl refl refl feed (omega arith),
  no_return,
  nibble_crlf (set_line key expires_in (length value)) (value ++ codes "\r\n") no_return,
  words,
  memcache_escape_key-Exchanged key,
  rw words (
    λ e. cc e,
    (
      memcache_escape_key_cons key some_key,
      (λ e. cc e, (digits_cons expires_in, (digits_cons (length value), tt))),
    ),
  ),
)
  where
    k : Bytes
    k = memcache_escape_key key

    time : Bytes
    time = digits 20 expires_in

    size : Bytes
    size = digits 20 (length value)

    no_return : Lacks 13 (set_line key expires_in (length value))
    no_return = set_line-Lacks 13 key expires_in (length value) refl refl refl return (omega arith)

    words :
        split (set_line key expires_in (length value)) (codes " ")
        ≡ codes "set" ∷ k ∷ codes "0" ∷ time ∷ size ∷ []
    words =
        split_at 32 (codes "set") (k ++ (codes " 0 " ++ (time ++ (codes " " ++ size))))
          (find_byte_none→Lacks 32 (codes "set") refl)
        ∙ ap (λ x. codes "set" ∷ x)
            (split_at 32 k (codes "0 " ++ (time ++ (codes " " ++ size)))
                (spaces_lack 32 k (memcache_escape_key-All key) space)
              ∙ ap (λ x. k ∷ x)
                  (split_at 32 (codes "0") (time ++ (codes " " ++ size))
                      (find_byte_none→Lacks 32 (codes "0") refl)
                    ∙ ap (λ x. codes "0" ∷ x)
                        (split_at 32 time size
                            (figures_lack 32 time (digits-All 20 expires_in) (inl (omega arith)))
                          ∙ ap (λ x. time ∷ x)
                              (split_none 32 size (
                                figures_lack 32 size (digits-All 20 (length value))
                                  (inl (omega arith)))))))
