-- ===== src/Compiler/Code/Scan.antt =====
-- The first `?>` that closes C++ code, as `compiler_capture_code_until_php_close` of
-- src/lib/compiler-parser.cpp looks for it.
use uce.Base.{ℕ, [], ◌∷◌, ◌++◌, ◌≡◌, ◌≢◌, refl, ap, ◌⊎◌, Option, none, some, Bytes, codes}

-- Where C++ code stands: in plain code, in a literal with that quote, or in a comment.
pub data Mode : Type 0 where
  in_plain : Mode
  quoted : ℕ → Mode
  in_line in_block : Mode

-- The text is not the two characters.
abbrev pub IsOther : ℕ → ℕ → ℕ → Bytes → Type 0
IsOther x y c s = (t : Bytes) → c ≡ x → s ≡ y ∷ t → ⊥

-- The reading of code up to the first `?>` in plain code: from a mode, behind a byte, a text is the code
-- and what stands behind the `?>`; that is `none` when the text ends before. A literal ends at its quote,
-- unless that stands behind a backslash; a comment at the end of the line or at `*/`.
pub data Scan : Mode → ℕ → Bytes → Bytes → Option Bytes → Type 0 where
  ended : (m : Mode) (before : ℕ) → Scan m before [] [] none
  closing : (before : ℕ) (rest : Bytes) → Scan in_plain before (codes "?>" ++ rest) [] (some rest)
  line_opens :
      (before : ℕ) (s code : Bytes) (r : Option Bytes)
      → Scan in_line b'/' s code r
      → Scan in_plain before (codes "//" ++ s) (codes "//" ++ code) r
  block_opens :
      (before : ℕ) (s code : Bytes) (r : Option Bytes)
      → Scan in_block b'*' s code r
      → Scan in_plain before (codes "/*" ++ s) (codes "/*" ++ code) r
  quote_opens :
      (before c : ℕ) (s code : Bytes) (r : Option Bytes)
      → (c ≡ 34) ⊎ (c ≡ 39)
      → Scan (quoted c) c s code r
      → Scan in_plain before (c ∷ s) (c ∷ code) r
  plain_char :
      (before c : ℕ) (s code : Bytes) (r : Option Bytes)
      → IsOther b'?' b'>' c s
      → IsOther b'/' b'/' c s
      → IsOther b'/' b'*' c s
      → c ≢ 34
      → c ≢ 39
      → Scan in_plain c s code r
      → Scan in_plain before (c ∷ s) (c ∷ code) r
  quote_closes :
      (before c : ℕ) (s code : Bytes) (r : Option Bytes)
      → before ≢ 92
      → Scan in_plain c s code r
      → Scan (quoted c) before (c ∷ s) (c ∷ code) r
  quoted_char :
      (quote before c : ℕ) (s code : Bytes) (r : Option Bytes)
      → (c ≢ quote) ⊎ (before ≡ 92)
      → Scan (quoted quote) c s code r
      → Scan (quoted quote) before (c ∷ s) (c ∷ code) r
  line_ends :
      (before : ℕ) (s code : Bytes) (r : Option Bytes)
      → Scan in_plain 10 s code r
      → Scan in_line before (10 ∷ s) (10 ∷ code) r
  line_char :
      (before c : ℕ) (s code : Bytes) (r : Option Bytes)
      → c ≢ 10
      → Scan in_line c s code r
      → Scan in_line before (c ∷ s) (c ∷ code) r
  block_ends :
      (before : ℕ) (s code : Bytes) (r : Option Bytes)
      → Scan in_plain b'/' s code r
      → Scan in_block before (codes "*/" ++ s) (codes "*/" ++ code) r
  block_char :
      (before c : ℕ) (s code : Bytes) (r : Option Bytes)
      → IsOther b'*' b'/' c s
      → Scan in_block c s code r
      → Scan in_block before (c ∷ s) (c ∷ code) r

-- The text that is not code.
abbrev pub tail : Option Bytes → Bytes
tail none = []
tail (some rest) = codes "?>" ++ rest

pub Scan-tail :
    (m : Mode) (before : ℕ) (s code : Bytes) (r : Option Bytes)
    → Scan m before s code r
    → s ≡ code ++ tail r
Scan-tail _ _ _ _ _ (ended k last) = refl
Scan-tail _ _ _ _ _ (closing before rest) = refl
Scan-tail _ _ _ _ _ (line_opens before s code r h) =
    ap (λ t. codes "//" ++ t) (Scan-tail _ _ s code r h)
Scan-tail _ _ _ _ _ (block_opens before s code r h) =
    ap (λ t. codes "/*" ++ t) (Scan-tail _ _ s code r h)
Scan-tail _ _ _ _ _ (quote_opens before c s code r e h) = ap (λ t. c ∷ t) (Scan-tail _ _ s code r h)
Scan-tail _ _ _ _ _ (plain_char before c s code r a b d e f h) =
    ap (λ t. c ∷ t) (Scan-tail _ _ s code r h)
Scan-tail _ _ _ _ _ (quote_closes before c s code r e h) =
    ap (λ t. c ∷ t) (Scan-tail _ _ s code r h)
Scan-tail _ _ _ _ _ (quoted_char quote before c s code r e h) =
    ap (λ t. c ∷ t) (Scan-tail _ _ s code r h)
Scan-tail _ _ _ _ _ (line_ends before s code r h) = ap (λ t. 10 ∷ t) (Scan-tail _ _ s code r h)
Scan-tail _ _ _ _ _ (line_char before c s code r e h) = ap (λ t. c ∷ t) (Scan-tail _ _ s code r h)
Scan-tail _ _ _ _ _ (block_ends before s code r h) =
    ap (λ t. codes "*/" ++ t) (Scan-tail _ _ s code r h)
Scan-tail _ _ _ _ _ (block_char before c s code r e h) = ap (λ t. c ∷ t) (Scan-tail _ _ s code r h)

-- How a text is captured: up to a `?>`, or to its end.
abbrev pub Captured : ℕ → Bytes → Bytes × Bytes → Type 0
Captured before s (code, rest) =
    ((s ≡ code ++ (codes "?>" ++ rest)) × Scan in_plain before s code (some rest))
    ⊎ ((s ≡ code) × (rest ≡ []) × Scan in_plain before s code none)
