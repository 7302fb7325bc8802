-- ===== src/Compiler/Code/Closing.antt =====
-- Where `compiler_capture_code_until_php_close` of src/lib/compiler-parser.cpp ends.
use uce.Base.{
  ℕ, zero, suc, ◌≤◌, true, false, [], ◌∷◌, ◌++◌, ◌≡◌, ◌≢◌, refl, ap, sym, ◌∙◌, ◌⊎◌, inl, inr, ◌&&◌,
  ◌||◌, not, Option, none, some, Bytes, length, drop, ◌==◌, arith, append_assoc, append-nil,
  length-drop, Bool-cases, ==→eq,
}
use mathlib.Core.Path.{subst}
use uce.Compiler.Code.{
  CodeState, new_state, code_state_is_neutral, peek, consumed, code_state_consume,
  capture_code_loop, capture_code_until_php_close,
}
use uce.Compiler.Code.Scan.{
  Mode, in_plain, quoted, in_line, in_block, IsOther, Scan, ended, closing, line_opens, block_opens,
  quote_opens, plain_char, quote_closes, quoted_char, line_ends, line_char, block_ends, block_char,
  Scan-tail, Captured,
}

-- The state of the compiler in a mode, with the quote of an earlier literal.
abbrev state_of : Mode → ℕ → CodeState
state_of in_plain q = record new_state { quote_char = q }
state_of (quoted quote) q = record new_state { quote_char = quote; inside_quote = true }
state_of in_line q = record new_state { quote_char = q; inside_line_comment = true }
state_of in_block q = record new_state { quote_char = q; inside_block_comment = true }

abbrev pub rest_of : Option Bytes → Bytes
rest_of none = []
rest_of (some rest) = rest

-- What a loop that began with a buffer has read.
abbrev Scanned : Mode → ℕ → Bytes → Bytes → Bytes × Bytes → Type 0
Scanned m before buffer s (grown, rest) =
    (code : Bytes) × (r : Option Bytes) × Scan m before s code r
    × (grown ≡ buffer ++ code)
    × (rest ≡ rest_of r)

Scanned-more :
    (m k : Mode) (before last : ℕ) (buffer copied left s : Bytes) (w : Bytes × Bytes)
    → ((code : Bytes) (r : Option Bytes)
        → Scan k last left code r
        → Scan m before s (copied ++ code) r)
    → Scanned k last (buffer ++ copied) left w
    → Scanned m before buffer s w
Scanned-more m k before last buffer copied left s (grown, rest) f (code, r, h, g, e) =
    (copied ++ code, r, f code r h, g ∙ append_assoc buffer copied code, e)

-- Two characters are there, or not.
two_lem :
    (x y c : ℕ) (s : Bytes)
    → y ≢ 0
    → (((c == x && peek s == y) ≡ true) × (c ∷ s ≡ x ∷ y ∷ drop 1 s) × (c ≡ x) × (peek s ≡ y))
      ⊎ (((c == x && peek s == y) ≡ false) × IsOther x y c s)
two_lem x y c [] some_y = elim (Bool-cases (c == x && 0 == y)) [
  | inl e ↦ absurd (ground arith)
  | inr e ↦ inr (e, λ t p q. cc q)
]
two_lem x y c (d ∷ s) some_y = elim (Bool-cases (c == x && d == y)) [
  | inl e ↦
      let p : c ≡ x = ground arith in let q : d ≡ y = ground arith in inl (e, rw (p, q) refl, p, q)
  | inr e ↦ inr (e, λ t p q. let d_y : d ≡ y = ap peek q in ground arith)
]

quote_lem :
    (c : ℕ)
    → (((c == 34 || c == 39) ≡ true) × ((c ≡ 34) ⊎ (c ≡ 39)))
      ⊎ (((c == 34 || c == 39) ≡ false) × (c ≢ 34) × (c ≢ 39))
quote_lem c = ground arith

quote_end_lem :
    (quote before c : ℕ)
    → (((quote == c && not (before == 92)) ≡ true) × (quote ≡ c) × (before ≢ 92))
      ⊎ (((quote == c && not (before == 92)) ≡ false) × ((c ≢ quote) ⊎ (before ≡ 92)))
quote_end_lem quote before c = ground arith

capture_code_loop-Scanned :
    (fuel : ℕ) (m : Mode) (q before : ℕ) (buffer s : Bytes)
    → length s ≤ fuel
    → Scanned m before buffer s (capture_code_loop fuel (state_of m q) before buffer s)
unfolding capture_code_loop code_state_consume consumed code_state_is_neutral
capture_code_loop-Scanned zero m q before buffer [] h =
    ([], none, ended m before, sym (append-nil buffer), refl)
capture_code_loop-Scanned (suc fuel) m q before buffer [] h =
    ([], none, ended m before, sym (append-nil buffer), refl)
capture_code_loop-Scanned zero m q before buffer (c ∷ s) h = absurd (omega arith)
capture_code_loop-Scanned (suc fuel) (quoted quote) q before buffer (c ∷ s) h =
    elim (quote_end_lem quote before c) [
      | inl (e, same, ne) ↦
          rw (e, capture_code_loop)
            (Scanned-more (quoted quote) in_plain before c buffer (c ∷ []) s (c ∷ s) _
              (λ code r k.
                subst (λ x. Scan (quoted x) before (c ∷ s) (c ∷ code) r) (sym same)
                  (quote_closes before c s code r ne k))
              (capture_code_loop-Scanned fuel in_plain quote c (buffer ++ c ∷ []) s (omega arith)))
      | inr (e, other) ↦
          rw (e, capture_code_loop)
            (Scanned-more (quoted quote) (quoted quote) before c buffer (c ∷ []) s (c ∷ s) _
              (λ code r k. quoted_char quote before c s code r other k)
              (capture_code_loop-Scanned fuel (quoted quote) q c (buffer ++ c ∷ []) s
                (omega arith)))
    ]
capture_code_loop-Scanned (suc fuel) in_line q before buffer (c ∷ s) h =
    elim (Bool-cases (c == 10)) [
      | inl e ↦
          let same : c ≡ 10 = ==→eq c 10 e in
          rw (e, capture_code_loop)
            (Scanned-more in_line in_plain before c buffer (c ∷ []) s (c ∷ s) _
              (λ code r k.
                subst (λ x. Scan in_plain x s code r → Scan in_line before (x ∷ s) (x ∷ code) r)
                  (sym same) (line_ends before s code r) k)
              (capture_code_loop-Scanned fuel in_plain q c (buffer ++ c ∷ []) s (omega arith)))
      | inr e ↦
          rw (e, capture_code_loop)
            (Scanned-more in_line in_line before c buffer (c ∷ []) s (c ∷ s) _
              (λ code r k. line_char before c s code r (λ same. ground arith) k)
              (capture_code_loop-Scanned fuel in_line q c (buffer ++ c ∷ []) s (omega arith)))
    ]
capture_code_loop-Scanned (suc fuel) in_block q before buffer (c ∷ s) h =
    elim (two_lem b'*' b'/' c s (λ e. omega arith)) [
      | inl (e, shape, first, second) ↦
          rw (e, capture_code_loop)
            (Scanned-more in_block in_plain before (peek s) buffer (c ∷ peek s ∷ []) (drop 1 s)
              (c ∷ s) _
              (λ code r k.
                subst (λ t. Scan in_block before t (c ∷ peek s ∷ code) r) (sym shape)
                  (rw (first, second) (block_ends before (drop 1 s) code r (rw second at k))))
              (capture_code_loop-Scanned fuel in_plain q (peek s) (buffer ++ c ∷ peek s ∷ [])
                (drop 1 s) (omega (arith, length-drop 1 s))))
      | inr (e, other) ↦
          rw (e, capture_code_loop)
            (Scanned-more in_block in_block before c buffer (c ∷ []) s (c ∷ s) _
              (λ code r k. block_char before c s code r other k)
              (capture_code_loop-Scanned fuel in_block q c (buffer ++ c ∷ []) s (omega arith)))
    ]
capture_code_loop-Scanned (suc fuel) in_plain q before buffer (c ∷ s) h =
    elim (two_lem b'?' b'>' c s (λ e. omega arith)) [
      | inl (e, shape, _, _) ↦
          rw (e, capture_code_loop)
            (
              [],
              some (drop 1 s),
              subst (λ t. Scan in_plain before t [] (some (drop 1 s))) (sym shape)
                  (closing before (drop 1 s)),
              sym (append-nil buffer),
              refl,
            )
      | inr (e0, other0) ↦ elim (two_lem b'/' b'/' c s (λ e. omega arith)) [
        | inl (e, shape, first, second) ↦
            rw (e0, e, capture_code_loop)
              (Scanned-more in_plain in_line before (peek s) buffer (c ∷ peek s ∷ []) (drop 1 s)
                (c ∷ s) _
                (λ code r k.
                  subst (λ t. Scan in_plain before t (c ∷ peek s ∷ code) r) (sym shape)
                    (rw (first, second) (line_opens before (drop 1 s) code r (rw second at k))))
                (capture_code_loop-Scanned fuel in_line q (peek s) (buffer ++ c ∷ peek s ∷ [])
                  (drop 1 s) (omega (arith, length-drop 1 s))))
        | inr (e1, other1) ↦ elim (two_lem b'/' b'*' c s (λ e. omega arith)) [
          | inl (e, shape, first, second) ↦
              rw (e0, e1, e, capture_code_loop)
                (Scanned-more in_plain in_block before (peek s) buffer (c ∷ peek s ∷ []) (drop 1 s)
                  (c ∷ s) _
                  (λ code r k.
                    subst (λ t. Scan in_plain before t (c ∷ peek s ∷ code) r) (sym shape)
                      (rw (first, second) (block_opens before (drop 1 s) code r (rw second at k))))
                  (capture_code_loop-Scanned fuel in_block q (peek s) (buffer ++ c ∷ peek s ∷ [])
                    (drop 1 s) (omega (arith, length-drop 1 s))))
          | inr (e2, other2) ↦ elim (quote_lem c) [
            | inl (e, quote) ↦
                rw (e0, e1, e2, e, capture_code_loop)
                  (Scanned-more in_plain (quoted c) before c buffer (c ∷ []) s (c ∷ s) _
                    (λ code r k. quote_opens before c s code r quote k)
                    (capture_code_loop-Scanned fuel (quoted c) q c (buffer ++ c ∷ []) s
                      (omega arith)))
            | inr (e, no_double, no_single) ↦
                rw (e0, e1, e2, e, capture_code_loop)
                  (Scanned-more in_plain in_plain before c buffer (c ∷ []) s (c ∷ s) _
                    (λ code r k.
                      plain_char before c s code r other0 other1 other2 no_double no_single k)
                    (capture_code_loop-Scanned fuel in_plain q c (buffer ++ c ∷ []) s
                      (omega arith)))
          ]
        ]
      ]
    ]

Scanned-Captured :
    (before : ℕ) (s : Bytes) (w : Bytes × Bytes)
    → Scanned in_plain before [] s w
    → Captured before s w
Scanned-Captured before s (grown, rest) (code, none, h, g, e) =
    rw g (inr (Scan-tail in_plain before s code none h ∙ append-nil code, e, h))
Scanned-Captured before s (grown, rest) (code, some behind, h, g, e) =
    rw (g, e) (inl (Scan-tail in_plain before s code (some behind) h, h))

-- What `compiler_capture_code_until_php_close` takes ends at the first `?>` that stands in plain code, in
-- no literal of characters and in no comment: it is the code up to there as it is, and the rest is what
-- stands behind the `?>`. Where there is no such `?>`, the whole text is taken and the rest is empty. A
-- literal ends at its quote, unless that stands behind a backslash; a comment at the end of the line or
-- at `*/`.
pub capture_code_until_php_close-Captured :
    (before : ℕ) (s : Bytes) → Captured before s (capture_code_until_php_close before s)
unfolding capture_code_until_php_close
capture_code_until_php_close-Captured before s =
    Scanned-Captured before s _
      (capture_code_loop-Scanned (length s) in_plain 0 before [] s (omega arith))
