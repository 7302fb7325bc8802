-- ===== src/Compiler/Markup/Fuel.antt =====
-- The depth of nested markup that src/lib/compiler-parser.cpp goes into is bounded by the length of the
-- content.
use uce.Base.{
  ℕ, zero, suc, ◌≤◌, ◌<◌, Bool, true, false, [], ◌∷◌, ◌++◌, ◌≡◌, refl, ap, ◌∙◌, ◌&&◌, ◌||◌, Bytes,
  length, drop, ◌==◌, if◌then◌else◌, codes, arith, length-drop,
}
use uce.Compiler.Code.{code_state_is_neutral, peek, capture_markup_literal}
use uce.Compiler.Code.Copies.{
  code_state_consume-copies, capture_markup_literal-copies, taken-le, le-if,
}
use uce.Compiler.Markup.{
  Markup, new_markup, append_text_literal_output, open_code, code_step, markup_step, markup_rounds,
  process_text_literal,
}

capture_markup_literal-le :
    (s : Bytes)
    → (length (capture_markup_literal s).0 ≤ length s)
      × (length (capture_markup_literal s).1 ≤ length s)
capture_markup_literal-le s = taken-le s (codes "</>") _ (capture_markup_literal-copies s)

tail-if :
    (b : Bool) (p q : ℕ × Bytes) (n : ℕ)
    → length p.1 ≤ n
    → length q.1 ≤ n
    → length (if b then p else q).1 ≤ n
tail-if true p q n hp hq = hp
tail-if false p q n hp hq = hq

open_code-le : (m : Markup) (s : Bytes) → length (open_code m s).1.1 ≤ length s
unfolding open_code
open_code-le m s =
    tail-if (peek (drop 1 s) == b'=' || peek (drop 1 s) == b':') _ _ (length s)
      (omega (arith, length-drop 2 s)) (omega (arith, length-drop 1 s))

code_step-le :
    (nested : Bytes → Bytes) (m : Markup) (before c : ℕ) (s : Bytes)
    → length (code_step nested m before c s).1.1 ≤ length s
unfolding code_step
code_step-le nested m before c s =
    le-if (code_state_is_neutral m.code_state && c == b'?' && peek s == b'>') _ _ (length s)
      (omega (arith, length-drop 1 s))
      (le-if (code_state_is_neutral m.code_state && c == b'<' && peek s == b'>') _ _ (length s)
        (omega (arith, length-drop 1 s, (capture_markup_literal-le (drop 1 s)).1))
        (code_state_consume-copies m.code_state before c s).1)

-- A round leaves less of the text than it was given.
markup_step-le :
    (nested : Bytes → Bytes) (m : Markup) (before c : ℕ) (s : Bytes)
    → length (markup_step nested m before c s).1.1 ≤ length s
unfolding markup_step
markup_step-le nested m before c s =
    le-if m.inside_code _ _ (length s) (code_step-le nested m before c s)
      (le-if (c == b'<' && peek s == b'?') _ _ (length s) (open_code-le m s) (omega arith))

module _ (f g : Bytes → Bytes) (bound : ℕ)
    (agree : (t : Bytes) → length t < bound → f t ≡ g t) where
  code_step-agree :
      (m : Markup) (before c : ℕ) (s : Bytes)
      → length s < bound
      → code_step f m before c s ≡ code_step g m before c s
  unfolding code_step
  code_step-agree m before c s h =
      rw
        (agree (capture_markup_literal (drop 1 s)).0
          (omega (arith, length-drop 1 s, (capture_markup_literal-le (drop 1 s)).0)))
        refl

  markup_step-agree :
      (m : Markup) (before c : ℕ) (s : Bytes)
      → length s < bound
      → markup_step f m before c s ≡ markup_step g m before c s
  unfolding markup_step
  markup_step-agree m before c s h =
      ap
        (λ step.
          if m.inside_code
          then step
          else if c == b'<' && peek s == b'?'
          then open_code m s
          else (record m { literal_buffer = m.literal_buffer ++ c ∷ [] }, (c, s)))
        (code_step-agree m before c s h)

  markup_rounds-agree :
      (fuel : ℕ) (m : Markup) (before : ℕ) (s : Bytes)
      → length s ≤ bound
      → markup_rounds f fuel m before s ≡ markup_rounds g fuel m before s
  unfolding markup_rounds
  markup_rounds-agree zero m before s h = refl
  markup_rounds-agree (suc fuel) m before [] h = refl
  markup_rounds-agree (suc fuel) m before (c ∷ s) h =
      ap (λ step. let (next, (last, rest)) = step in markup_rounds f fuel next last rest)
        (markup_step-agree m before c s (omega arith))
      ∙ markup_rounds-agree fuel _ _ _ (omega (arith, markup_step-le g m before c s))

-- Once the fuel exceeds the length of the content, more fuel changes nothing: markup in code, which
-- the function processes by calling itself, is shorter than the content that it stands in.
pub process_text_literal-fuel :
    (n m : ℕ) (content : Bytes)
    → length content < n
    → length content < m
    → process_text_literal n content ≡ process_text_literal m content
unfolding process_text_literal
process_text_literal-fuel zero m content h k = absurd (omega arith)
process_text_literal-fuel (suc n) zero content h k = absurd (omega arith)
process_text_literal-fuel (suc n) (suc m) content h k =
    ap (λ r. append_text_literal_output r.parsed_content r.literal_buffer)
      (markup_rounds-agree (process_text_literal n) (process_text_literal m) (length content)
        (λ t less. process_text_literal-fuel n m t (omega (arith, less)) (omega (arith, less)))
        (length content) new_markup 0 content (omega arith))
