-- ===== src/Compiler/Fragment/Plain.antt =====
-- The lines that `compiler_rewrite_fragment_attributes` leaves as they are, and those it writes twice.
use uce.Base.{
  ℕ, zero, suc, ◌≤◌, true, false, List, [], ◌∷◌, ◌++◌, ◌≡◌, refl, sym, ap, ◌∙◌, none, some, Bytes,
  length, equal, find, codes, arith, All, append_assoc, append-nil,
}
use uce.Compiler.Fragment.{
  line_starts_fragmentable_entrypoint, break_before, is_fragment_attr, fragment_attrs, body_lines,
  captured, entrypoint_lines, fragment_lines, rewrite_fragment_attributes,
}
use uce.Text.Split.{split, join, join_cons, join_one, join-split, split-cons}
use uce.Text.Trim.{trim}

-- The lines with breaks between them.
unfoldable pub joined : List Bytes → Bytes
joined [] = []
joined (line ∷ lines) = line ++ (break_before lines ++ joined lines)

joined-join :
    (line : Bytes) (lines : List Bytes) → join (line ∷ lines) (codes "\n") ≡ joined (line ∷ lines)
unfolding joined
joined-join line [] = join_one line (codes "\n") ∙ sym (append-nil line)
joined-join line (next ∷ lines) =
    join_cons line next lines (codes "\n")
    ∙ ap (λ s. line ++ (codes "\n" ++ s)) (joined-join next lines)

joined-split : (content : Bytes) → joined (split content (codes "\n")) ≡ content
joined-split content =
    let (t, l, e) = split-cons content (codes "\n") in
    ap joined e
    ∙ sym (joined-join t l)
    ∙ ap (λ ls. join ls (codes "\n")) (sym e)
    ∙ join-split content (codes "\n")

-- A line that starts no entry point that can be a fragment.
abbrev pub IsPlainLine : Bytes → Type 0
IsPlainLine line = line_starts_fragmentable_entrypoint (trim line) ≡ none

pub fragment_lines-plain :
    (fuel : ℕ) (lines : List Bytes)
    → length lines ≤ fuel
    → All IsPlainLine lines
    → fragment_lines fuel lines ≡ joined lines
unfolding fragment_lines joined
fragment_lines-plain zero [] h p = refl
fragment_lines-plain zero (line ∷ lines) h p = absurd (omega arith)
fragment_lines-plain (suc fuel) [] h p = refl
fragment_lines-plain (suc fuel) (line ∷ lines) h (plain, p) =
    rw (plain, fragment_lines)
      (ap (λ s. line ++ (break_before lines ++ s))
        (fragment_lines-plain fuel lines (omega arith) p))

-- A unit without a line that starts such an entry point is left as it is.
pub rewrite_fragment_attributes-plain :
    (content : Bytes)
    → All IsPlainLine (split content (codes "\n"))
    → rewrite_fragment_attributes content ≡ content
unfolding rewrite_fragment_attributes
rewrite_fragment_attributes-plain content p =
    fragment_lines-plain _ (split content (codes "\n")) (omega arith) p ∙ joined-split content

fragment_attrs-none :
    (slot next : Bytes) (lines : List Bytes)
    → is_fragment_attr (trim next) ≡ false
    → fragment_attrs slot false (next ∷ lines) ≡ (slot, (false, next ∷ lines))
unfolding fragment_attrs
fragment_attrs-none slot next lines e = rw (e, fragment_attrs) refl

-- Lines without a brace are written, and the loop has not moved on.
abbrev HasNoBrace : Bytes → Type 0
HasNoBrace line = find (codes "{") line ≡ none

body_lines-open :
    (slot : Bytes) (lines : List Bytes)
    → All HasNoBrace lines
    → body_lines slot lines ≡ (joined lines, none)
unfolding body_lines joined
body_lines-open slot [] h = refl
body_lines-open slot (line ∷ lines) (e, h) = rw (e, body_lines, body_lines-open slot lines h) refl

captured-open :
    (line next : Bytes) (lines : List Bytes)
    → HasNoBrace line
    → All HasNoBrace (next ∷ lines)
    → captured true line (codes "once") false (next ∷ lines) (next ∷ lines)
      ≡ (line ++ (codes "\n" ++ joined (next ∷ lines)), next ∷ lines)
unfolding captured equal
captured-open line next lines no_brace opened =
    rw (no_brace, captured, body_lines-open (codes "once") (next ∷ lines) opened) refl

entrypoint_lines-open :
    (line next : Bytes) (lines : List Bytes)
    → is_fragment_attr (trim next) ≡ false
    → HasNoBrace line
    → All HasNoBrace (next ∷ lines)
    → entrypoint_lines (codes "ONCE") line (next ∷ lines)
      ≡ (line ++ (codes "\n" ++ joined (next ∷ lines)), next ∷ lines)
unfolding entrypoint_lines equal
entrypoint_lines-open line next lines attr no_brace opened =
    ap (λ w. captured true line w.0 w.1.0 w.1.1 (next ∷ lines))
      (fragment_attrs-none (codes "once") next lines attr)
    ∙ captured-open line next lines no_brace opened

-- A `ONCE` whose declaration has no brace, with lines behind it that have none, that start no entry
-- point and of which the first is no `@fragment` line: these lines are written twice.
pub fragment_lines-twice :
    (fuel : ℕ) (line next : Bytes) (lines : List Bytes)
    → suc (length lines) ≤ fuel
    → line_starts_fragmentable_entrypoint (trim line) ≡ some (codes "ONCE")
    → is_fragment_attr (trim next) ≡ false
    → HasNoBrace line
    → All HasNoBrace (next ∷ lines)
    → All IsPlainLine (next ∷ lines)
    → fragment_lines (suc fuel) (line ∷ next ∷ lines)
      ≡ line ++ (codes "\n" ++ (joined (next ∷ lines) ++ joined (next ∷ lines)))
unfolding fragment_lines
fragment_lines-twice fuel line next lines h kind attr no_brace opened plain =
    rw (kind, fragment_lines, entrypoint_lines-open line next lines attr no_brace opened)
      (ap (λ s. (line ++ (codes "\n" ++ joined (next ∷ lines))) ++ s)
          (fragment_lines-plain fuel (next ∷ lines) h plain)
        ∙ append_assoc line (codes "\n" ++ joined (next ∷ lines)) _)
