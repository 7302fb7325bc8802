-- ===== src/Compiler/Fragment/Fuel.antt =====
-- The loop of `compiler_rewrite_fragment_attributes` over the lines ends.
use uce.Base.{
  ℕ, zero, suc, ◌≤◌, Bool, true, false, List, [], ◌∷◌, ◌++◌, ◌≡◌, refl, ap, inl, inr, Bytes, length,
  drop, equal, find, not, ◌&&◌, ◌||◌, if◌then◌else◌, codes, arith, Bool-cases, Option-cases,
}
use uce.Compiler.Fragment.{
  line_starts_fragmentable_entrypoint, is_fragment_attr, fragment_attrs, with_capture, break_before,
  body_lines, or_lines, captured, entrypoint_lines, fragment_lines,
}
use uce.Text.Trim.{trim}

fragment_attrs-le :
    (slot : Bytes) (b : Bool) (lines : List Bytes)
    → length (fragment_attrs slot b lines).1.1 ≤ length lines
unfolding fragment_attrs
fragment_attrs-le slot b [] = omega arith
fragment_attrs-le slot b (line ∷ lines) = elim (Bool-cases (is_fragment_attr (trim line))) [
  | inl e ↦
      rw (e, fragment_attrs)
        (omega (arith, fragment_attrs-le (trim (drop 9 (trim line))) true lines))
  | inr e ↦ rw (e, fragment_attrs) (omega arith)
]

body_lines-le :
    (slot : Bytes) (after lines : List Bytes)
    → length after ≤ length lines
    → length (or_lines (body_lines slot after).1 lines) ≤ length lines
unfolding body_lines
body_lines-le slot [] lines h = omega arith
body_lines-le slot (line ∷ after) lines h = elim (Option-cases (find (codes "{") line)) [
  | inl e ↦ rw (e, body_lines) (body_lines-le slot after lines (omega arith))
  | inr (pos, e) ↦ rw (e, body_lines) (omega arith)
]

le-if :
    (b : Bool) (p q : Bytes × List Bytes) (n : ℕ)
    → length p.1 ≤ n
    → length q.1 ≤ n
    → length (if b then p else q).1 ≤ n
le-if true p q n hp hq = hp
le-if false p q n hp hq = hq

captured-le :
    (once : Bool) (line slot : Bytes) (has : Bool) (after lines : List Bytes)
    → length after ≤ length lines
    → length (captured once line slot has after lines).1 ≤ length lines
captured-le once line slot has after lines h = elim (Option-cases (find (codes "{") line)) [
  | inl e ↦
      unfold captured in
      rw e (
        le-if (not (not (equal slot []) && (once || has))) (line ++ break_before after, after)
          (
            line ++ (break_before after ++ (body_lines slot after).0),
            or_lines (body_lines slot after).1 lines,
          )
          (length lines) h (body_lines-le slot after lines h))
  | inr (pos, e) ↦
      unfold captured in
      rw e (
        le-if (not (not (equal slot []) && (once || has))) (line ++ break_before after, after)
          (with_capture line pos slot ++ break_before after, after) (length lines) h h)
]

entrypoint_lines-le :
    (kind line : Bytes) (lines : List Bytes)
    → length (entrypoint_lines kind line lines).1 ≤ length lines
unfolding entrypoint_lines
entrypoint_lines-le kind line lines =
    let slot = if equal kind (codes "ONCE") then codes "once" else [] in
    captured-le (equal kind (codes "ONCE")) line _ _ (fragment_attrs slot false lines).1.1 lines
      (fragment_attrs-le slot false lines)

-- Once the fuel is the number of the lines, more changes nothing: every round goes on with fewer
-- lines, whether a brace is found or not.
pub fragment_lines-fuel :
    (n m : ℕ) (lines : List Bytes)
    → length lines ≤ n
    → length lines ≤ m
    → fragment_lines n lines ≡ fragment_lines m lines
unfolding fragment_lines
fragment_lines-fuel zero zero lines h k = refl
fragment_lines-fuel zero (suc m) [] h k = refl
fragment_lines-fuel (suc n) zero [] h k = refl
fragment_lines-fuel (suc n) (suc m) [] h k = refl
fragment_lines-fuel zero (suc m) (line ∷ lines) h k = absurd (omega arith)
fragment_lines-fuel (suc n) zero (line ∷ lines) h k = absurd (omega arith)
fragment_lines-fuel (suc n) (suc m) (line ∷ lines) h k =
    elim (Option-cases (line_starts_fragmentable_entrypoint (trim line))) [
      | inl e ↦
          rw (e, fragment_lines)
            (ap (λ s. line ++ (break_before lines ++ s))
              (fragment_lines-fuel n m lines (omega arith) (omega arith)))
      | inr (kind, e) ↦
          let le = entrypoint_lines-le kind line lines in
          rw (e, fragment_lines)
            (ap (λ s. (entrypoint_lines kind line lines).0 ++ s)
              (fragment_lines-fuel n m (entrypoint_lines kind line lines).1 (omega (arith, le))
                (omega (arith, le))))
    ]
