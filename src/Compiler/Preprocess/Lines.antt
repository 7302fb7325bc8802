-- ===== src/Compiler/Preprocess/Lines.antt =====
-- The loop of `compiler_preprocess_shared_unit_char_wise`: it moves on in every round.
use uce.Base.{
  ℕ, zero, suc, ◌≤◌, [], ◌∷◌, ◌≡◌, refl, ◌&&◌, ◌||◌, Option, Bytes, length, drop, ◌==◌, codes,
  arith, length-drop,
}
use uce.Compiler.Code.{code_state_is_neutral, peek}
use uce.Compiler.Code.Copies.{
  code_state_consume-copies, capture_code_until_php_close-copies, taken-le, le-if,
}
use uce.Compiler.Preprocess.{Preprocess, field_round, literal_round, code_round, round, rounds}

field_round-le : (p : Preprocess) (s : Bytes) → length (field_round p s).1.1 ≤ length s
unfolding field_round
field_round-le p s =
    let kind = peek (drop 1 s) in
    let (_, le) =
      taken-le (drop 2 s) (codes "?>") _ (capture_code_until_php_close-copies kind (drop 2 s)) in
    omega (arith, length-drop 2 s, le)

literal_round-le :
    (p : Preprocess) (c : ℕ) (s : Bytes) → length (literal_round p c s).1.1 ≤ length s
unfolding literal_round
literal_round-le p c s =
    le-if (c == b'<' && peek s == b'?' && (peek (drop 1 s) == b'=' || peek (drop 1 s) == b':')) _ _
      (length s) (field_round-le p s)
      (le-if (c == b'<' && peek s == b'?') _ _ (length s) (omega (arith, length-drop 1 s)) (
        le-if (c == b'<' && peek s == b'/' && peek (drop 1 s) == b'>') _ _ (length s)
          (omega (arith, length-drop 2 s)) (omega arith)))

module _ (load_shared_unit : Bytes → Option (Bytes × Bytes)) where
  code_round-le :
      (p : Preprocess) (before c : ℕ) (s : Bytes)
      → length (code_round load_shared_unit p before c s).1.1 ≤ length s
  unfolding code_round
  code_round-le p before c s =
      le-if (code_state_is_neutral p.code_state && (c == b'<' || c == b'?') && peek s == b'>') _ _
        (length s) (omega (arith, length-drop 1 s))
        (code_state_consume-copies p.code_state before c s).1

  pub round-le :
      (p : Preprocess) (before c : ℕ) (s : Bytes)
      → length (round load_shared_unit p before c s).1.1 ≤ length s
  unfolding round
  round-le p before c s =
      le-if p.inside_literal _ _ (length s) (literal_round-le p c s) (code_round-le p before c s)

  -- The loop of the preprocessor ends by the time it has made as many rounds as the content has
  -- bytes: more rounds than that change nothing.
  pub rounds_fuel :
      (n m : ℕ) (p : Preprocess) (before : ℕ) (s : Bytes)
      → length s ≤ n
      → length s ≤ m
      → rounds load_shared_unit n p before s ≡ rounds load_shared_unit m p before s
  unfolding rounds
  rounds_fuel zero zero p before s h k = refl
  rounds_fuel zero (suc m) p before [] h k = refl
  rounds_fuel (suc n) zero p before [] h k = refl
  rounds_fuel (suc n) (suc m) p before [] h k = refl
  rounds_fuel zero (suc m) p before (c ∷ s) h k = absurd (omega arith)
  rounds_fuel (suc n) zero p before (c ∷ s) h k = absurd (omega arith)
  rounds_fuel (suc n) (suc m) p before (c ∷ s) h k =
      rounds_fuel n m _ _ _ (omega (arith, round-le p before c s))
        (omega (arith, round-le p before c s))
