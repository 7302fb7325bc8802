-- ===== src/Compiler/Code/Plain.antt =====
-- Code without quotes, comments and question marks, as `compiler_capture_code_until_php_close` of
-- src/lib/compiler-parser.cpp takes it.
use uce.Base.{
  ℕ, zero, suc, ◌≤◌, false, [], ◌∷◌, ◌++◌, ◌≡◌, ◌≢◌, refl, sym, ap, ◌∙◌, Bytes, length, codes,
  arith, All, ne→==, append_assoc, append-nil, length-append,
}
use uce.Compiler.Code.{
  new_state, code_state_is_neutral, peek, consumed, code_state_consume, capture_code_loop,
  capture_code_until_php_close,
}

-- Neither a quote nor a slash nor a question mark.
abbrev pub IsPlain : ℕ → Type 0
IsPlain c = (c ≢ 34) × (c ≢ 39) × (c ≢ b'/') × (c ≢ b'?')

consumed-plain : (before c c1 : ℕ) → IsPlain c → consumed new_state before c c1 ≡ (new_state, false)
unfolding consumed
consumed-plain before c c1 (double, single, slash, mark) =
    rw (ne→== c 34 double, ne→== c 39 single, ne→== c b'/' slash) refl

capture_plain :
    (fuel before : ℕ) (buffer code rest : Bytes)
    → All IsPlain code
    → suc (length code) ≤ fuel
    → capture_code_loop fuel new_state before buffer (code ++ (codes "?>" ++ rest))
      ≡ (buffer ++ code, rest)
unfolding capture_code_loop code_state_is_neutral code_state_consume
capture_plain zero before buffer code rest h k = absurd (omega arith)
capture_plain (suc fuel) before buffer [] rest h k = ap (λ b. (b, rest)) (sym (append-nil buffer))
capture_plain (suc fuel) before buffer (c ∷ code) rest (p, h) k =
    rw
      (
        capture_code_loop,
        ne→== c b'?' p.3,
        consumed-plain before c (peek (code ++ (codes "?>" ++ rest))) p,
      )
      (capture_plain fuel c (buffer ++ c ∷ []) code rest h (omega arith)
        ∙ ap (λ b. (b, rest)) (append_assoc buffer (c ∷ []) code))

-- Such code is taken up to the `?>` behind it, whatever follows.
pub plain_code :
    (code : Bytes)
    → All IsPlain code
    → (before : ℕ) (rest : Bytes)
    → capture_code_until_php_close before (code ++ (codes "?>" ++ rest)) ≡ (code, rest)
unfolding capture_code_until_php_close
plain_code code h before rest =
    capture_plain (length (code ++ (codes "?>" ++ rest))) before [] code rest h
      (omega (arith, length-append code (codes "?>" ++ rest)))
