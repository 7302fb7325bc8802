-- ===== src/Compiler/Code/Copies.antt =====
-- What `compiler_code_state_consume` and the two functions that call it take is the text itself.
use uce.Base.{
  ℕ, zero, suc, ◌≤◌, Bool, true, false, [], ◌∷◌, ◌++◌, ◌≡◌, ◌≢◌, refl, ap, sym, ◌∙◌, ◌⊎◌, inl, inr,
  ◌&&◌, Bytes, length, drop, starts, starts→eq, ◌==◌, ltb, if◌then◌else◌, codes, arith,
  append_assoc, append-nil, length-append, length-drop, Bool-cases,
}
use uce.Compiler.Code.{
  CodeState, new_state, code_state_is_neutral, peek, last_byte, consumed, code_state_consume,
  capture_code_loop, capture_code_until_php_close, Round, closed, more, code_round, text_round,
  markup_loop, capture_markup_literal,
}

consumed-peek :
    (state : CodeState) (before c c1 : ℕ) → (consumed state before c c1).1 ≡ true → c1 ≢ 0
unfolding consumed
consumed-peek state before c c1 = ground arith

peeked : (s : Bytes) → peek s ≢ 0 → s ≡ peek s ∷ drop 1 s
peeked [] h = absurd (h refl)
peeked (c ∷ s) h = refl

-- What is appended and what follows are the text.
abbrev IsCut : Bytes × Bytes → ℕ → Bytes → Type 0
IsCut (copied, rest) c s = (copied ++ rest ≡ c ∷ s) × (length rest ≤ length s)

IsCut-if :
    (two : Bool) (c : ℕ) (s : Bytes)
    → (two ≡ true → peek s ≢ 0)
    → IsCut (if two then (c ∷ peek s ∷ [], drop 1 s) else (c ∷ [], s)) c s
IsCut-if false c s h = (refl, omega arith)
IsCut-if true c [] h = absurd (h refl refl)
IsCut-if true c (d ∷ s) h = (refl, omega arith)

pub code_state_consume-copies :
    (state : CodeState) (before c : ℕ) (s : Bytes)
    → IsCut (code_state_consume state before c s).1 c s
unfolding code_state_consume
code_state_consume-copies state before c s =
    IsCut-if (consumed state before c (peek s)).1 c s (consumed-peek state before c (peek s))

-- A result of a loop that began with a buffer at a text: the buffer has grown by what was taken, and
-- the text is what was taken with the closing mark and the rest, or it was taken to its end.
abbrev Took : Bytes → Bytes → Bytes → Bytes × Bytes → Type 0
Took closing buffer s (grown, rest) =
    (taken : Bytes) × (grown ≡ buffer ++ taken)
    × ((s ≡ taken ++ (closing ++ rest)) ⊎ ((s ≡ taken) × (rest ≡ [])))

Took-none : (closing buffer : Bytes) → Took closing buffer [] (buffer, [])
Took-none closing buffer = ([], sym (append-nil buffer), inr (refl, refl))

Took-more :
    (closing buffer copied rest s : Bytes) (w : Bytes × Bytes)
    → copied ++ rest ≡ s
    → Took closing (buffer ++ copied) rest w
    → Took closing buffer s w
Took-more closing buffer copied rest s (grown, left) e (taken, g, ends) =
    (copied ++ taken, g ∙ append_assoc buffer copied taken, ends_more ends)
  where
    ends_more :
        ((rest ≡ taken ++ (closing ++ left)) ⊎ ((rest ≡ taken) × (left ≡ [])))
        → (s ≡ (copied ++ taken) ++ (closing ++ left)) ⊎ ((s ≡ copied ++ taken) × (left ≡ []))
    ends_more (inl h) =
        inl (sym e ∙ ap (λ t. copied ++ t) h ∙ sym (append_assoc copied taken (closing ++ left)))
    ends_more (inr (h, n)) = inr (sym e ∙ ap (λ t. copied ++ t) h, n)

closes_code :
    (state : CodeState) (c : ℕ) (s : Bytes)
    → (code_state_is_neutral state && c == b'?' && peek s == b'>') ≡ true
    → c ∷ s ≡ codes "?>" ++ drop 1 s
closes_code state c [] h = ground arith
closes_code state c (d ∷ s) h = ground arith

capture_code_loop-Took :
    (fuel : ℕ) (state : CodeState) (before : ℕ) (buffer s : Bytes)
    → length s ≤ fuel
    → Took (codes "?>") buffer s (capture_code_loop fuel state before buffer s)
unfolding capture_code_loop
capture_code_loop-Took zero state before buffer [] h = Took-none (codes "?>") buffer
capture_code_loop-Took zero state before buffer (c ∷ s) h = absurd (omega arith)
capture_code_loop-Took (suc fuel) state before buffer [] h = Took-none (codes "?>") buffer
capture_code_loop-Took (suc fuel) state before buffer (c ∷ s) h =
    elim (Bool-cases (code_state_is_neutral state && c == b'?' && peek s == b'>')) [
      | inl e ↦
          rw (e, capture_code_loop) ([], sym (append-nil buffer), inl (closes_code state c s e))
      | inr e ↦
          let (copies, le) = code_state_consume-copies state before c s in
          rw (e, capture_code_loop)
            (Took-more (codes "?>") buffer _ _ (c ∷ s) _ copies
              (capture_code_loop-Took fuel _ _ _ _ (omega (arith, le))))
    ]

-- What a round does with the text that it stands at.
abbrev Cuts : Round → ℕ → Bytes → Type 0
Cuts (closed rest) c s = c ∷ s ≡ codes "</>" ++ rest
Cuts (more inside deep after copied rest) c s = IsCut (copied, rest) c s

Cuts-if :
    (b : Bool) (p q : Round) (c : ℕ) (s : Bytes)
    → (b ≡ true → Cuts p c s)
    → (b ≡ false → Cuts q c s)
    → Cuts (if b then p else q) c s
Cuts-if true p q c s hp hq = hp refl
Cuts-if false p q c s hp hq = hq refl

two_chars :
    (x y c : ℕ) (s : Bytes) (b : Bool)
    → (b && c == x && peek s == suc y) ≡ true
    → IsCut (x ∷ suc y ∷ [], drop 1 s) c s
two_chars x y c [] b h = absurd (ground arith)
two_chars x y c (d ∷ s) b h = ground arith

closing_tag :
    (c : ℕ) (s : Bytes) → starts (codes "</>") (c ∷ s) ≡ true → c ∷ s ≡ codes "</>" ++ drop 2 s
closing_tag c s h = starts→eq (codes "</>") (c ∷ s) h

code_round-Cuts :
    (depth : ℕ) (state : CodeState) (before c : ℕ) (s : Bytes)
    → Cuts (code_round depth state before c s) c s
unfolding code_round
code_round-Cuts depth state before c s =
    Cuts-if (code_state_is_neutral state && c == b'?' && peek s == b'>') _ _ c s
      (λ e. two_chars b'?' 61 c s (code_state_is_neutral state) e)
      (λ e. code_state_consume-copies state before c s)

text_round-Cuts :
    (depth : ℕ) (state : CodeState) (c : ℕ) (s : Bytes) → Cuts (text_round depth state c s) c s
unfolding text_round
text_round-Cuts depth state c s =
    Cuts-if (c == b'<' && peek s == b'?') _ _ c s (λ e. two_chars b'<' 62 c s true e)
      (λ _.
        Cuts-if (starts (codes "</>") (c ∷ s)) _ _ c s
          (λ e.
            Cuts-if (ltb 0 depth) _ _ c s
              (λ _. (sym (closing_tag c s e), omega (arith, length-drop 2 s)))
              (λ _. closing_tag c s e))
          (λ _.
            Cuts-if (c == b'<' && peek s == b'>') _ _ c s (λ e. two_chars b'<' 61 c s true e)
              (λ _. (refl, omega arith))))

round-Cuts :
    (inside_code : Bool) (depth : ℕ) (state : CodeState) (before c : ℕ) (s : Bytes)
    → Cuts
        (if inside_code then code_round depth state before c s else text_round depth state c s)
        c
        s
round-Cuts true depth state before c s = code_round-Cuts depth state before c s
round-Cuts false depth state before c s = text_round-Cuts depth state c s

-- A round, and what the loop takes behind it.
Round-Took :
    (r : Round) (buffer : Bytes) (c : ℕ) (s : Bytes)
    → (loop : Bool → ℕ → CodeState → ℕ → Bytes → Bytes → Bytes × Bytes)
    → ((inside : Bool) (deep : ℕ) (after : CodeState) (before : ℕ) (grown rest : Bytes)
        → length rest ≤ length s
        → Took (codes "</>") grown rest (loop inside deep after before grown rest))
    → Cuts r c s
    → Took (codes "</>") buffer (c ∷ s) (elim r [
      | closed rest ↦ (buffer, rest)
      | more inside deep after copied rest ↦
          loop inside deep after (last_byte c copied) (buffer ++ copied) rest
    ])
Round-Took (closed rest) buffer c s loop took e = ([], sym (append-nil buffer), inl e)
Round-Took (more inside deep after copied rest) buffer c s loop took (copies, le) =
    Took-more (codes "</>") buffer copied rest (c ∷ s) _ copies (took inside deep after _ _ rest le)

markup_loop-Took :
    (fuel : ℕ) (inside_code : Bool) (depth : ℕ) (state : CodeState) (before : ℕ) (buffer s : Bytes)
    → length s ≤ fuel
    → Took (codes "</>") buffer s (markup_loop fuel inside_code depth state before buffer s)
unfolding markup_loop
markup_loop-Took zero inside_code depth state before buffer [] h = Took-none (codes "</>") buffer
markup_loop-Took zero inside_code depth state before buffer (c ∷ s) h = absurd (omega arith)
markup_loop-Took (suc fuel) inside_code depth state before buffer [] h =
    Took-none (codes "</>") buffer
markup_loop-Took (suc fuel) inside_code depth state before buffer (c ∷ s) h =
    Round-Took _ buffer c s (markup_loop fuel)
      (λ inside deep after before grown rest le.
        markup_loop-Took fuel inside deep after before grown rest (omega (arith, le)))
      (round-Cuts inside_code depth state before c s)

Took-whole :
    (closing s : Bytes) (w : Bytes × Bytes)
    → Took closing [] s w
    → (s ≡ w.0 ++ (closing ++ w.1)) ⊎ ((s ≡ w.0) × (w.1 ≡ []))
Took-whole closing s (grown, rest) (taken, g, e) = rw g e

-- What `compiler_capture_code_until_php_close` takes is the source: the text is the code with `?>` and
-- the rest, or, where the code is not closed, the whole text is the code.
pub capture_code_until_php_close-copies :
    (before : ℕ) (s : Bytes)
    → let (code, rest) = capture_code_until_php_close before s in
      (s ≡ code ++ (codes "?>" ++ rest)) ⊎ ((s ≡ code) × (rest ≡ []))
unfolding capture_code_until_php_close
capture_code_until_php_close-copies before s =
    Took-whole (codes "?>") s (capture_code_loop (length s) new_state before [] s)
      (capture_code_loop-Took (length s) new_state before [] s (omega arith))

-- What `compiler_capture_markup_literal` takes is the source: the text is the markup with `</>` and
-- the rest, or, where the markup is not closed, the whole text is the markup.
pub capture_markup_literal-copies :
    (s : Bytes)
    → let (markup, rest) = capture_markup_literal s in
      (s ≡ markup ++ (codes "</>" ++ rest)) ⊎ ((s ≡ markup) × (rest ≡ []))
unfolding capture_markup_literal
capture_markup_literal-copies s =
    Took-whole (codes "</>") s (markup_loop (length s) false 0 new_state b'>' [] s)
      (markup_loop-Took (length s) false 0 new_state b'>' [] s (omega arith))

pub taken-le :
    (s closing : Bytes) (w : Bytes × Bytes)
    → (s ≡ w.0 ++ (closing ++ w.1)) ⊎ ((s ≡ w.0) × (w.1 ≡ []))
    → (length w.0 ≤ length s) × (length w.1 ≤ length s)
taken-le s closing (taken, rest) (inl e) =
    omega (arith, ap length e, length-append taken (closing ++ rest), length-append closing rest)
taken-le s closing (taken, rest) (inr (e, n)) = omega (arith, ap length e, ap length n)

-- The text that is left behind one of two rounds.
pub le-if :
    {A : Type 0} (b : Bool) (p q : A × (ℕ × Bytes)) (n : ℕ)
    → length p.1.1 ≤ n
    → length q.1.1 ≤ n
    → length (if b then p else q).1.1 ≤ n
le-if true p q n hp hq = hp
le-if false p q n hp hq = hq
