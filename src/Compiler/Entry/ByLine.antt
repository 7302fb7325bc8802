-- ===== src/Compiler/Entry/ByLine.antt =====
-- `compiler_rewrite_named_render_syntax` goes through the lines of a unit.
use mathlib.Core.List.{map}
use uce.Base.{
  ℕ, ◌-◌, false, [], ◌∷◌, ◌++◌, ◌≡◌, ◌≢◌, refl, sym, ap, ap₂, ◌∙◌, inl, inr, Bytes, length, equal,
  ◌==◌, arith, All-append, Lacks, Bool-cases, ==→eq, ne→==, starts, append_assoc, append-nil,
  equal-append_cons, length-append, take-length_append,
}
use uce.Compiler.Code.{last_byte}
use uce.Compiler.Entry.{rewrite_line, flush_line, named_lines, rewrite_named_render_syntax}
use uce.Text.Split.{split, join, split_at, split_none, split-cons, join_cons, join_one}

last_byte-append : (c d : ℕ) (s : Bytes) → last_byte c (s ++ d ∷ []) ≡ d
last_byte-append c d [] = refl
last_byte-append c d (x ∷ s) = last_byte-append x d s

last_byte-Lacks : (c : ℕ) (s : Bytes) → c ≢ 10 → Lacks 10 s → last_byte c s ≢ 10
last_byte-Lacks c [] ne h = ne
last_byte-Lacks c (x ∷ s) ne (first, h) = last_byte-Lacks x s first h

pub flush_line-ended : (line : Bytes) → flush_line (line ++ 10 ∷ []) ≡ rewrite_line line ++ 10 ∷ []
unfolding flush_line
flush_line-ended line =
    let without : length (line ++ 10 ∷ []) - 1 ≡ length line =
      omega (arith, length-append line (10 ∷ [])) in
    rw
      (
        equal-append_cons line 10 [],
        last_byte-append 0 10 line,
        without,
        take-length_append line (10 ∷ []),
      )
      refl

rewrite_line-nil : rewrite_line [] ≡ []
unfolding rewrite_line starts
rewrite_line-nil = refl

pub flush_line-open : (line : Bytes) → Lacks 10 line → flush_line line ≡ rewrite_line line
unfolding flush_line
flush_line-open [] h = unfold equal in sym rewrite_line-nil
flush_line-open (c ∷ line) (ne, h) =
    unfold equal in rw (ne→== (last_byte c line) 10 (last_byte-Lacks c line ne h)) refl

-- The lines of the content, each rewritten.
abbrev pub by_line : Bytes → Bytes
by_line content = join (map rewrite_line (split content (10 ∷ []))) (10 ∷ [])

by_line-at :
    (line content : Bytes)
    → Lacks 10 line
    → by_line (line ++ 10 ∷ content) ≡ (rewrite_line line ++ 10 ∷ []) ++ by_line content
by_line-at line content h =
    let (t, l, e) = split-cons content (10 ∷ []) in
    ap (λ ls. join (map rewrite_line ls) (10 ∷ [])) (split_at 10 line content h ∙ ap (◌∷◌ line) e)
    ∙ join_cons (rewrite_line line) (rewrite_line t) (map rewrite_line l) (10 ∷ [])
    ∙ sym (append_assoc (rewrite_line line) (10 ∷ []) _)
    ∙ ap (λ ls. (rewrite_line line ++ 10 ∷ []) ++ join (map rewrite_line ls) (10 ∷ [])) (sym e)

pub ne_of : (c : ℕ) → (c == 10) ≡ false → c ≢ 10
ne_of c e q = ground arith

named_lines-by_line :
    (line content : Bytes) → Lacks 10 line → named_lines line content ≡ by_line (line ++ content)
unfolding named_lines
named_lines-by_line line [] h =
    flush_line-open line h
    ∙ sym (join_one (rewrite_line line) (10 ∷ []))
    ∙ ap (λ ls. join (map rewrite_line ls) (10 ∷ [])) (sym (split_none 10 line h))
    ∙ ap by_line (sym (append-nil line))
named_lines-by_line line (c ∷ content) h = elim (Bool-cases (c == 10)) [
  | inl e ↦
      rw (e, named_lines)
        (rw (==→eq c 10 e) (
          ap₂ (λ a b. a ++ b) (flush_line-ended line) (named_lines-by_line [] content tt)
          ∙ sym (by_line-at line content h)))
  | inr e ↦
      rw (e, named_lines)
        (named_lines-by_line (line ++ c ∷ []) content
            (All-append (λ b. b ≢ 10) line (c ∷ []) h (λ q. ne_of c e q, tt))
          ∙ ap by_line (append_assoc line (c ∷ []) content))
]

-- The preprocessor rewrites each line of a unit by itself: the result is the lines of the content,
-- each rewritten as an entry point where it is one, joined again with line breaks.
pub rewrite_named_render_syntax-by_line :
    (content : Bytes) → rewrite_named_render_syntax content ≡ by_line content
unfolding rewrite_named_render_syntax
rewrite_named_render_syntax-by_line content = named_lines-by_line [] content tt
