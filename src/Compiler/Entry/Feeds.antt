-- ===== src/Compiler/Entry/Feeds.antt =====
-- The rewriting of the entry points keeps the line numbers of a unit.
use uce.Base.{
  ℕ, suc, ◌+◌, ◌-◌, Bool, true, false, [], ◌∷◌, ◌++◌, ◌≡◌, ◌≢◌, refl, ap, ap₂, ◌∙◌, inl, inr,
  Option, none, some, Bytes, length, take, drop, equal, starts, find, ◌==◌, ◌||◌, if◌then◌else◌,
  codes, arith, All-append, All-take, All-drop, Lacks, Bool-cases, Option-cases, ==→eq, ne→==, leb,
}
use uce.Base.Chars.{is_space, is_alnum}
use uce.Compiler.Entry.ByLine.{flush_line-ended, flush_line-open, ne_of}
use uce.Compiler.Entry.{
  safe_name, entrypoint_signature, rewrite_named_entrypoint_line, or_else, first_some, rewrite_line,
  flush_line, named_lines, rewrite_named_render_syntax,
}
use uce.Text.Trim.{front, back, trim}

-- A text on one line.
abbrev OneLine : Bytes → Type 0
OneLine = Lacks 10

together : (s t : Bytes) → OneLine s → OneLine t → OneLine (s ++ t)
together = All-append (λ c. c ≢ 10)

taken : (n : ℕ) (s : Bytes) → OneLine s → OneLine (take n s)
taken = All-take (λ c. c ≢ 10)

dropped : (n : ℕ) (s : Bytes) → OneLine s → OneLine (drop n s)
dropped = All-drop (λ c. c ≢ 10)

OneLine-if : (b : Bool) (s t : Bytes) → OneLine s → OneLine t → OneLine (if b then s else t)
OneLine-if true s t hs ht = hs
OneLine-if false s t hs ht = ht

trim-OneLine : (s : Bytes) → OneLine s → OneLine (trim s)
unfolding trim
trim-OneLine s h =
    OneLine-if (leb (back is_space s) (front is_space s)) []
      (take (back is_space s - front is_space s) (drop (front is_space s) s)) tt
      (taken _ _ (dropped (front is_space s) s h))

safe_char-OneLine : (c : ℕ) → OneLine (if is_alnum c || c == b'_' then c ∷ [] else [])
unfolding is_alnum
safe_char-OneLine c = ground arith

safe_name-OneLine : (raw : Bytes) → OneLine (safe_name raw)
unfolding safe_name
safe_name-OneLine [] = tt
safe_name-OneLine (c ∷ raw) =
    together (if is_alnum c || c == b'_' then c ∷ [] else []) (safe_name raw) (safe_char-OneLine c)
      (safe_name-OneLine raw)

-- A line, if there is one.
abbrev SomeLine : Option Bytes → Type 0
SomeLine none = Unit
SomeLine (some line) = OneLine line

SomeLine-if : (b : Bool) (line : Bytes) → OneLine line → SomeLine (if b then none else some line)
SomeLine-if true line h = tt
SomeLine-if false line h = h

entrypoint_signature-SomeLine :
    (indent symbol_prefix signature : Bytes)
    → OneLine indent
    → OneLine symbol_prefix
    → OneLine signature
    → SomeLine (entrypoint_signature indent symbol_prefix signature)
unfolding entrypoint_signature
entrypoint_signature-SomeLine indent symbol_prefix signature hi hp hs =
    elim (Option-cases (find (b'(' ∷ []) signature)) [
      | inl e ↦ rw (e, entrypoint_signature) tt
      | inr (pos, e) ↦
          rw (e, entrypoint_signature)
            (SomeLine-if (equal (trim (take pos signature)) []) _ (
              together indent _ hi (
                together (codes "EXPORT void ") _ (omega arith) (
                  together symbol_prefix _ hp (
                    omega arith,
                    together (safe_name (trim (take pos signature))) _
                        (safe_name-OneLine (trim (take pos signature))) (dropped pos signature hs),
                  )))))
    ]

SomeLine-when : (b : Bool) (o : Option Bytes) → SomeLine o → SomeLine (if b then o else none)
SomeLine-when true o h = h
SomeLine-when false o h = tt

rewrite_named_entrypoint_line-SomeLine :
    (line macro_prefix symbol_prefix : Bytes)
    → OneLine line
    → OneLine symbol_prefix
    → SomeLine (rewrite_named_entrypoint_line line macro_prefix symbol_prefix)
unfolding rewrite_named_entrypoint_line
rewrite_named_entrypoint_line-SomeLine line macro_prefix symbol_prefix h hp =
    SomeLine-when (starts macro_prefix (trim line)) _ (
      entrypoint_signature-SomeLine _ symbol_prefix _ (taken (front is_space line) line h) hp
        (dropped (length macro_prefix) (trim line) (trim-OneLine line h)))

first_some-SomeLine :
    (first second : Option Bytes)
    → SomeLine first
    → SomeLine second
    → SomeLine (first_some first second)
unfolding first_some
first_some-SomeLine none second h k = k
first_some-SomeLine (some new) second h k = h

or_else-OneLine :
    (o : Option Bytes) (line : Bytes) → SomeLine o → OneLine line → OneLine (or_else o line)
unfolding or_else
or_else-OneLine none line h k = k
or_else-OneLine (some new) line h k = h

rewrite_line-OneLine : (line : Bytes) → OneLine line → OneLine (rewrite_line line)
unfolding rewrite_line
rewrite_line-OneLine line h =
    or_else-OneLine _ line
      (first_some-SomeLine _ _
        (rewrite_named_entrypoint_line-SomeLine line (codes "RENDER:") (codes "__uce_render") h
          (omega arith))
        (first_some-SomeLine _ _
          (rewrite_named_entrypoint_line-SomeLine line (codes "COMPONENT:")
            (codes "__uce_component") h (omega arith))
          (rewrite_named_entrypoint_line-SomeLine line (codes "SERVE_HTTP:")
            (codes "__uce_serve_http") h (omega arith))))
      h

-- The number of line breaks.
unfoldable pub line_breaks : Bytes → ℕ
line_breaks [] = 0
line_breaks (c ∷ s) = if c == 10 then suc (line_breaks s) else line_breaks s

line_breaks-append : (s t : Bytes) → line_breaks (s ++ t) ≡ line_breaks s + line_breaks t
unfolding line_breaks
line_breaks-append [] t = omega arith
line_breaks-append (c ∷ s) t = ground (arith, line_breaks-append s t)

line_breaks-OneLine : (s : Bytes) → OneLine s → line_breaks s ≡ 0
unfolding line_breaks
line_breaks-OneLine [] h = refl
line_breaks-OneLine (c ∷ s) (ne, h) = rw (ne→== c 10 ne) (line_breaks-OneLine s h)

line_breaks-flush_line :
    (line : Bytes) → OneLine line → line_breaks (flush_line (line ++ 10 ∷ [])) ≡ 1
line_breaks-flush_line line h =
    ap line_breaks (flush_line-ended line)
    ∙ line_breaks-append (rewrite_line line) (10 ∷ [])
    ∙ ap (λ n. n + line_breaks (10 ∷ [])) (line_breaks-OneLine _ (rewrite_line-OneLine line h))
    ∙ (unfold line_breaks in refl)

line_breaks-named_lines :
    (line content : Bytes)
    → OneLine line
    → line_breaks (named_lines line content) ≡ line_breaks content
unfolding named_lines line_breaks
line_breaks-named_lines line [] h =
    ap line_breaks (flush_line-open line h)
    ∙ line_breaks-OneLine (rewrite_line line) (rewrite_line-OneLine line h)
line_breaks-named_lines line (c ∷ content) h = elim (Bool-cases (c == 10)) [
  | inl e ↦
      rw (e, named_lines)
        (rw (==→eq c 10 e) (
          line_breaks-append (flush_line (line ++ 10 ∷ [])) (named_lines [] content)
          ∙ ap₂ (λ a b. a + b) (line_breaks-flush_line line h)
              (line_breaks-named_lines [] content tt)
          ∙ omega arith))
  | inr e ↦
      rw (e, named_lines)
        (line_breaks-named_lines (line ++ c ∷ []) content
          (together line (c ∷ []) h (ne_of c e, tt)))
]

-- The rewriting of the entry points keeps the number of line breaks, for every content, so that
-- the line numbers that the compiler reports are those of the unit.
pub line_breaks-rewrite_named_render_syntax :
    (content : Bytes) → line_breaks (rewrite_named_render_syntax content) ≡ line_breaks content
unfolding rewrite_named_render_syntax
line_breaks-rewrite_named_render_syntax content = line_breaks-named_lines [] content tt
