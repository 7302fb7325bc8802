-- ===== src/Text/Pieces.antt =====
-- The pieces of a text that was put together at a byte.
use uce.Base.{
  ℕ, zero, suc, ◌+◌, ◌<◌, List, [], ◌∷◌, ◌++◌, ◌≡◌, refl, ap, sym, ◌∙◌, inl, inr, some, Bytes,
  length, take, drop, find, find→eq, find_byte→Lacks, find_byte_none→Lacks, Lacks, append_assoc,
  Option-cases, arith,
}
use uce.Text.Split.{
  split, split_at, split_none, rest_shorter, join, behind, join-behind, split-cons, join-split,
}

-- A text with a byte in it: the first piece has none, and the rest is shorter.
pub cut_at :
    (b : ℕ) (s : Bytes) {pos : ℕ}
    → find (b ∷ []) s ≡ some pos
    → s ≡ take pos s ++ b ∷ drop (pos + 1) s
cut_at b s {pos} e = find→eq (b ∷ []) s e

split-append_fuel :
    (b fuel : ℕ) (s r : Bytes)
    → length s < fuel
    → split (s ++ b ∷ r) (b ∷ []) ≡ split s (b ∷ []) ++ split r (b ∷ [])
split-append_fuel b zero s r h = absurd (omega arith)
split-append_fuel b (suc fuel) s r h = elim (Option-cases (find (b ∷ []) s)) [
  | inl e ↦
      let l : Lacks b s = find_byte_none→Lacks b s e in
      split_at b s r l ∙ ap (λ x. x ++ split r (b ∷ [])) (sym (split_none b s l))
  | inr (pos, e) ↦
      let p : Bytes = take pos s in
      let rest : Bytes = drop (pos + 1) s in
      let l : Lacks b p = find_byte→Lacks b s e in
      let shorter = rest_shorter b [] s e in
      ap (λ x. split (x ++ b ∷ r) (b ∷ [])) (cut_at b s e)
      ∙ ap (λ x. split x (b ∷ [])) (append_assoc p (b ∷ rest) (b ∷ r))
      ∙ split_at b p (rest ++ b ∷ r) l
      ∙ ap (◌∷◌ p) (split-append_fuel b fuel rest r (omega arith))
      ∙ ap (λ x. x ++ split r (b ∷ []))
          (sym (ap (λ x. split x (b ∷ [])) (cut_at b s e) ∙ split_at b p rest l))
]

-- The pieces of two texts with the delimiter between them are those of the one and those of the other.
pub split-append :
    (b : ℕ) (s r : Bytes) → split (s ++ b ∷ r) (b ∷ []) ≡ split s (b ∷ []) ++ split r (b ∷ [])
split-append b s r = split-append_fuel b (suc (length s)) s r (omega arith)

behind-append :
    (l m : List Bytes) (delim : Bytes) → behind delim (l ++ m) ≡ behind delim l ++ behind delim m
behind-append [] m delim = refl
behind-append (s ∷ l) m delim =
    ap (λ x. delim ++ (s ++ x)) (behind-append l m delim)
    ∙ ap (λ x. delim ++ x) (sym (append_assoc s (behind delim l) (behind delim m)))
    ∙ sym (append_assoc delim (s ++ behind delim l) (behind delim m))

-- More pieces go behind the text.
pub join-behind-split :
    (s : Bytes) (l : List Bytes) (delim : Bytes)
    → join (split s delim ++ l) delim ≡ s ++ behind delim l
join-behind-split s l delim =
    let (t, ts, p) = split-cons s delim in
    ap (λ x. join (x ++ l) delim) p
    ∙ join-behind t (ts ++ l) delim
    ∙ ap (λ x. t ++ x) (behind-append ts l delim)
    ∙ sym (append_assoc t (behind delim ts) (behind delim l))
    ∙ ap (λ x. x ++ behind delim l)
        (sym (ap (λ x. join x delim) p ∙ join-behind t ts delim) ∙ join-split s delim)
