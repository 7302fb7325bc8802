-- ===== src/Zip/Names/Shrink.antt =====
-- What `replace` leaves of a text: bytes of it and of the other text, and no more of them.
use uce.Base.{
  ℕ, zero, suc, ◌+◌, ◌≤◌, ◌<◌, [], ◌∷◌, ◌++◌, ◌≡◌, ◌≢◌, inl, inr, ap, ◌∙◌, some, Bytes, length,
  take, drop, find, find-le, codes, All, All-append, All-take, All-drop, Lacks, arith, Option-cases,
  length-append, length-take, length-drop, ◌==◌, if◌then◌else◌,
}
use uce.Text.Replace.{join-found, swapped}
use uce.Text.Split.{split, join, split_whole, join_one, rest_shorter}

module _ {ℓ} (P : ℕ → Type ℓ) (d : ℕ) (search replace_with : Bytes) (pw : All P replace_with) where
  join-All_fuel :
      (fuel : ℕ) (s : Bytes)
      → length s < fuel
      → All P s
      → All P (join (split s (d ∷ search)) replace_with)
  join-All_fuel zero s h a = absurd (omega arith)
  join-All_fuel (suc fuel) s h a = elim (Option-cases (find (d ∷ search) s)) [
    | inl e ↦ rw (split_whole d search s e, join_one s replace_with) a
    | inr (pos, e) ↦
        let rest : Bytes = drop (pos + length (d ∷ search)) s in
        rw (join-found d search replace_with s e) (
          All-append P (take pos s) _ (All-take P pos s a) (
            All-append P replace_with _ pw (
              join-All_fuel fuel rest (omega (arith, rest_shorter d search s e))
                (All-drop P (pos + length (d ∷ search)) s a))))
  ]

  -- What all bytes of a text and of the other text satisfy, those of the result do.
  pub join-All : (s : Bytes) → All P s → All P (join (split s (d ∷ search)) replace_with)
  join-All s a = join-All_fuel (suc (length s)) s (omega arith) a

double_slash_length :
    (s : Bytes) {pos : ℕ}
    → find (codes "//") s ≡ some pos
    → length (join (split s (codes "//")) (codes "/"))
      ≡ pos + (1 + length (join (split (drop (pos + 2) s) (codes "//")) (codes "/")))
double_slash_length s {pos} e =
    let later : Bytes = join (split (drop (pos + 2) s) (codes "//")) (codes "/") in
    let bound = find-le (codes "//") s e in
    ap length (join-found b'/' (codes "/") (codes "/") s e)
    ∙ length-append (take pos s) (codes "/" ++ later)
    ∙ ap (λ n. n + suc (length later)) (length-take pos s (omega arith))
    ∙ omega arith

join_le_fuel :
    (fuel : ℕ) (s : Bytes)
    → length s < fuel
    → length (join (split s (codes "//")) (codes "/")) ≤ length s
join_le_fuel zero s h = absurd (omega arith)
join_le_fuel (suc fuel) s h = elim (Option-cases (find (codes "//") s)) [
  | inl e ↦ rw (split_whole b'/' (codes "/") s e, join_one s (codes "/")) (omega arith)
  | inr (pos, e) ↦
      let len = length-drop (pos + 2) s in
      let less = find-le (codes "//") s e in
      let bound = join_le_fuel fuel (drop (pos + 2) s) (omega arith) in
      rw (double_slash_length s e) (omega arith)
]

-- A round on a text with a double slash makes it shorter.
pub join_lt :
    (s : Bytes) {pos : ℕ}
    → find (codes "//") s ≡ some pos
    → length (join (split s (codes "//")) (codes "/")) < length s
join_lt s {pos} e =
    let len = length-drop (pos + 2) s in
    let less = find-le (codes "//") s e in
    let bound = join_le_fuel (suc (length s)) (drop (pos + 2) s) (omega arith) in
    rw (double_slash_length s e) (omega arith)

-- The byte that was exchanged is gone.
pub swapped_gone : (a b : ℕ) → b ≢ a → (s : Bytes) → Lacks a (swapped a b s)
unfolding swapped
swapped_gone a b ne [] = tt
swapped_gone a b ne (c ∷ s) = (other c, swapped_gone a b ne s)
  where
    other : (c : ℕ) → (if c == a then b else c) ≢ a
    other c = ground arith
