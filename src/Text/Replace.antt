-- ===== src/Text/Replace.antt =====
-- `replace` of src/lib/functionlib.cpp. What follows the last match is the unread text.
use uce.Base.{
  ℕ, zero, suc, ◌+◌, ◌<◌, [], ◌∷◌, ◌++◌, ◌≡◌, refl, ap, sym, ◌∙◌, inl, inr, Option, none, some,
  Bytes, length, take, drop, find, starts, append_assoc, Option-cases, arith, find→eq,
  find_byte→Lacks, find_byte_none→Lacks, Lacks, ap₂, ◌==◌, if◌then◌else◌,
}
use uce.Text.Split.{
  split, join, split_found, split_whole, rest_shorter, split-cons, join_cons, join_one,
}

-- A loop that goes on beyond its fuel is `none`.
unfoldable pub replace_loop : ℕ → Bytes → Bytes → Bytes → Bytes → Option Bytes
replace_loop zero rest search replace_with result = none
replace_loop (suc fuel) rest search replace_with result = elim (find search rest) [
  | none ↦ some (result ++ rest)
  | some pos ↦
      replace_loop fuel (drop (pos + length search) rest) search replace_with
        ((result ++ take pos rest) ++ replace_with)
]

-- There are no more rounds than bytes, if the search text has one.
unfoldable pub replace : Bytes → Bytes → Bytes → Option Bytes
replace s search replace_with = elim (find search s) [
  | none ↦ some s
  | some pos ↦ replace_loop (suc (length s)) s search replace_with []
]

module _ (d : ℕ) (search replace_with : Bytes) where
  pub join-found :
      (rest : Bytes) {pos : ℕ}
      → find (d ∷ search) rest ≡ some pos
      → join (split rest (d ∷ search)) replace_with
        ≡ take pos rest
          ++ (replace_with
              ++ join (split (drop (pos + length (d ∷ search)) rest) (d ∷ search)) replace_with)
  join-found rest {pos} e =
      let later : Bytes = drop (pos + length (d ∷ search)) rest in
      let (t, l, p) = split-cons later (d ∷ search) in
      ap (λ x. join x replace_with) (split_found d search rest e ∙ ap (◌∷◌ (take pos rest)) p)
      ∙ join_cons (take pos rest) t l replace_with
      ∙ ap (λ x. take pos rest ++ (replace_with ++ join x replace_with)) (sym p)

  replace_loop-join :
      (fuel : ℕ) (rest result : Bytes)
      → length rest < fuel
      → replace_loop fuel rest (d ∷ search) replace_with result
        ≡ some (result ++ join (split rest (d ∷ search)) replace_with)
  unfolding replace_loop
  replace_loop-join zero rest result h = ground arith
  replace_loop-join (suc fuel) rest result h = elim (Option-cases (find (d ∷ search) rest)) [
    | inl e ↦ rw (replace_loop, e, split_whole d search rest e, join_one rest replace_with) refl
    | inr (pos, e) ↦
        rw (replace_loop, e, join-found rest e)
          (replace_loop-join fuel (drop (pos + length (d ∷ search)) rest)
              ((result ++ take pos rest) ++ replace_with)
              (omega (arith, rest_shorter d search rest e))
            ∙ ap some (
                append_assoc (result ++ take pos rest) replace_with _
                ∙ append_assoc result (take pos rest) _))
  ]

  -- To replace a text that is not empty is to split at it and to join with the other.
  pub replace-join :
      (s : Bytes)
      → replace s (d ∷ search) replace_with ≡ some (join (split s (d ∷ search)) replace_with)
  unfolding replace
  replace-join s = elim (Option-cases (find (d ∷ search) s)) [
    | inl e ↦ rw (replace, e, split_whole d search s e, join_one s replace_with) refl
    | inr (pos, e) ↦ rw (replace, e) (replace_loop-join (suc (length s)) s [] (omega arith))
  ]

-- With an empty search text no fuel is enough, whatever the text.
pub replace_loop-endless :
    (fuel : ℕ) (s replace_with result : Bytes) → replace_loop fuel s [] replace_with result ≡ none
unfolding replace_loop find starts
replace_loop-endless zero s replace_with result = refl
replace_loop-endless (suc fuel) [] replace_with result = replace_loop-endless fuel [] replace_with _
replace_loop-endless (suc fuel) (c ∷ s) replace_with result =
    replace_loop-endless fuel (c ∷ s) replace_with _

-- One byte for another.
unfoldable pub swapped : ℕ → ℕ → Bytes → Bytes
swapped a b [] = []
swapped a b (c ∷ s) = (if c == a then b else c) ∷ swapped a b s

module _ (a b : ℕ) where
  swapped-append : (s t : Bytes) → swapped a b (s ++ t) ≡ swapped a b s ++ swapped a b t
  unfolding swapped
  swapped-append [] t = refl
  swapped-append (c ∷ s) t = ap (λ x. (if c == a then b else c) ∷ x) (swapped-append s t)

  pub swapped-Lacks : (s : Bytes) → Lacks a s → swapped a b s ≡ s
  unfolding swapped
  swapped-Lacks [] h = refl
  swapped-Lacks (c ∷ s) (ne, h) = rw (swapped-Lacks s h) (ground arith)

  swapped-first : (s : Bytes) → swapped a b (a ∷ s) ≡ b ∷ swapped a b s
  unfolding swapped
  swapped-first s = ground arith

  swapped-join :
      (fuel : ℕ) (s : Bytes) → length s < fuel → join (split s (a ∷ [])) (b ∷ []) ≡ swapped a b s
  swapped-join zero s h = ground arith
  swapped-join (suc fuel) s h = elim (Option-cases (find (a ∷ []) s)) [
    | inl e ↦
        rw (split_whole a [] s e, join_one s (b ∷ []))
          (sym (swapped-Lacks s (find_byte_none→Lacks a s e)))
    | inr (pos, e) ↦
        let rest : Bytes = drop (pos + 1) s in
        join-found a [] (b ∷ []) s e
        ∙ ap (λ x. take pos s ++ b ∷ x)
            (swapped-join fuel rest (omega (arith, rest_shorter a [] s e)))
        ∙ ap₂ (λ x y. x ++ y) (sym (swapped-Lacks (take pos s) (find_byte→Lacks a s e)))
            (sym (swapped-first rest))
        ∙ sym (swapped-append (take pos s) (a ∷ rest))
        ∙ ap (swapped a b) (sym (find→eq (a ∷ []) s e))
  ]

  -- To replace a byte by another is to exchange it at each place.
  pub replace-swapped : (s : Bytes) → replace s (a ∷ []) (b ∷ []) ≡ some (swapped a b s)
  replace-swapped s =
      replace-join a [] (b ∷ []) s ∙ ap some (swapped-join (suc (length s)) s (omega arith))
