-- ===== src/Text/Split.antt =====
-- `split` and `join` of src/lib/functionlib.cpp. `start` is the place where the unread text begins.
use uce.Base.{
  ℕ, zero, suc, ◌+◌, ◌<◌, true, List, [], ◌∷◌, ◌++◌, ◌≡◌, refl, sym, ◌∙◌, ap, ap₂, drop_past, none,
  some, inl, inr, append_assoc, append-nil, Bytes, length, take, drop, ltb, find, find→eq, find-le,
  find_byte, find_byte_none, find_byte_none→Lacks, find_byte→Lacks, All, Lacks, if◌then◌else◌,
  length-drop, arith, Option-cases, take-length_append,
}
use native.Mathlib.Numerals.{add-one}

split_loop : ℕ → Bytes → Bytes → List Bytes
split_loop zero rest delim = rest ∷ []
split_loop (suc fuel) rest delim = elim (find delim rest) [
  | none ↦ rest ∷ []
  | some stop ↦ take stop rest ∷ split_loop fuel (drop (stop + length delim) rest) delim
]

unfoldable pub split : Bytes → Bytes → List Bytes
unfolding split_loop
split str [] = str ∷ []
split str (d ∷ delim) = split_loop (suc (length str)) str (d ∷ delim)

join_loop : ℕ → List Bytes → Bytes → Bytes → Bytes
join_loop i [] delim result = result
join_loop i (s ∷ l) delim result =
    join_loop (i + 1) l delim ((if ltb 0 i then result ++ delim else result) ++ s)

unfoldable pub join : List Bytes → Bytes → Bytes
unfolding join_loop
join l delim = join_loop 0 l delim []

-- The parts, each behind the delimiter.
abbrev pub behind : Bytes → List Bytes → Bytes
behind delim [] = []
behind delim (s ∷ l) = delim ++ (s ++ behind delim l)

positive_suc : (i : ℕ) → ltb 0 (suc i) ≡ true
positive_suc i = ground arith

join_loop-behind :
    (i : ℕ) (l : List Bytes) (delim result : Bytes)
    → join_loop (suc i) l delim result ≡ result ++ behind delim l
unfolding join_loop
join_loop-behind i [] delim result = sym (append-nil result)
join_loop-behind i (s ∷ l) delim result =
    rw (add-one, positive_suc) (join_loop-behind (suc i) l delim _ ∙ simp append_assoc)

pub join-behind :
    (s : Bytes) (l : List Bytes) (delim : Bytes) → join (s ∷ l) delim ≡ s ++ behind delim l
unfolding join join_loop
join-behind s l delim = join_loop-behind 0 l delim s

pub join_cons :
    (s t : Bytes) (l : List Bytes) (delim : Bytes)
    → join (s ∷ t ∷ l) delim ≡ s ++ (delim ++ join (t ∷ l) delim)
join_cons s t l delim = rw (join-behind s (t ∷ l) delim, join-behind t l delim)

pub join_one : (s delim : Bytes) → join (s ∷ []) delim ≡ s
join_one s delim = rw join-behind (append-nil s)

module _ (d : ℕ) (delim : Bytes) where
  -- A text with the delimiter gives the piece before it, and then what the rest gives.
  split_loop_found :
      (fuel : ℕ) (s : Bytes) {stop : ℕ}
      → find (d ∷ delim) s ≡ some stop
      → split_loop (suc fuel) s (d ∷ delim)
        ≡ take stop s ∷ split_loop fuel (drop (stop + length (d ∷ delim)) s) (d ∷ delim)
  unfolding split_loop
  split_loop_found fuel s e = rw (e, split_loop)

  split_loop_whole :
      (fuel : ℕ) (s : Bytes) → find (d ∷ delim) s ≡ none → split_loop fuel s (d ∷ delim) ≡ s ∷ []
  unfolding split_loop
  split_loop_whole zero s e = refl
  split_loop_whole (suc fuel) s e = rw (e, split_loop)

  pub rest_shorter :
      (s : Bytes) {stop : ℕ}
      → find (d ∷ delim) s ≡ some stop
      → length (drop (stop + length (d ∷ delim)) s) < length s
  rest_shorter s {stop} e =
      omega (arith, find-le (d ∷ delim) s e, length-drop (stop + length (d ∷ delim)) s)

  -- Any two amounts of fuel above the length give the same pieces.
  split_loop-fuel :
      (f g : ℕ) (s : Bytes)
      → length s < f
      → length s < g
      → split_loop f s (d ∷ delim) ≡ split_loop g s (d ∷ delim)
  split_loop-fuel zero g s h k = absurd (omega arith)
  split_loop-fuel (suc f) zero s h k = absurd (omega arith)
  split_loop-fuel (suc f) (suc g) s h k = elim (Option-cases (find (d ∷ delim) s)) [
    | inl e ↦ split_loop_whole (suc f) s e ∙ sym (split_loop_whole (suc g) s e)
    | inr (stop, e) ↦
        split_loop_found f s e
        ∙ ap (◌∷◌ (take stop s)) (
            split_loop-fuel f g _ (omega (arith, rest_shorter s e))
              (omega (arith, rest_shorter s e)))
        ∙ sym (split_loop_found g s e)
  ]

  -- The loop of `split`: its fuel is enough.
  pub split_found :
      (s : Bytes) {stop : ℕ}
      → find (d ∷ delim) s ≡ some stop
      → split s (d ∷ delim) ≡ take stop s ∷ split (drop (stop + length (d ∷ delim)) s) (d ∷ delim)
  unfolding split
  split_found s {stop} e =
      split_loop_found (length s) s e
      ∙ ap (◌∷◌ (take stop s)) (
          split_loop-fuel _ (suc (length (drop (stop + length (d ∷ delim)) s))) _ (rest_shorter s e)
            (omega arith))

  pub split_whole : (s : Bytes) → find (d ∷ delim) s ≡ none → split s (d ∷ delim) ≡ s ∷ []
  unfolding split
  split_whole s e = split_loop_whole (suc (length s)) s e

  behind-split_loop :
      (fuel : ℕ) (s : Bytes) → behind (d ∷ delim) (split_loop fuel s (d ∷ delim)) ≡ (d ∷ delim) ++ s
  behind-split_loop zero s = unfold split_loop in ap (λ t. (d ∷ delim) ++ t) (append-nil s)
  behind-split_loop (suc fuel) s = elim (Option-cases (find (d ∷ delim) s)) [
    | inl e ↦ rw (split_loop_whole (suc fuel) s e) (ap (λ t. (d ∷ delim) ++ t) (append-nil s))
    | inr (stop, e) ↦
        rw (split_loop_found fuel s e, behind-split_loop fuel)
          (ap (λ t. (d ∷ delim) ++ t) (sym (find→eq (d ∷ delim) s e)))
  ]

  join-split_loop : (fuel : ℕ) (s : Bytes) → join (split_loop fuel s (d ∷ delim)) (d ∷ delim) ≡ s
  join-split_loop zero s = unfold split_loop in join_one s (d ∷ delim)
  join-split_loop (suc fuel) s = elim (Option-cases (find (d ∷ delim) s)) [
    | inl e ↦ rw (split_loop_whole (suc fuel) s e) (join_one s (d ∷ delim))
    | inr (stop, e) ↦
        rw (split_loop_found fuel s e, join-behind, behind-split_loop)
          (sym (find→eq (d ∷ delim) s e))
  ]

-- Joining the pieces of a split with the delimiter gives the text back, for every text and every
-- delimiter.
pub join-split : (s delim : Bytes) → join (split s delim) delim ≡ s
unfolding split
join-split s [] = join_one s []
join-split s (d ∷ delim) = join-split_loop d delim (suc (length s)) s

module _ (b : ℕ) where
  pub split_at : (p r : Bytes) → Lacks b p → split (p ++ b ∷ r) (b ∷ []) ≡ p ∷ split r (b ∷ [])
  split_at p r h =
      split_found b [] (p ++ b ∷ r) (find_byte b p r h)
      ∙ ap₂ (λ x y. x ∷ split y (b ∷ [])) (take-length_append p (b ∷ r)) (drop_past p b r)

  pub split_none : (p : Bytes) → Lacks b p → split p (b ∷ []) ≡ p ∷ []
  split_none p h = split_whole b [] p (find_byte_none b p h)

  -- Splitting a join gives the pieces back, if there is one and none holds the delimiter.
  pub split-join :
      (p : Bytes) (ps : List Bytes)
      → All (Lacks b) (p ∷ ps)
      → split (join (p ∷ ps) (b ∷ [])) (b ∷ []) ≡ p ∷ ps
  split-join p [] (h, _) = rw join_one (split_none p h)
  split-join p (q ∷ ps) (h, k) = rw join_cons (split_at p _ h ∙ ap (◌∷◌ p) (split-join q ps k))

  split_loop-Lacks :
      (fuel : ℕ) (s : Bytes) → length s < fuel → All (Lacks b) (split_loop fuel s (b ∷ []))
  split_loop-Lacks zero s h = absurd (omega arith)
  split_loop-Lacks (suc fuel) s h = elim (Option-cases (find (b ∷ []) s)) [
    | inl e ↦ rw (split_loop_whole b [] (suc fuel) s e) (find_byte_none→Lacks b s e, tt)
    | inr (stop, e) ↦
        rw (split_loop_found b [] fuel s e)
          (find_byte→Lacks b s e, split_loop-Lacks fuel _ (omega (arith, rest_shorter b [] s e)))
  ]

  -- No piece holds the delimiter.
  pub split-Lacks : (s : Bytes) → All (Lacks b) (split s (b ∷ []))
  unfolding split
  split-Lacks s = split_loop-Lacks (suc (length s)) s (omega arith)

split_loop-cons :
    (fuel : ℕ) (s delim : Bytes)
    → (t : Bytes) × (l : List Bytes) × (split_loop fuel s delim ≡ t ∷ l)
unfolding split_loop
split_loop-cons zero s delim = (s, [], refl)
split_loop-cons (suc fuel) s delim = elim (Option-cases (find delim s)) [
  | inl e ↦ (s, [], rw (e, split_loop) refl)
  | inr (stop, e) ↦
      (take stop s, split_loop fuel (drop (stop + length delim) s) delim, rw (e, split_loop) refl)
]

-- A text has at least one piece.
pub split-cons : (s delim : Bytes) → (t : Bytes) × (l : List Bytes) × (split s delim ≡ t ∷ l)
unfolding split
split-cons s [] = (s, [], refl)
split-cons s (d ∷ delim) = split_loop-cons (suc (length s)) s (d ∷ delim)
