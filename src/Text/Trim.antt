-- ===== src/Text/Trim.antt =====
-- `trim` of src/lib/functionlib.cpp, and the two searches from the ends that it and
-- `find_first_not_of`, `find_last_not_of` make.
use uce.Base.{
  ℕ, zero, suc, ◌-◌, ◌≤◌, ◌<◌, Bool, true, false, [], ◌∷◌, ◌++◌, ◌≡◌, refl, sym, ◌∙◌, ap, ◌&&◌, inl,
  inr, append-nil, Bytes, length, take, drop, leb, ◌==◌, All, if◌then◌else◌, arith, Bool-cases,
  length-take, take-drop, take-length,
}
use uce.Base.Chars.{is_space}
use uce.Base.Slices.{drop-drop}

module _ (skip : ℕ → Bool) where
  -- The place where the loop from the front stops: the first byte that is not to be skipped.
  unfoldable pub front : Bytes → ℕ
  front [] = 0
  front (c ∷ s) = if skip c then suc (front s) else 0

  -- One past the place where the loop from the back stops: the last byte that is not skipped.
  unfoldable pub back : Bytes → ℕ
  back [] = 0
  back (c ∷ s) = let n = back s in if n == 0 && skip c then 0 else suc n

  abbrev pub Skipped : Bytes → Type 0
  Skipped = All (λ c. skip c ≡ true)

  pub front-le : (s : Bytes) → front s ≤ length s
  unfolding front
  front-le [] = omega arith
  front-le (c ∷ s) = ground (arith, front-le s)

  pub back-le : (s : Bytes) → back s ≤ length s
  unfolding back
  back-le [] = omega arith
  back-le (c ∷ s) = ground (arith, back-le s)

  pub front-Skipped : (s : Bytes) → Skipped (take (front s) s)
  unfolding front
  front-Skipped [] = tt
  front-Skipped (c ∷ s) = ground (arith, front-Skipped s)

  pub back-Skipped : (s : Bytes) → Skipped (drop (back s) s)
  unfolding back
  back-Skipped [] = tt
  back-Skipped (c ∷ s) = elim (Bool-cases (back s == 0 && skip c)) [
    | inl e ↦ rw e (ground (arith, back-Skipped s))
    | inr e ↦ rw e (back-Skipped s)
  ]

  -- A text that is skipped from both ends is skipped whole.
  pub Skipped-all : (s : Bytes) → back s ≤ front s → Skipped s
  unfolding front back
  Skipped-all [] h = tt
  Skipped-all (c ∷ s) h = ground (arith, Skipped-all s)

  front-drop : (s : Bytes) → front (drop (front s) s) ≡ 0
  unfolding front
  front-drop [] = refl
  front-drop (c ∷ s) = elim (Bool-cases (skip c)) [
    | inl e ↦ rw e (front-drop s)
    | inr e ↦ rw (e, e)
  ]

  front-take : (n : ℕ) (s : Bytes) → front s ≡ 0 → front (take n s) ≡ 0
  unfolding front
  front-take zero s h = refl
  front-take (suc n) [] h = refl
  front-take (suc n) (c ∷ s) h = ground arith

  back-drop : (n : ℕ) (s : Bytes) → n < back s → back (drop n s) ≡ back s - n
  unfolding back
  back-drop zero s h = omega arith
  back-drop (suc n) [] h = absurd (omega arith)
  back-drop (suc n) (c ∷ s) h = ground (arith, back-drop n s)

  back-take : (s : Bytes) → back (take (back s) s) ≡ back s
  unfolding back
  back-take [] = refl
  back-take (c ∷ s) = elim (Bool-cases (back s == 0 && skip c)) [
    | inl e ↦ rw e refl
    | inr e ↦ rw (e, back-take s, e)
  ]

  pub strip : Bytes → Bytes
  strip s = if leb (back s) (front s) then [] else take (back s - front s) (drop (front s) s)

  -- The text is what is skipped in front, the result, and what is skipped behind.
  pub strip_splits : (s : Bytes) → (l r : Bytes) × (s ≡ l ++ (strip s ++ r)) × Skipped l × Skipped r
  unfolding strip
  strip_splits s = elim (Bool-cases (leb (back s) (front s))) [
    | inl e ↦ (s, [], rw e (sym (append-nil s)), Skipped-all s (ground arith), tt)
    | inr e ↦
        let rest = drop (front s) s in
        let width = back s - front s in
        let end : drop width rest ≡ drop (back s) s =
          drop-drop width (front s) s ∙ ap (λ n. drop n s) (ground arith) in
        (
          take (front s) s,
          drop (back s) s,
          rw e (
              sym (
                ap (λ t. take (front s) s ++ (take width rest ++ t)) (sym end)
                ∙ ap (λ t. take (front s) s ++ t) (take-drop width rest)
                ∙ take-drop (front s) s)),
          front-Skipped s,
          back-Skipped s,
        )
  ]

  -- The result neither begins nor ends with a byte that is skipped.
  pub strip_ends : (s : Bytes) → (front (strip s) ≡ 0) × (back (strip s) ≡ length (strip s))
  unfolding strip
  strip_ends s = elim (Bool-cases (leb (back s) (front s))) [
    | inl e ↦ rw e (unfold front back in (refl, refl))
    | inr e ↦
        let less : front s < back s = ground arith in
        let width = back-drop (front s) s less in
        rw e (
          front-take _ _ (front-drop s),
          rw (← width)
              (back-take (drop (front s) s) ∙ sym (length-take _ _ (back-le (drop (front s) s)))),
        )
  ]

  pub strip_fixed : (s : Bytes) → front s ≡ 0 → back s ≡ length s → strip s ≡ s
  unfolding strip
  strip_fixed [] f b = unfold front back in refl
  strip_fixed (c ∷ s) f b =
      let positive : leb (length (c ∷ s)) 0 ≡ false = ground arith in
      let whole : length (c ∷ s) - 0 ≡ length (c ∷ s) = omega arith in
      rw (f, b, positive, whole) (take-length (c ∷ s))

  pub strip-strip : (s : Bytes) → strip (strip s) ≡ strip s
  strip-strip s = strip_fixed (strip s) (strip_ends s).0 (strip_ends s).1

-- `trim`
unfoldable pub trim : Bytes → Bytes
unfolding front back is_space
trim raw =
    if leb (back is_space raw) (front is_space raw)
    then []
    else take (back is_space raw - front is_space raw) (drop (front is_space raw) raw)

pub trim-strip : (s : Bytes) → trim s ≡ strip is_space s
unfolding trim strip
trim-strip s = refl

-- `trim` takes white space from both ends and nothing else: what it takes is white space, and what
-- is left neither begins nor ends with it.
pub trim_lem :
    (s : Bytes)
    → ((l r : Bytes) × (s ≡ l ++ (trim s ++ r)) × Skipped is_space l × Skipped is_space r)
      × (front is_space (trim s) ≡ 0)
      × (back is_space (trim s) ≡ length (trim s))
trim_lem s =
    rw trim-strip (strip_splits is_space s, (strip_ends is_space s).0, (strip_ends is_space s).1)

pub trim-trim : (s : Bytes) → trim (trim s) ≡ trim s
trim-trim s = rw (trim-strip (trim s), trim-strip s) (strip-strip is_space s)
