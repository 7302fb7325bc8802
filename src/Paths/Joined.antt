-- ===== src/Paths/Joined.antt =====
-- `basename` and `dirname` of a path that `path_join` made.
use uce.Base.{
  ℕ, zero, suc, ◌+◌, ◌≤◌, false, List, [], ◌∷◌, ◌++◌, ◌≡◌, ◌≢◌, refl, ap, ◌∙◌, inl, inr, some,
  Bytes, length, take, drop, find, find_byte→Lacks, find_byte_none→Lacks, Lacks, append_assoc,
  Option-cases, arith, length-append, equal, codes, ne→==,
}
use uce.Paths.{
  basename_loop, basename, pop_back, dirname, ends_in_slash, starts_with_slash, path_join,
}
use uce.Text.Nibble.{nibble, nibble_at, nibble_whole}
use uce.Text.Pieces.{split-append, cut_at}
use uce.Text.Split.{split, split_none, join-split, rest_shorter}

basename_loop_round :
    (fuel : ℕ) (s rest piece result : Bytes)
    → s ≢ []
    → nibble (codes "/") s ≡ (piece, rest)
    → basename_loop (suc fuel) s result ≡ basename_loop fuel rest piece
unfolding basename_loop
basename_loop_round fuel [] rest piece result ne h = absurd (ne refl)
basename_loop_round fuel (c ∷ s) rest piece result ne h = rw (basename_loop, h) refl

basename_loop_end : (fuel : ℕ) (result : Bytes) → basename_loop fuel [] result ≡ result
unfolding basename_loop
basename_loop_end zero result = refl
basename_loop_end (suc fuel) result = refl

middle_ne : (p : Bytes) (c : ℕ) (r : Bytes) → p ++ c ∷ r ≢ []
middle_ne [] c r h = cc h
middle_ne (d ∷ p) c r h = cc h

-- What follows the last slash, if it is not empty.
basename_loop_last :
    (fuel : ℕ) (d f result : Bytes)
    → length d + 2 ≤ fuel
    → f ≢ []
    → Lacks b'/' f
    → basename_loop fuel (d ++ b'/' ∷ f) result ≡ f
basename_loop_last zero d f result h ne l = absurd (omega arith)
basename_loop_last (suc zero) d f result h ne l = absurd (omega arith)
basename_loop_last (suc (suc fuel)) d f result h ne l = elim (Option-cases (find (codes "/") d)) [
  | inl e ↦
      basename_loop_round (suc fuel) (d ++ b'/' ∷ f) f d result (middle_ne d b'/' f)
        (nibble_at b'/' d f (find_byte_none→Lacks b'/' d e))
      ∙ basename_loop_round fuel f [] f d ne (nibble_whole b'/' f l)
      ∙ basename_loop_end fuel f
  | inr (pos, e) ↦
      let p : Bytes = take pos d in
      let rest : Bytes = drop (pos + 1) d in
      let shorter = rest_shorter b'/' [] d e in
      ap (λ x. basename_loop (suc (suc fuel)) x result)
        (ap (λ x. x ++ b'/' ∷ f) (cut_at b'/' d e) ∙ append_assoc p (b'/' ∷ rest) (b'/' ∷ f))
      ∙ basename_loop_round (suc fuel) (p ++ b'/' ∷ (rest ++ b'/' ∷ f)) (rest ++ b'/' ∷ f) p result
          (middle_ne p b'/' (rest ++ b'/' ∷ f))
          (nibble_at b'/' p (rest ++ b'/' ∷ f) (find_byte→Lacks b'/' d e))
      ∙ basename_loop_last (suc fuel) rest f p (omega arith) ne l
]

pub pop_back-snoc {ℓ} : {A : Type ℓ} (l : List A) (x : A) → pop_back (l ++ x ∷ []) ≡ some l
unfolding pop_back
pop_back-snoc [] x = refl
pop_back-snoc (y ∷ []) x = refl
pop_back-snoc (y ∷ z ∷ l) x = rw (pop_back-snoc (z ∷ l) x) refl

dirname_last : (d f : Bytes) → Lacks b'/' f → dirname (d ++ b'/' ∷ f) ≡ some d
unfolding dirname
dirname_last d f l =
    rw (dirname, split-append b'/' d f, split_none b'/' f l, pop_back-snoc (split d (codes "/")) f)
      (ap some (join-split d (codes "/")))

path_join_slash :
    (d f : Bytes)
    → d ≢ []
    → ends_in_slash d ≡ false
    → f ≢ []
    → Lacks b'/' f
    → path_join d f ≡ d ++ b'/' ∷ f
unfolding path_join starts_with_slash equal
path_join_slash [] f dn e fn l = absurd (dn refl)
path_join_slash (c ∷ d) [] dn e fn l = absurd (fn refl)
path_join_slash (c ∷ d) (x ∷ f) dn e fn (ne, l) = rw (path_join, ne→== x b'/' ne, e) refl

-- A directory that is not empty and does not end in a slash, and a name that is not empty and has no
-- slash, are got back from the joined path.
pub basename-path_join :
    (d f : Bytes)
    → d ≢ []
    → ends_in_slash d ≡ false
    → f ≢ []
    → Lacks b'/' f
    → (dirname (path_join d f) ≡ some d) × (basename (path_join d f) ≡ f)
unfolding basename
basename-path_join d f dn e fn l = rw (path_join_slash d f dn e fn l) (
  dirname_last d f l,
  basename_loop_last (length (d ++ b'/' ∷ f)) d f [] (rw (length-append d (b'/' ∷ f)) (long f fn))
      fn l,
)
  where
    long : (f : Bytes) → f ≢ [] → length d + 2 ≤ length d + length (b'/' ∷ f)
    long [] ne = absurd (ne refl)
    long (x ∷ f) ne = omega arith
