-- ===== src/Zip/Names.antt =====
-- The names that `zip_create` gives to the miniz library.
pub mod Shrink
pub mod Archives
use uce.Base.{
  ℕ, zero, suc, ◌+◌, ◌≤◌, ◌<◌, Bool, true, false, not, ◌&&◌, List, [], ◌∷◌, ◌++◌, ◌≡◌, ◌≢◌, ◌⊎◌,
  inl, inr, refl, ap, sym, ◌∙◌, Option, none, some, Bytes, length, equal, equal_iff, find, starts,
  ltb, ◌==◌, if◌then◌else◌, codes, All, Lacks, arith, Option-cases, Bool-cases,
  find_byte_none→Lacks, All-append, and_left, and_right, length-append,
}
use uce.Compiler.Code.{peek}
use uce.Gzip.{Result, thrown, value, archive_check_size}
use uce.Text.Replace.{replace, replace-join, swapped, swapped-Lacks, replace-swapped}
use uce.Text.Split.{split, join}
use uce.Tree.{DTree, each}
use uce.Zip.Names.Shrink.{join_lt, join-All, swapped_gone}
use uce.Zip.{
  single_slashes, zip_normalize_entry_name, has_root, has_control, has_parent, found,
  zip_entry_name_safe, Archive, zip_entry_content, zip_entry_name, add_named, zip_add_entry,
  add_entries, zip_create,
}

-- No path from the root, and not the empty one.
abbrev pub IsRelative : Bytes → Type 0
IsRelative [] = ⊥
IsRelative (c ∷ name) = c ≢ b'/'

-- A relative path without `..`, double slashes, backslashes, colons and control characters.
abbrev pub IsName : Bytes → Type 0
IsName name =
    IsRelative name
    × Lacks b':' name
    × All (λ c. 32 ≤ c) name
    × All (λ part. part ≢ codes "..") (split name (codes "/"))
    × (find (codes "//") name ≡ none)
    × Lacks 92 name

slash_ne : (c : ℕ) → c ≡ b'/' → c ≢ 92
slash_ne c e h = omega arith

single_slashes_lem :
    (fuel : ℕ) (name : Bytes)
    → length name ≤ fuel
    → Lacks 92 name
    → (n : Bytes) × (single_slashes fuel name ≡ some n) × (find (codes "//") n ≡ none) × Lacks 92 n
unfolding single_slashes find starts
single_slashes_lem zero [] h l = ([], refl, refl, tt)
single_slashes_lem zero (c ∷ name) h l = absurd (omega arith)
single_slashes_lem (suc fuel) name h l = elim (Option-cases (find (codes "//") name)) [
  | inl e ↦ (name, rw (single_slashes, e) refl, e, l)
  | inr (pos, e) ↦
      let shorter : Bytes = join (split name (codes "//")) (codes "/") in
      let (n, p, q, r) =
        single_slashes_lem fuel shorter (omega (arith, join_lt name e))
          (join-All (λ c. c ≢ 92) b'/' (codes "/") (codes "/") (slash_ne b'/' refl, tt) name l) in
      (n, rw (single_slashes, e, replace-join b'/' (codes "/") (codes "/") name) p, q, r)
]

-- The loop over double slashes ends, and leaves neither a double slash nor a backslash.
pub zip_normalize_entry_name_lem :
    (name : Bytes)
    → (n : Bytes) × (zip_normalize_entry_name name ≡ some n)
      × (find (codes "//") n ≡ none)
      × Lacks 92 n
unfolding zip_normalize_entry_name
zip_normalize_entry_name_lem name =
    let slashed : Bytes = swapped 92 b'/' name in
    let (n, p, q, r) =
      single_slashes_lem (length slashed) slashed (omega arith)
        (swapped_gone 92 b'/' (slash_ne b'/' refl) name) in
    (n, rw (zip_normalize_entry_name, replace-swapped 92 b'/' name) p, q, r)

has_parent-All :
    (parts : List Bytes) → has_parent parts ≡ false → All (λ part. part ≢ codes "..") parts
unfolding has_parent
has_parent-All [] h = tt
has_parent-All (part ∷ parts) h = ground (arith, has_parent-All parts, equal_iff part (codes ".."))

found-Lacks : (c : ℕ) (name : Bytes) → found (find (c ∷ []) name) ≡ false → Lacks c name
unfolding found
found-Lacks c name h = elim (Option-cases (find (c ∷ []) name)) [
  | inl e ↦ find_byte_none→Lacks c name e
  | inr (pos, e) ↦ cc (h, ap found e)
]

-- The test is total.
zip_entry_name_safe_total :
    (name : Bytes)
    → zip_entry_name_safe name
      ≡ some (
          not (has_root name)
          && (not (found (find (codes ":") name))
              && (not (has_control name)
                  && not (has_parent (split (swapped 92 b'/' name) (codes "/"))))))
unfolding zip_entry_name_safe
zip_entry_name_safe_total name = elim (Bool-cases (has_root name)) [
  | inl a ↦ rw (zip_entry_name_safe, a) refl
  | inr a ↦ elim (Bool-cases (found (find (codes ":") name))) [
    | inl b ↦ rw (zip_entry_name_safe, a, b) refl
    | inr b ↦ elim (Bool-cases (has_control name)) [
      | inl c ↦ rw (zip_entry_name_safe, a, b, c) refl
      | inr c ↦ rw (zip_entry_name_safe, a, b, c, replace-swapped 92 b'/' name) refl
    ]
  ]
]

four_tests :
    (a b c d : Bool)
    → some (not a && (not b && (not c && not d))) ≡ some true
    → (a ≡ false) × (b ≡ false) × (c ≡ false) × (d ≡ false)
four_tests false false false false h = (refl, refl, refl, refl)
four_tests true b c d h = cc h
four_tests false true c d h = cc h
four_tests false false true d h = cc h
four_tests false false false true h = cc h

has_root-IsRelative : (name : Bytes) → has_root name ≡ false → IsRelative name
unfolding has_root
has_root-IsRelative [] h = cc h
has_root-IsRelative (c ∷ name) h = λ e. ground arith

has_control-All : (name : Bytes) → has_control name ≡ false → All (λ c. 32 ≤ c) name
unfolding has_control
has_control-All [] h = tt
has_control-All (c ∷ name) h = ground (arith, has_control-All name)

-- A name without backslashes and double slashes that passes the test.
pub zip_entry_name_safe-IsName :
    (name : Bytes)
    → zip_entry_name_safe name ≡ some true
    → find (codes "//") name ≡ none
    → Lacks 92 name
    → IsName name
zip_entry_name_safe-IsName name h q l =
    let (a, b, c, d) = four_tests _ _ _ _ (sym (zip_entry_name_safe_total name) ∙ h) in
    (
      has_root-IsRelative name a,
      found-Lacks b':' name b,
      has_control-All name c,
      has_parent-All _
          (ap (λ n. has_parent (split n (codes "/"))) (sym (swapped-Lacks 92 b'/' name l)) ∙ d),
      q,
      l,
    )
