-- ===== src/Paths/Within.antt =====
-- What `expand_path` and `path_is_within` keep inside a directory.
use uce.Base.{
  true, false, ◌||◌, List, [], ◌∷◌, ◌++◌, ◌≡◌, ◌≢◌, ◌⊎◌, refl, ap, sym, ◌∙◌, inl, inr, some, Bytes,
  length, drop, append_assoc, append-nil, arith, equal, equal_iff, codes, All, Bool-cases, ==→eq,
  if◌then◌else◌,
}
use uce.Paths.{ends_in_slash, path_is_within, expand_segments, expand_path}
use uce.Text.Nibble.{str_starts_with, str_starts_with→eq}
use uce.Text.Pieces.{split-append, join-behind-split}
use uce.Text.Split.{split, behind}

differs : (s t : Bytes) → s ≢ t → equal s t ≡ false
differs s t ne = ground (arith, equal_iff s t)

expand_segments_behind :
    (base_path rel_path : List Bytes)
    → All (λ s. s ≢ codes "..") rel_path
    → (more : List Bytes) × (expand_segments base_path rel_path ≡ some (base_path ++ more))
unfolding expand_segments
expand_segments_behind base_path [] a = ([], ap some (sym (append-nil base_path)))
expand_segments_behind base_path (s ∷ rel_path) (ne, a) = elim (Bool-cases (equal s (codes "."))) [
  | inl e ↦
      let (more, p) = expand_segments_behind base_path rel_path a in
      (more, rw (expand_segments, differs s (codes "..") ne, e) p)
  | inr e ↦
      let (more, p) = expand_segments_behind (base_path ++ s ∷ []) rel_path a in
      (
        s ∷ more,
        rw (expand_segments, differs s (codes "..") ne, e)
            (p ∙ ap some (append_assoc base_path (s ∷ []) more)),
      )
]

-- A path without a segment `..` is expanded to the directory it is relative to, followed by nothing or by
-- segments behind slashes.
pub expand_path-behind :
    (cwd path relative_to_path : Bytes)
    → All (λ s. s ≢ codes "..") (split path (codes "/"))
    → (more : List Bytes) × (expand_path cwd path relative_to_path
        ≡ some (
            (if equal relative_to_path [] then cwd else relative_to_path)
            ++ behind (codes "/") more))
unfolding expand_path
expand_path-behind cwd path relative_to_path a =
    let base : Bytes = if equal relative_to_path [] then cwd else relative_to_path in
    let (more, p) = expand_segments_behind (split base (codes "/")) (split path (codes "/")) a in
    (more, rw (expand_path, p) (ap some (join-behind-split base more (codes "/"))))

-- A directory without its last slash.
slash_split : (s : Bytes) → ends_in_slash s ≡ true → (base : Bytes) × (s ≡ base ++ codes "/")
unfolding ends_in_slash
slash_split [] h = cc h
slash_split (c ∷ []) h = ([], ap (λ x. x ∷ []) (==→eq c b'/' h))
slash_split (c ∷ d ∷ s) h = let (base, p) = slash_split (d ∷ s) h in (c ∷ base, ap (◌∷◌ c) p)

unfoldable pub IsInside : Bytes → Bytes → Type 0
IsInside p r =
    (p ≡ r)
    ⊎ ((base : Bytes) × (rest : Bytes) × ((r ≡ base) ⊎ (r ≡ base ++ codes "/"))
        × (split p (codes "/") ≡ split base (codes "/") ++ split rest (codes "/")))

slash_behind :
    (p base : Bytes)
    → str_starts_with p (base ++ codes "/") ≡ true
    → (rest : Bytes) × (split p (codes "/") ≡ split base (codes "/") ++ split rest (codes "/"))
slash_behind p base h =
    let rest : Bytes = drop (length (base ++ codes "/")) p in
    (
      rest,
      ap (λ x. split x (codes "/"))
            (str_starts_with→eq p (base ++ codes "/") h ∙ append_assoc base (codes "/") rest)
          ∙ split-append b'/' base rest,
    )

within_split :
    (p r : Bytes)
    → (if equal p [] || equal r []
        then false
        else if equal p r
        then true
        else str_starts_with p (if ends_in_slash r then r else r ++ (b'/' ∷ [])))
      ≡ true
    → IsInside p r
unfolding IsInside
within_split p r h = elim (Bool-cases (equal p [] || equal r [])) [
  | inl e ↦ cc (rw e at h)
  | inr e ↦ elim (Bool-cases (equal p r)) [
    | inl f ↦ inl ((equal_iff p r).0 f)
    | inr f ↦ elim (Bool-cases (ends_in_slash r)) [
      | inl g ↦
          let (base, q) = slash_split r g in
          let (rest, s) =
            slash_behind p base (ap (str_starts_with p) (sym q) ∙ (rw (e, f, g) at h)) in
          inr (base, rest, inr q, s)
      | inr g ↦ let (rest, s) = slash_behind p r (rw (e, f, g) at h) in inr (r, rest, inl refl, s)
    ]
  ]
]

-- Where `path_is_within` says yes, the resolved path is the resolved directory, or its segments are those
-- of the directory, a last slash aside, and then others; so `/srv/a2` is not within `/srv/a`.
pub path_is_within-split :
    (path_real : Bytes → Bytes) (path root : Bytes)
    → path_is_within path_real path root ≡ true
    → (path_real path ≡ path_real root)
      ⊎ ((base : Bytes) × (rest : Bytes) × ((path_real root ≡ base)
            ⊎ (path_real root ≡ base ++ codes "/"))
          × (split (path_real path) (codes "/") ≡ split base (codes "/") ++ split rest (codes "/")))
unfolding path_is_within IsInside
path_is_within-split path_real path root h = within_split (path_real path) (path_real root) h
