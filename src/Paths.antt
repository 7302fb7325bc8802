-- ===== src/Paths.antt =====
-- The functions on paths of src/lib/sys.cpp that do not read the file system; `realpath` is a parameter.
pub mod Joined
pub mod Within
use uce.Base.{
  ℕ, zero, suc, ◌+◌, Bool, true, false, ◌||◌, List, [], ◌∷◌, ◌++◌, Option, none, some, Bytes,
  length, equal, ◌==◌, if◌then◌else◌, codes,
}
use uce.Text.Nibble.{nibble, str_starts_with}
use uce.Text.Split.{split, join}

-- Every round but the last takes a byte at least.
unfoldable pub basename_loop : ℕ → Bytes → Bytes → Bytes
basename_loop fuel [] result = result
basename_loop zero (c ∷ fn) result = result
basename_loop (suc fuel) (c ∷ fn) result =
    let (piece, rest) = nibble (codes "/") (c ∷ fn) in basename_loop fuel rest piece

unfoldable pub basename : Bytes → Bytes
basename fn = basename_loop (length fn) fn []

-- `pop_back`, which is undefined on an empty vector.
unfoldable pub pop_back {ℓ} : {A : Type ℓ} → List A → Option (List A)
pop_back [] = none
pop_back (x ∷ []) = some []
pop_back (x ∷ y ∷ l) = elim (pop_back (y ∷ l)) [ none ↦ none | some m ↦ some (x ∷ m) ]

unfoldable pub dirname : Bytes → Option Bytes
dirname fn = elim (pop_back (split fn (codes "/"))) [
  | none ↦ none
  | some seg ↦ some (join seg (codes "/"))
]

unfoldable pub ends_in_slash : Bytes → Bool
ends_in_slash [] = false
ends_in_slash (c ∷ []) = c == b'/'
ends_in_slash (c ∷ d ∷ s) = ends_in_slash (d ∷ s)

unfoldable pub starts_with_slash : Bytes → Bool
starts_with_slash [] = false
starts_with_slash (c ∷ s) = c == b'/'

unfoldable pub path_join : Bytes → Bytes → Bytes
path_join base child =
    if equal base []
    then child
    else if equal child []
    then base
    else if starts_with_slash child
    then child
    else if ends_in_slash base
    then base ++ child
    else base ++ (b'/' ∷ child)

-- `path_real` gives the empty path where `realpath` fails.
unfoldable pub path_is_within : (Bytes → Bytes) → Bytes → Bytes → Bool
path_is_within path_real path root =
    let real_path = path_real path in
    let real_root = path_real root in
    if equal real_path [] || equal real_root []
    then false
    else if equal real_path real_root
    then true
    else str_starts_with real_path
        (if ends_in_slash real_root then real_root else real_root ++ (b'/' ∷ []))

-- The loop over the segments of the relative path.
unfoldable pub expand_segments : List Bytes → List Bytes → Option (List Bytes)
expand_segments base_path [] = some base_path
expand_segments base_path (s ∷ rel_path) =
    let further = expand_segments (base_path ++ s ∷ []) rel_path in
    let same = expand_segments base_path rel_path in
    if equal s (codes "..")
    then elim (pop_back base_path) [ none ↦ none | some shorter ↦ expand_segments shorter rel_path ]
    else if equal s (codes ".")
    then same
    else further

-- `cwd` is `cwd_get()`.
unfoldable pub expand_path : Bytes → Bytes → Bytes → Option Bytes
expand_path cwd path relative_to_path =
    let base = if equal relative_to_path [] then cwd else relative_to_path in
    elim (expand_segments (split base (codes "/")) (split path (codes "/"))) [
      | none ↦ none
      | some base_path ↦ some (join base_path (codes "/"))
    ]
