-- ===== src/Uri/Route.antt =====
-- Routes of src/lib/uri.cpp: `route_path_normalize`, the two tests, the two sanitizers and
-- `request_route_from_raw_path`.
pub mod Safe
use uce.Base.{
  ℕ, ◌+◌, ◌-◌, Bool, true, false, List, [], ◌∷◌, ◌++◌, Bytes, length, take, drop, ◌==◌, equal, not,
  if◌then◌else◌, ◌&&◌, ◌||◌, codes,
}
use uce.Base.Chars.{is_alnum}
use uce.Text.Nibble.{nibble}
use uce.Text.Split.{split}
use uce.Text.Trim.{front, back, trim}

abbrev pub slash : ℕ
slash = b'/'

pub is_slash : ℕ → Bool
is_slash c = c == slash

-- `find_first_not_of` gives `npos` when only slashes are left.
unfoldable pub route_path_normalize : Bytes → Bytes
unfolding trim front back is_slash
route_path_normalize raw =
    let path = trim raw in
    let start = front is_slash path in
    let end = back is_slash path - 1 in
    if start == length path then [] else take (end - start + 1) (drop start path)

unfoldable pub route_byte : ℕ → Bool
unfolding is_alnum
route_byte c = is_alnum c || c == b'-' || c == b'_'

pub route_bytes : Bytes → Bool
route_bytes [] = true
route_bytes (c ∷ part) = if not (route_byte c) then false else route_bytes part

pub route_parts : List Bytes → Bool
route_parts [] = true
route_parts (part ∷ parts) =
    if equal part [] || equal part (codes ".") || equal part (codes "..")
    then false
    else if not (route_bytes part)
    then false
    else route_parts parts

unfoldable pub route_path_normalized_is_safe : Bytes → Bool
unfolding route_parts route_bytes route_byte
route_path_normalized_is_safe path =
    if equal path [] then true else route_parts (split path (slash ∷ []))

unfoldable pub route_path_is_safe : Bytes → Bool
route_path_is_safe path = route_path_normalized_is_safe (route_path_normalize path)

unfoldable pub route_path_sanitize_normalized : Bytes → Bytes → Bytes
route_path_sanitize_normalized path default_path =
    let chosen = if equal path [] then route_path_normalize default_path else path in
    if not (route_path_normalized_is_safe chosen) then [] else chosen

unfoldable pub route_path_sanitize : Bytes → Bytes → Bytes
route_path_sanitize path default_path =
    let normal = route_path_normalize path in
    let chosen = if equal normal [] then route_path_normalize default_path else normal in
    if not (route_path_normalized_is_safe chosen) then [] else chosen

-- The entries of the tree that `request_route_from_raw_path` returns.
pub record Route : Type 0 where
  pub raw_path : Bytes
  pub l_path : Bytes
  pub page : Bytes
  pub valid : Bool

unfoldable pub request_route_from_raw_path : Bytes → Bytes → Route
request_route_from_raw_path raw default_path =
    let normalized_path = route_path_normalize raw in
    let route_path = route_path_sanitize_normalized normalized_path default_path in
    let valid = not (equal route_path []) in
    let first = if valid then (nibble (slash ∷ []) route_path).0 else [] in
    record {
      raw_path = normalized_path;
      l_path = route_path;
      page = if valid && equal first [] then default_path else first;
      valid = valid;
    }
