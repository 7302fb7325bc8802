-- ===== src/Text/Nibble.antt =====
-- `nibble` of src/lib/types.cpp and src/lib/functionlib.cpp, and the prefix and suffix tests. A
-- text that the source shortens in place is returned beside the result.
use uce.Base.{
  ℕ, ◌+◌, ◌-◌, Bool, true, false, [], ◌∷◌, ◌++◌, ◌≡◌, sym, ◌∙◌, none, some, Bytes, length, take,
  drop, ltb, equal, equal_iff, find, find→eq, find_byte, find_byte_none, Lacks, if◌then◌else◌,
  take-length_append, take-drop, arith, ap, drop_past,
}

-- The first piece, and what is left of the text.
unfoldable pub nibble : Bytes → Bytes → Bytes × Bytes
nibble div haystack = elim (find div haystack) [
  | none ↦ (haystack, [])
  | some pos ↦ (take pos haystack, drop (pos + length div) haystack)
]

unfoldable pub str_starts_with : Bytes → Bytes → Bool
str_starts_with haystack needle =
    if ltb (length haystack) (length needle)
    then false
    else equal (take (length needle) haystack) needle

unfoldable pub str_ends_with : Bytes → Bytes → Bool
str_ends_with haystack needle =
    if ltb (length haystack) (length needle)
    then false
    else equal (take (length needle) (drop (length haystack - length needle) haystack)) needle

-- A text that holds the divider is its first piece, the divider and the rest.
pub nibble-found :
    (div s : Bytes) {pos : ℕ}
    → find div s ≡ some pos
    → (nibble div s).0 ++ (div ++ (nibble div s).1) ≡ s
unfolding nibble
nibble-found div s h = rw (h, nibble) (sym (find→eq div s h))

pub nibble_at : (b : ℕ) (p r : Bytes) → Lacks b p → nibble (b ∷ []) (p ++ b ∷ r) ≡ (p, r)
unfolding nibble
nibble_at b p r h =
    rw (find_byte b p r h, nibble) (cc (take-length_append p (b ∷ r), drop_past p b r))

pub nibble_whole : (b : ℕ) (p : Bytes) → Lacks b p → nibble (b ∷ []) p ≡ (p, [])
unfolding nibble
nibble_whole b p h = rw (find_byte_none b p h, nibble)

pub str_starts_with→eq : (s d : Bytes) → str_starts_with s d ≡ true → s ≡ d ++ drop (length d) s
unfolding str_starts_with
str_starts_with→eq s d h =
    let e : take (length d) s ≡ d = (equal_iff _ d).0 (ground arith) in
    sym (take-drop (length d) s) ∙ ap (λ t. t ++ drop (length d) s) e
