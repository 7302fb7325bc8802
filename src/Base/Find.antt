-- ===== src/Base/Find.antt =====
-- `std::string::find`, `compare` and `operator==` on byte strings.
use Prim.Native.Nat.{ℕ, suc, ◌+◌, ◌≤◌, compare, Ordering}
use Prim.Native.Nat.add
use native.Mathlib.Nat.{zero-add}
use mathlib.Core.Bool.{Bool, true, false, ◌&&◌}
use mathlib.Core.List.{[], ◌∷◌, ◌++◌}
use mathlib.Core.Logic.{◌⊎◌, inl, inr, ◌↔◌}
use mathlib.Core.Option
use mathlib.Core.Option.{Option, none, some}
use mathlib.Core.Path.{◌≡◌, refl, ap}
use native.Mathlib.Omega.{arith}
use uce.Base.Lists.{Bytes, length, take, drop, Lacks}
use uce.Base.Tests.{◌==◌, if◌then◌else◌}

-- `lhs == rhs`
unfoldable pub equal : Bytes → Bytes → Bool
equal [] [] = true
equal [] (d ∷ rhs) = false
equal (c ∷ lhs) [] = false
equal (c ∷ lhs) (d ∷ rhs) = if c == d then equal lhs rhs else false

pub equal_iff : (lhs rhs : Bytes) → (equal lhs rhs ≡ true) ↔ (lhs ≡ rhs)
unfolding equal
equal_iff [] [] = (λ _. refl, λ _. refl)
equal_iff [] (d ∷ rhs) = ground arith
equal_iff (c ∷ lhs) [] = ground arith
equal_iff (c ∷ lhs) (d ∷ rhs) = ground (arith, equal_iff lhs rhs)

pub equal-append_cons : (p : Bytes) (c : ℕ) (r : Bytes) → equal (p ++ c ∷ r) [] ≡ false
unfolding equal
equal-append_cons [] c r = refl
equal-append_cons (x ∷ p) c r = refl

pub equal_refl : (a : Bytes) → equal a a ≡ true
equal_refl a = (equal_iff a a).1 refl

-- `s.compare(0, d.length(), d) == 0`, `s.rfind(d, 0) == 0`
unfoldable pub starts : Bytes → Bytes → Bool
starts [] s = true
starts (x ∷ d) [] = false
starts (x ∷ d) (c ∷ s) = x == c && starts d s

-- The position of the first `d` in the text; `none` is `npos`.
unfoldable pub find : Bytes → Bytes → Option ℕ
unfolding starts
find d [] = if starts d [] then some 0 else none
find d (c ∷ s) = if starts d (c ∷ s) then some 0 else Option.map suc (find d s)

pub starts_append : (d s : Bytes) → starts d (d ++ s) ≡ true
unfolding starts
starts_append [] s = refl
starts_append (x ∷ d) s = ground (arith, starts_append d s)

pub starts→eq : (d s : Bytes) → starts d s ≡ true → s ≡ d ++ drop (length d) s
unfolding starts
starts→eq [] s h = refl
starts→eq (x ∷ d) [] h = cc
starts→eq (x ∷ d) (c ∷ s) h = ground (arith, starts→eq d s)

-- The two ways in which a position is found.
find_cases :
    (found : Bool) (later : Option ℕ) {i : ℕ}
    → (if found then some 0 else Option.map suc later) ≡ some i
    → ((found ≡ true) × (i ≡ 0)) ⊎ ((j : ℕ) × (later ≡ some j) × (i ≡ suc j) × (found ≡ false))
find_cases true later h = inl (refl, ground arith)
find_cases false none h = cc
find_cases false (some j) h = inr (j, refl, ground arith, refl)

-- What stands at the position found.
pub find→eq :
    (d s : Bytes) {i : ℕ} → find d s ≡ some i → s ≡ take i s ++ (d ++ drop (i + length d) s)
unfolding find
find→eq [] [] h = ground arith
find→eq (x ∷ d) [] h = unfold starts in cc
find→eq d (c ∷ s) {i} h = elim (find_cases (starts d (c ∷ s)) (find d s) h) [
  | inl (here, e) ↦ rw (e, zero-add) (starts→eq d (c ∷ s) here)
  | inr (j, later, e, not_here) ↦ rw (e, add.suc) (ap (◌∷◌ c) (find→eq d s later))
]

length-starts : (d s : Bytes) → starts d s ≡ true → length d ≤ length s
unfolding starts
length-starts [] s h = omega arith
length-starts (x ∷ d) [] h = cc
length-starts (x ∷ d) (c ∷ s) h = ground (arith, length-starts d s)

pub find-le : (d s : Bytes) {i : ℕ} → find d s ≡ some i → i + length d ≤ length s
unfolding find
find-le [] [] h = ground arith
find-le (x ∷ d) [] h = unfold starts in cc
find-le d (c ∷ s) {i} h = elim (find_cases (starts d (c ∷ s)) (find d s) h) [
  | inl (here, e) ↦ omega (arith, length-starts d (c ∷ s) here)
  | inr (j, later, e, not_here) ↦ omega (arith, find-le d s later)
]

-- A byte is found where it first stands.
pub find_byte : (b : ℕ) (p r : Bytes) → Lacks b p → find (b ∷ []) (p ++ b ∷ r) ≡ some (length p)
unfolding find starts
find_byte b [] r h = ground arith
find_byte b (c ∷ p) r (ne, h) = rw (find_byte b p r h) (ground arith)

pub find_byte_none : (b : ℕ) (p : Bytes) → Lacks b p → find (b ∷ []) p ≡ none
unfolding find starts
find_byte_none b [] h = refl
find_byte_none b (c ∷ p) (ne, h) = rw (find_byte_none b p h) (ground arith)

pub find_byte_none→Lacks : (b : ℕ) (p : Bytes) → find (b ∷ []) p ≡ none → Lacks b p
unfolding find starts
find_byte_none→Lacks b [] h = tt
find_byte_none→Lacks b (c ∷ p) h = ground (arith, find_byte_none→Lacks b p)

not_here_ne : (b c : ℕ) (s : Bytes) → c ≡ b → starts (b ∷ []) (c ∷ s) ≡ false → ⊥
unfolding starts
not_here_ne b c s e h = ground arith

pub find_byte→Lacks : (b : ℕ) (s : Bytes) {i : ℕ} → find (b ∷ []) s ≡ some i → Lacks b (take i s)
unfolding find
find_byte→Lacks b [] h = unfold starts in cc
find_byte→Lacks b (c ∷ s) {i} h = elim (find_cases (starts (b ∷ []) (c ∷ s)) (find (b ∷ []) s) h) [
  | inl (here, e) ↦ rw e tt
  | inr (j, later, e, not_here) ↦
      rw e ((λ x. not_here_ne b c s x not_here), find_byte→Lacks b s later)
]

-- Three-way comparison of texts, byte by byte, as the keys of a map are ordered.
unfoldable pub compare_bytes : Bytes → Bytes → Ordering
compare_bytes [] [] = Ordering.eq
compare_bytes [] (y ∷ ys) = Ordering.lt
compare_bytes (x ∷ xs) [] = Ordering.gt
compare_bytes (x ∷ xs) (y ∷ ys) = elim (compare x y) [
  | Ordering.lt ↦ Ordering.lt
  | Ordering.gt ↦ Ordering.gt
  | Ordering.eq ↦ compare_bytes xs ys
]

pub compare_bytes_refl : (a : Bytes) → compare_bytes a a ≡ Ordering.eq
unfolding compare_bytes
compare_bytes_refl [] = refl
compare_bytes_refl (x ∷ xs) = ground (arith, compare_bytes_refl xs)

pub compare_bytes→eq : (a b : Bytes) → compare_bytes a b ≡ Ordering.eq → a ≡ b
unfolding compare_bytes
compare_bytes→eq [] [] h = refl
compare_bytes→eq [] (y ∷ b) h = cc
compare_bytes→eq (x ∷ a) [] h = cc
compare_bytes→eq (x ∷ a) (y ∷ b) h = ground (arith, compare_bytes→eq a b)

pub compare_bytes_swap :
    (a b : Bytes) → compare_bytes a b ≡ Ordering.lt → compare_bytes b a ≡ Ordering.gt
unfolding compare_bytes
compare_bytes_swap [] [] h = cc
compare_bytes_swap [] (y ∷ b) h = refl
compare_bytes_swap (x ∷ a) [] h = cc
compare_bytes_swap (x ∷ a) (y ∷ b) h = ground (arith, compare_bytes_swap a b)

pub compare_bytes_unswap :
    (a b : Bytes) → compare_bytes a b ≡ Ordering.gt → compare_bytes b a ≡ Ordering.lt
unfolding compare_bytes
compare_bytes_unswap [] [] h = cc
compare_bytes_unswap [] (y ∷ b) h = cc
compare_bytes_unswap (x ∷ a) [] h = refl
compare_bytes_unswap (x ∷ a) (y ∷ b) h = ground (arith, compare_bytes_unswap a b)

pub compare_bytes_trans :
    (a b c : Bytes)
    → compare_bytes a b ≡ Ordering.lt
    → compare_bytes b c ≡ Ordering.lt
    → compare_bytes a c ≡ Ordering.lt
unfolding compare_bytes
compare_bytes_trans [] (y ∷ b) (z ∷ c) h k = refl
compare_bytes_trans (x ∷ a) (y ∷ b) (z ∷ c) h k = ground (arith, compare_bytes_trans a b c)
compare_bytes_trans [] [] c h k = cc
compare_bytes_trans [] (y ∷ b) [] h k = cc
compare_bytes_trans (x ∷ a) [] [] h k = cc
compare_bytes_trans (x ∷ a) (y ∷ b) [] h k = cc
compare_bytes_trans (x ∷ a) [] (z ∷ c) h k = cc
