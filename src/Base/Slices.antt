-- ===== src/Base/Slices.antt =====
-- Positions and parts of a text that is longer than what is read.
use Prim.Native.Nat.{ℕ, zero, suc, ◌+◌, ◌≤◌, ◌<◌}
use Prim.Native.Nat.add
use mathlib.Core.List.{[], ◌∷◌, ◌++◌}
use mathlib.Core.Path.{◌≡◌, refl, ap}
use native.Mathlib.Nat.{zero-add}
use native.Mathlib.Omega.{arith}
use uce.Base.Lists.{Bytes, length, take, drop, get_or, All, IsByte}

pub get_or-append : (s t : Bytes) (i : ℕ) → i < length s → get_or (s ++ t) i 0 ≡ get_or s i 0
get_or-append [] t i h = absurd (omega arith)
get_or-append (x ∷ s) t zero h = refl
get_or-append (x ∷ s) t (suc i) h = get_or-append s t i (omega arith)

pub get_or-lt : (s : Bytes) (i : ℕ) → All IsByte s → get_or s i 0 < 256
get_or-lt [] i h = omega arith
get_or-lt (x ∷ s) zero (hx, h) = hx
get_or-lt (x ∷ s) (suc i) (hx, h) = get_or-lt s i h

pub drop-append : (n : ℕ) (s t : Bytes) → n ≤ length s → drop n (s ++ t) ≡ drop n s ++ t
drop-append zero s t h = refl
drop-append (suc n) [] t h = absurd (omega arith)
drop-append (suc n) (x ∷ s) t h = drop-append n s t (omega arith)

pub take-append : (n : ℕ) (s t : Bytes) → n ≤ length s → take n (s ++ t) ≡ take n s
take-append zero s t h = refl
take-append (suc n) [] t h = absurd (omega arith)
take-append (suc n) (x ∷ s) t h = ap (◌∷◌ x) (take-append n s t (omega arith))

drop-nil : (a : ℕ) → drop {A = ℕ} a [] ≡ []
drop-nil zero = refl
drop-nil (suc a) = refl

pub drop-drop : (a b : ℕ) (s : Bytes) → drop a (drop b s) ≡ drop (b + a) s
drop-drop a zero s = rw zero-add
drop-drop a (suc b) [] = rw add.suc (drop-nil a)
drop-drop a (suc b) (x ∷ s) = rw add.suc (drop-drop a b s)
