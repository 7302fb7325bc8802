-- ===== src/Base/Maps.antt =====
-- `std::map<String, V>`: the entries in ascending order of their keys.
use Prim.Native.Nat.{Ordering}
use mathlib.Core.List.{List, [], ◌∷◌, ◌++◌}
use mathlib.Core.Logic.{inl, inr}
use mathlib.Core.Option.{Option, none, some}
use mathlib.Core.Path.{◌≡◌, refl, ap, sym, ◌∙◌}
use native.Mathlib.Omega.{arith}
use uce.Base.Find.{
  compare_bytes, compare_bytes_refl, compare_bytes→eq, compare_bytes_swap, compare_bytes_unswap,
  compare_bytes_trans, equal, equal_iff,
}
use uce.Base.Lists.{Bytes, All}
use mathlib.Core.Bool.{false}
use uce.Base.Tests.{if◌then◌else◌, Bool-cases}

pub equal_below : (i k : Bytes) → compare_bytes i k ≡ Ordering.lt → equal i k ≡ false
equal_below i k h = elim (Bool-cases (equal i k)) [
  | inr e ↦ e
  | inl e ↦ cc (compare_bytes_refl k, ap (λ x. compare_bytes x k) ((equal_iff i k).0 e), h)
]

module _ {ℓ} {V : Type ℓ} where
  -- `m.find(k)`
  unfoldable pub lookup : Bytes → List (Bytes × V) → Option V
  lookup k [] = none
  lookup k ((j, v) ∷ m) = if equal j k then some v else lookup k m

  place : Ordering → Bytes → V → Bytes × V → List (Bytes × V) → List (Bytes × V) → List (Bytes × V)
  place Ordering.lt k v e m later = (k, v) ∷ e ∷ m
  place Ordering.eq k v e m later = (e.0, v) ∷ m
  place Ordering.gt k v e m later = e ∷ later

  -- `m[k] = v`
  unfoldable pub insert : Bytes → V → List (Bytes × V) → List (Bytes × V)
  unfolding place
  insert k v [] = (k, v) ∷ []
  insert k v (e ∷ m) = place (compare_bytes k e.0) k v e m (insert k v m)

  -- `m.erase(k)`
  unfoldable pub erase : Bytes → List (Bytes × V) → List (Bytes × V)
  erase k [] = []
  erase k ((j, w) ∷ m) = if equal j k then m else (j, w) ∷ erase k m

  -- Every key of the list is greater than `k`.
  abbrev pub Above : Bytes → List (Bytes × V) → Type 0
  Above k = All (λ e. compare_bytes k e.0 ≡ Ordering.lt)

  abbrev pub IsSorted : List (Bytes × V) → Type 0
  IsSorted [] = Unit
  IsSorted ((k, v) ∷ m) = Above k m × IsSorted m

  lookup-place :
      (o : Ordering) (k j : Bytes) (v : V) (i : Bytes) (w : V) (m later : List (Bytes × V))
      → compare_bytes k i ≡ o
      → lookup j later ≡ (if equal k j then some v else lookup j m)
      → lookup j (place o k v (i, w) m later)
        ≡ (if equal k j then some v else lookup j ((i, w) ∷ m))
  unfolding lookup place
  lookup-place Ordering.lt k j v i w m later o h = refl
  lookup-place Ordering.eq k j v i w m later o h =
      rw (compare_bytes→eq k i o) (ground (arith, equal_iff i j))
  lookup-place Ordering.gt k j v i w m later o h = elim (Bool-cases (equal i j)) [
    | inr differ ↦ rw (differ) h
    | inl same ↦ elim (Bool-cases (equal k j)) [
      | inr other ↦ rw (same, other) refl
      | inl mine ↦
          let e : k ≡ i = (equal_iff k j).0 mine ∙ sym ((equal_iff i j).0 same) in
          cc (compare_bytes_refl i, ap (λ x. compare_bytes x i) e, o)
    ]
  ]

  pub lookup-insert :
      (k j : Bytes) (v : V) (m : List (Bytes × V))
      → lookup j (insert k v m) ≡ (if equal k j then some v else lookup j m)
  unfolding insert
  lookup-insert k j v [] = unfold lookup in refl
  lookup-insert k j v ((i, w) ∷ m) =
      lookup-place (compare_bytes k i) k j v i w m _ refl (lookup-insert k j v m)

  Above-trans :
      (j k : Bytes) (m : List (Bytes × V)) → compare_bytes j k ≡ Ordering.lt → Above k m → Above j m
  Above-trans j k [] h a = tt
  Above-trans j k ((i, w) ∷ m) h (p, a) = (compare_bytes_trans j k i h p, Above-trans j k m h a)

  Above-place :
      (o : Ordering) (j k i : Bytes) (v w : V) (m later : List (Bytes × V))
      → compare_bytes j k ≡ Ordering.lt
      → compare_bytes j i ≡ Ordering.lt
      → Above j m
      → Above j later
      → Above j (place o k v (i, w) m later)
  unfolding place
  Above-place Ordering.lt j k i v w m later h p a l = (h, (p, a))
  Above-place Ordering.eq j k i v w m later h p a l = (p, a)
  Above-place Ordering.gt j k i v w m later h p a l = (p, l)

  Above-insert :
      (j k : Bytes) (v : V) (m : List (Bytes × V))
      → compare_bytes j k ≡ Ordering.lt
      → Above j m
      → Above j (insert k v m)
  unfolding insert
  Above-insert j k v [] h a = (h, tt)
  Above-insert j k v ((i, w) ∷ m) h (p, a) =
      Above-place (compare_bytes k i) j k i v w m _ h p a (Above-insert j k v m h a)

  IsSorted-place :
      (o : Ordering) (k i : Bytes) (v w : V) (m later : List (Bytes × V))
      → compare_bytes k i ≡ o
      → IsSorted ((i, w) ∷ m)
      → (compare_bytes i k ≡ Ordering.lt → Above i later)
      → IsSorted later
      → IsSorted (place o k v (i, w) m later)
  unfolding place
  IsSorted-place Ordering.lt k i v w m later o (a, s) b t = ((o, Above-trans k i m o a), (a, s))
  IsSorted-place Ordering.eq k i v w m later o (a, s) b t = (a, s)
  IsSorted-place Ordering.gt k i v w m later o (a, s) b t = (b (compare_bytes_unswap k i o), t)

  -- An insertion keeps the order.
  pub insert-IsSorted :
      (k : Bytes) (v : V) (m : List (Bytes × V)) → IsSorted m → IsSorted (insert k v m)
  unfolding insert
  insert-IsSorted k v [] s = (tt, tt)
  insert-IsSorted k v ((i, w) ∷ m) (a, s) =
      IsSorted-place (compare_bytes k i) k i v w m _ refl (a, s) (λ h. Above-insert i k v m h a)
        (insert-IsSorted k v m s)

  -- An entry with the greatest key goes to the end.
  pub insert_last :
      (k : Bytes) (v : V) (m : List (Bytes × V))
      → All (λ e. compare_bytes e.0 k ≡ Ordering.lt) m
      → insert k v m ≡ m ++ (k, v) ∷ []
  unfolding insert
  insert_last k v [] h = refl
  insert_last k v ((i, w) ∷ m) (p, h) =
      rw (compare_bytes_swap i k p) (ap (◌∷◌ (i, w)) (insert_last k v m h))

  Above-last :
      (j : Bytes) (before : List (Bytes × V)) (k : Bytes) (v : V) (m : List (Bytes × V))
      → Above j (before ++ (k, v) ∷ m)
      → compare_bytes j k ≡ Ordering.lt
  Above-last j [] k v m (h, _) = h
  Above-last j (e ∷ before) k v m (_, h) = Above-last j before k v m h

  -- In a sorted list, what stands before a key is less.
  pub below-sorted :
      (before : List (Bytes × V)) (k : Bytes) (v : V) (m : List (Bytes × V))
      → IsSorted (before ++ (k, v) ∷ m)
      → All (λ e. compare_bytes e.0 k ≡ Ordering.lt) before
  below-sorted [] k v m s = tt
  below-sorted (e ∷ before) k v m (a, s) =
      (Above-last e.0 before k v m a, below-sorted before k v m s)

  -- `m.insert(...)` leaves a key that is there alone.
  unfoldable pub insert_new : Bytes → V → List (Bytes × V) → List (Bytes × V)
  insert_new k v m = elim (lookup k m) [ none ↦ insert k v m | some w ↦ m ]

  lookup_below :
      (k : Bytes) (m : List (Bytes × V))
      → All (λ e. compare_bytes e.0 k ≡ Ordering.lt) m
      → lookup k m ≡ none
  unfolding lookup
  lookup_below k [] h = refl
  lookup_below k ((i, w) ∷ m) (p, h) = rw (equal_below i k p) (lookup_below k m h)

  -- What is less than a key does not count in its search.
  pub lookup_past :
      (before : List (Bytes × V)) (k : Bytes) (m : List (Bytes × V))
      → All (λ e. compare_bytes e.0 k ≡ Ordering.lt) before
      → lookup k (before ++ m) ≡ lookup k m
  unfolding lookup
  lookup_past [] k m h = refl
  lookup_past ((i, w) ∷ before) k m (p, h) = rw (equal_below i k p) (lookup_past before k m h)

  pub insert_new_last :
      (k : Bytes) (v : V) (m : List (Bytes × V))
      → All (λ e. compare_bytes e.0 k ≡ Ordering.lt) m
      → insert_new k v m ≡ m ++ (k, v) ∷ []
  unfolding insert_new
  insert_new_last k v m h = rw (insert_new, lookup_below k m h) (insert_last k v m h)

abbrev pub StringMap : Type 0
StringMap = List (Bytes × Bytes)

-- `m[k]` as a value: a missing key reads as the empty text.
abbrev pub or_empty : Option Bytes → Bytes
or_empty none = []
or_empty (some v) = v

unfoldable pub value_at : Bytes → StringMap → Bytes
unfolding lookup
value_at k m = or_empty (lookup k m)

-- `m[k]` also creates a missing entry.
unfoldable pub touch : Bytes → StringMap → StringMap
unfolding lookup insert
touch k m = elim (lookup k m) [ none ↦ insert k [] m | some v ↦ m ]
