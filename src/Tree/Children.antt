-- ===== src/Tree/Children.antt =====
-- `push` and `pop` on lists, and how long a list can be.
use uce.Base.{
  ℕ, zero, suc, ◌+◌, ◌≤◌, ◌<◌, Bool, true, List, [], ◌∷◌, ◌++◌, ◌≡◌, refl, ap, ap₂, ◌∙◌, some,
  Bytes, Ordering, length, equal_refl, All, compare_bytes, arith, and_left, and_right, ltb,
}
use mathlib.Core.Path.{subst}
use uce.Base.Maps.{IsSorted, insert_last, equal_below, erase}
use uce.Fastcgi.Response.{digits}
use uce.Tree.{
  DTree, map, Entries, no_entries, entry, listed, entries, listed-entries, put, key_is_index,
  index_key, indexed, list_entries, is_list, push, pop, last_entry, as_map,
}
use uce.Tree.Lists.{indexed-index_key, push_index-entries, key_is_index-index_key}

index_key_ten : compare_bytes (index_key 9) (index_key 10) ≡ Ordering.gt
unfolding compare_bytes index_key digits
index_key_ten = refl

-- The indices 9 and 10 are not in the order of the keys.
nine_ten {ℓ} :
    {V : Type ℓ} (e f : Bytes × V) (m : List (Bytes × V))
    → indexed 9 (e ∷ f ∷ m) ≡ true
    → IsSorted (e ∷ f ∷ m)
    → ⊥
unfolding indexed
nine_ten (k, v) (j, w) m h ((p, _), _) =
    let ek : k ≡ index_key 9 = indexed-index_key [] 9 k v ((j, w) ∷ m) h in
    let ej : j ≡ index_key 10 = indexed-index_key ((k, v) ∷ []) 9 j w m h in
    cc (p, ek, ej, index_key_ten)

short {ℓ} :
    {V : Type ℓ} (d n : ℕ) (m : List (Bytes × V))
    → n + d ≡ 9
    → indexed n m ≡ true
    → IsSorted m
    → length m ≤ suc d
unfolding indexed
short d n [] p h s = omega arith
short zero n (e ∷ []) p h s = omega arith
short zero n (e ∷ f ∷ m) p h s =
    elim (nine_ten e f m (subst (λ i. indexed i (e ∷ f ∷ m) ≡ true) (omega arith) h) s) [ ]
short (suc d) n ((k, v) ∷ m) p h (_, s) =
    let bound =
      short d (suc n) m (omega arith) (and_right (key_is_index k (some n)) (indexed (suc n) m) h)
        s in
    omega arith

-- A list whose keys stand in ascending order, as they do in the map, has at most ten entries.
pub is_list-length :
    (list_mode : Bool) (array_index : ℕ) (e : Entries)
    → IsSorted (listed e)
    → is_list (map list_mode array_index e) ≡ true
    → length (listed e) ≤ 10
unfolding is_list list_entries listed
is_list-length list_mode array_index no_entries s h = omega arith
is_list-length list_mode array_index (entry k v e) s h = short 9 0 (listed (entry k v e)) refl h s

digits-one : (fuel n : ℕ) → n ≤ 9 → digits (suc fuel) n ≡ (b'0' + n) ∷ []
unfolding digits
digits-one fuel n h =
    let less : ltb n 10 ≡ true = ground arith in rw (less) (ap (λ d. (b'0' + d) ∷ []) (omega arith))

-- A digit is its own key.
index_key_digit : (n : ℕ) → n ≤ 9 → index_key n ≡ (b'0' + n) ∷ []
unfolding index_key
index_key_digit n h = digits-one 19 n h

one_byte : (a b : ℕ) → a < b → compare_bytes (a ∷ []) (b ∷ []) ≡ Ordering.lt
unfolding compare_bytes
one_byte a b h = ground arith

below_next :
    (n i : ℕ) (m : List (Bytes × DTree))
    → i + length m ≡ n
    → n ≤ 9
    → indexed i m ≡ true
    → All (λ e. compare_bytes e.0 (index_key n) ≡ Ordering.lt) m
unfolding indexed
below_next n i [] p h a = tt
below_next n i ((k, v) ∷ m) p h a =
    let e : k ≡ index_key i =
      key_is_index-index_key k i (and_left (key_is_index k (some i)) (indexed (suc i) m) a) in
    (
      rw (e, index_key_digit i (omega arith), index_key_digit n h)
          (one_byte (b'0' + i) (b'0' + n) (omega arith)),
      below_next n (suc i) m (omega arith) h
          (and_right (key_is_index k (some i)) (indexed (suc i) m) a),
    )

last_entry-snoc :
    (k : Bytes) (v : DTree) (m : List (Bytes × DTree)) (j : Bytes) (w : DTree)
    → last_entry k v (entries (m ++ (j, w) ∷ [])) ≡ (j, w)
unfolding last_entry entries
last_entry-snoc k v [] j w = refl
last_entry-snoc k v ((i, u) ∷ m) j w = last_entry-snoc i u m j w

erase_last :
    (m : List (Bytes × DTree)) (j : Bytes) (w : DTree)
    → All (λ e. compare_bytes e.0 j ≡ Ordering.lt) m
    → erase j (m ++ (j, w) ∷ []) ≡ m
unfolding erase
erase_last [] j w a = rw (equal_refl j) refl
erase_last ((i, u) ∷ m) j w (p, a) = rw (equal_below i j p) (ap (◌∷◌ (i, u)) (erase_last m j w a))

put_next :
    (m : List (Bytes × DTree)) (k : Bytes) (child : DTree)
    → All (λ e. compare_bytes e.0 k ≡ Ordering.lt) m
    → put k child (entries m) ≡ entries (m ++ (k, child) ∷ [])
unfolding put
put_next m k child a = rw (listed-entries m) (ap entries (insert_last k child m a))

-- What `pop` leaves of entries with a greatest one.
pop_last :
    (n : ℕ) (m : List (Bytes × DTree)) (k : Bytes) (child : DTree)
    → All (λ e. compare_bytes e.0 k ≡ Ordering.lt) m
    → pop (map true n (entries (m ++ (k, child) ∷ []))) ≡ (map true (length m) (entries m), child)
unfolding pop as_map entries listed last_entry erase
pop_last n [] k child a = rw (equal_refl k) refl
pop_last n ((i, u) ∷ m) k child a =
    let left : List (Bytes × DTree) → DTree =
      λ l. map true (length (listed (entries l))) (entries l) in
    ap₂ (λ z l. (left (erase z.0 ((i, u) ∷ l)), z.1)) (last_entry-snoc i u m k child)
      (listed-entries (m ++ (k, child) ∷ []))
    ∙ ap (λ l. (left l, child)) (erase_last ((i, u) ∷ m) k child a)
    ∙ ap (λ l. (map true (length l) (entries ((i, u) ∷ m)), child)) (listed-entries ((i, u) ∷ m))

-- On a list of at most nine entries, the child that was pushed is the one that is popped, and the list
-- is as it was.
pub pop-push :
    (m : List (Bytes × DTree)) (child : DTree)
    → indexed 0 m ≡ true
    → length m ≤ 9
    → pop (push (map true (length m) (entries m)) child) ≡ (map true (length m) (entries m), child)
unfolding push as_map
pop-push m child i h =
    let a = below_next (length m) 0 m (omega arith) h i in
    rw (push_index-entries m i, put_next m (index_key (length m)) child a)
      (pop_last (length m + 1) m (index_key (length m)) child a)
