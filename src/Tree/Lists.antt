-- ===== src/Tree/Lists.antt =====
-- Trees whose keys are the indices in order, as `push` makes them and `json_encode` reads them.
use uce.Base.{
  ℕ, suc, ◌+◌, true, List, [], ◌∷◌, ◌++◌, ◌&&◌, not, ◌≡◌, refl, ap, ◌∙◌, some, Bytes, length, equal,
  equal_iff, arith, and_left, and_right,
}
use uce.Base.Maps.{IsSorted, insert_last, below-sorted}
use uce.Tree.{
  DTree, map, listed, entries, listed-entries, put, key_is_index, index_key, all_digits, indexed,
  list_entries, push_index, push, as_map,
}

pub key_is_index-index_key : (k : Bytes) (n : ℕ) → key_is_index k (some n) ≡ true → k ≡ index_key n
unfolding key_is_index
key_is_index-index_key k n h =
    (equal_iff k (index_key n)).0
      (and_right (not (equal k []) && all_digits k) (equal k (index_key n)) h)

-- The key at a position of an indexed list.
pub indexed-index_key {ℓ} :
    {V : Type ℓ} (before : List (Bytes × V)) (n : ℕ) (k : Bytes) (v : V) (m : List (Bytes × V))
    → indexed n (before ++ (k, v) ∷ m) ≡ true
    → k ≡ index_key (length before + n)
unfolding indexed
indexed-index_key [] n k v m h =
    key_is_index-index_key k n (and_left (key_is_index k (some n)) (indexed (suc n) m) h)
    ∙ ap index_key (omega arith)
indexed-index_key ((j, w) ∷ before) n k v m h =
    indexed-index_key before (suc n) k v m
      (and_right (key_is_index j (some n)) (indexed (suc n) (before ++ (k, v) ∷ m)) h)
    ∙ ap index_key (omega arith)

-- The front of an indexed list is one.
pub indexed-front {ℓ} :
    {V : Type ℓ} (before : List (Bytes × V)) (n : ℕ) (m : List (Bytes × V))
    → indexed n (before ++ m) ≡ true
    → indexed n before ≡ true
unfolding indexed
indexed-front [] n m h = refl
indexed-front ((j, w) ∷ before) n m h =
    rw (and_left (key_is_index j (some n)) (indexed (suc n) (before ++ m)) h) (
      indexed-front before (suc n) m
        (and_right (key_is_index j (some n)) (indexed (suc n) (before ++ m)) h))

list_entries-indexed :
    (m : List (Bytes × DTree)) → indexed 0 m ≡ true → list_entries true (entries m) ≡ true
unfolding list_entries entries indexed listed
list_entries-indexed [] h = refl
list_entries-indexed ((k, v) ∷ m) h = rw (listed-entries m) h

pub push_index-entries :
    (m : List (Bytes × DTree))
    → indexed 0 m ≡ true
    → push_index true (length m) (entries m) ≡ (true, length m)
unfolding push_index entries listed
push_index-entries [] h = refl
push_index-entries ((k, v) ∷ m) h =
    rw (list_entries-indexed ((k, v) ∷ m) h)
      (ap (λ l. (true, length l)) (listed-entries ((k, v) ∷ m)))

-- An entry with the greatest key goes to the end.
pub put_last :
    (before : List (Bytes × DTree)) (k : Bytes) (v : DTree) (m : List (Bytes × DTree))
    → IsSorted (before ++ (k, v) ∷ m)
    → put k v (entries before) ≡ entries (before ++ (k, v) ∷ [])
unfolding put
put_last before k v m s =
    rw (listed-entries before) (ap entries (insert_last k v before (below-sorted before k v m s)))

-- A child that comes next in the order of the keys goes to the end of a list.
pub push_last :
    (before : List (Bytes × DTree)) (k : Bytes) (v : DTree) (m : List (Bytes × DTree))
    → IsSorted (before ++ (k, v) ∷ m)
    → indexed 0 (before ++ (k, v) ∷ m) ≡ true
    → push (map true (length before) (entries before)) v
      ≡ map true (length before + 1) (entries (before ++ (k, v) ∷ []))
unfolding push as_map
push_last before k v m s h =
    let key_lem : k ≡ index_key (length before) =
      indexed-index_key before 0 k v m h ∙ ap index_key (omega arith) in
    rw (push_index-entries before (indexed-front before 0 ((k, v) ∷ m) h), ← key_lem)
      (ap (map true (length before + 1)) (put_last before k v m s))
