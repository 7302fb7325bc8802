-- ===== src/Tree.antt =====
-- `DTree` of src/lib/dtree.cpp, for trees without references and pointers: a text, a number, a truth
-- value, or a map with its list flag and its next index. A number is the pattern of its 64 bits.
pub mod Children
pub mod Json
pub mod Lists
use uce.Base.{
  ℕ, zero, suc, ◌+◌, Bool, true, false, List, [], ◌∷◌, ◌++◌, ◌≡◌, refl, ap, ◌&&◌, ◌||◌, not, Option,
  none, some, Bytes, length, equal, find, take, drop, ◌==◌, if◌then◌else◌, codes,
}
use uce.Base.Chars.{is_digit}
use uce.Base.Maps.{StringMap, lookup, insert, erase}
use uce.Fastcgi.Response.{digits}

mutual
  pub data DTree : Type 0 where
    string : Bytes → DTree
    float : ℕ → DTree
    bool : Bool → DTree
    map : Bool → ℕ → Entries → DTree

  -- The entries in ascending order of the keys.
  pub data Entries : Type 0 where
    no_entries : Entries
    entry : Bytes → DTree → Entries → Entries

-- The entries as a list, for the functions on maps.
unfoldable pub listed : Entries → List (Bytes × DTree)
listed no_entries = []
listed (entry k v e) = (k, v) ∷ listed e

unfoldable pub entries : List (Bytes × DTree) → Entries
entries [] = no_entries
entries ((k, v) ∷ m) = entry k v (entries m)

pub listed-entries : (m : List (Bytes × DTree)) → listed (entries m) ≡ m
unfolding listed entries
listed-entries [] = refl
listed-entries ((k, v) ∷ m) = ap (◌∷◌ (k, v)) (listed-entries m)

pub entries-listed : (e : Entries) → entries (listed e) ≡ e
unfolding listed entries
entries-listed no_entries = refl
entries-listed (entry k v e) = ap (entry k v) (entries-listed e)

-- `_map[k] = v`
unfoldable pub put : Bytes → DTree → Entries → Entries
put k v e = entries (insert k v (listed e))

-- `std::to_string` of an index of 64 bits.
unfoldable pub index_key : ℕ → Bytes
index_key n = digits 20 n

unfoldable pub all_digits : Bytes → Bool
all_digits [] = true
all_digits (c ∷ key) = is_digit c && all_digits key

-- `dtree_key_is_index`; without an expected index, any index will do.
unfoldable pub key_is_index : Bytes → Option ℕ → Bool
key_is_index key none = not (equal key []) && all_digits key
key_is_index key (some expected_index) =
    not (equal key []) && all_digits key && equal key (index_key expected_index)

-- The keys are the indices from the given one on, in this order.
unfoldable pub indexed {ℓ} : {V : Type ℓ} → ℕ → List (Bytes × V) → Bool
indexed expected_index [] = true
indexed expected_index ((key, v) ∷ m) =
    key_is_index key (some expected_index) && indexed (suc expected_index) m

unfoldable pub is_array : DTree → Bool
is_array (map list_mode array_index e) = true
is_array _ = false

unfoldable pub list_entries : Bool → Entries → Bool
list_entries list_mode no_entries = list_mode
list_entries list_mode (entry k v e) = indexed 0 (listed (entry k v e))

unfoldable pub is_list : DTree → Bool
is_list (map list_mode array_index e) = list_entries list_mode e
is_list _ = false

-- `set_type('M')`: what is not a map becomes an empty one.
unfoldable pub as_map : DTree → Bool × (ℕ × Entries)
as_map (map list_mode array_index e) = (list_mode, (array_index, e))
as_map _ = (false, (0, no_entries))

unfoldable pub is_taken : Option DTree → Bool
is_taken none = false
is_taken (some v) = true

-- The first index from the given one on that is no key; there are as many rounds as entries.
unfoldable pub next_free : ℕ → ℕ → Entries → ℕ
next_free zero array_index e = array_index
next_free (suc fuel) array_index e = elim (is_taken (lookup (index_key array_index) (listed e))) [
  | true ↦ next_free fuel (suc array_index) e
  | false ↦ array_index
]

-- The list flag and the index for a new child.
unfoldable pub push_index : Bool → ℕ → Entries → Bool × ℕ
push_index list_mode array_index no_entries = (true, 0)
push_index list_mode array_index (entry k v e) =
    let m = entry k v e in
    if list_entries list_mode m
    then (true, length (listed m))
    else (false, next_free (suc (length (listed m))) array_index m)

unfoldable pub push : DTree → DTree → DTree
push t child =
    let (list_mode, (array_index, e)) = as_map t in
    let (mode, at) = push_index list_mode array_index e in
    map mode (at + 1) (put (index_key at) child e)

-- The entry with the greatest key.
unfoldable pub last_entry : Bytes → DTree → Entries → Bytes × DTree
last_entry k v no_entries = (k, v)
last_entry k v (entry j w e) = last_entry j w e

-- `pop`: the tree that is left, and the child.
unfoldable pub pop : DTree → DTree × DTree
pop t =
    let (list_mode, (array_index, e)) = as_map t in
    elim e as (λ _. DTree × DTree) [
      | no_entries ↦ (map list_mode 0 no_entries, string [])
      | entry k v rest ↦
          let (key, child) = last_entry k v rest in
          let left = entries (erase key (listed (entry k v rest))) in
          (map list_mode (if list_mode then length (listed left) else array_index) left, child)
    ]

unfoldable pub remove : DTree → Bytes → DTree
remove t s =
    let (list_mode, (array_index, e)) = as_map t in
    let left = entries (erase s (listed e)) in
    map list_mode (if length (listed left) == 0 then 0 else array_index) left

unfoldable pub clear : DTree → DTree
clear t = let (list_mode, _) = as_map t in map list_mode 0 no_entries

abbrev pub set_array : DTree
set_array = map true 0 no_entries

-- `key`, and `has`, which tells whether there is one.
unfoldable pub key : DTree → Bytes → Option DTree
key (map list_mode array_index e) s = lookup s (listed e)
key _ s = none

unfoldable pub has : DTree → Bytes → Bool
has t s = is_taken (key t s)

-- `std::to_string` of a `double` is a parameter.
unfoldable pub to_string : (ℕ → Bytes) → DTree → Bytes
to_string number_text (string s) = s
to_string number_text (float f) = number_text f
to_string number_text (bool b) = if b then codes "(true)" else codes "(false)"
to_string number_text (map list_mode array_index e) = []

-- What `each` calls its function on: the key and the tree.
unfoldable pub each : DTree → List (Bytes × DTree)
unfolding listed
each (map list_mode array_index e) = listed e
each (string s) = ([], string s) ∷ []
each (float f) = ([], float f) ∷ []
each (bool b) = ([], bool b) ∷ []
