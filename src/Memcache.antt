-- ===== src/Memcache.antt =====
-- The memcached client of src/lib/sys.cpp. `exchange` writes a command to the connection and reads the
-- reply; `stoi` is that of the standard library, with `none` for its exception.
pub mod Line
pub mod Reply
use uce.Base.{
  ℕ, zero, suc, ◌+◌, Bool, true, false, List, [], ◌∷◌, ◌++◌, Option, none, some, Bytes, length,
  take, drop, equal, ltb, if◌then◌else◌, codes,
}
use uce.Base.Chars.{is_space}
use uce.Base.Maps.{StringMap, insert}
use uce.Fastcgi.Response.{digits}
use uce.Text.Nibble.{nibble}
use uce.Text.Split.{join}
use uce.Text.Trim.{trim}

unfoldable pub memcache_escape_key : Bytes → Bytes
memcache_escape_key [] = []
memcache_escape_key (c ∷ key) = (if is_space c then b'_' else c) ∷ memcache_escape_key key

unfoldable pub memcache_escape_keys : List Bytes → List Bytes
memcache_escape_keys [] = []
memcache_escape_keys (s ∷ keys) = memcache_escape_key s ∷ memcache_escape_keys keys

-- The first line of the command to store a value, its end aside.
unfoldable pub set_line : Bytes → ℕ → ℕ → Bytes
set_line key expires_in length_in_bytes =
    codes "set "
    ++ (memcache_escape_key key
        ++ (codes " 0 " ++ (digits 20 expires_in ++ (codes " " ++ digits 20 length_in_bytes))))

unfoldable pub set_command : Bytes → Bytes → ℕ → Bytes
set_command key value expires_in =
    set_line key expires_in (length value) ++ (codes "\r\n" ++ (value ++ codes "\r\n"))

unfoldable pub delete_command : Bytes → Bytes
delete_command key = codes "delete " ++ (memcache_escape_key key ++ codes "\r\n")

-- The number before the end of the line, and what follows it.
unfoldable pub sized_value :
    (Bytes → Option ℕ) → Bytes → Bytes × Bytes → Option (Bytes × (ℕ × Bytes))
sized_value stoi key (number, r) = elim (stoi number) [ none ↦ none | some n ↦ some (key, (n, r)) ]

module _ (exchange : Bytes → Bytes) where
  unfoldable pub memcache_command : Bytes → Bytes
  memcache_command command = exchange (command ++ codes "\r\n")

  unfoldable pub memcache_set : Bytes → Bytes → ℕ → Bool
  memcache_set key value expires_in =
      equal (codes "STORED") (trim (exchange (set_command key value expires_in)))

  unfoldable pub memcache_delete : Bytes → Bool
  memcache_delete key = equal (codes "DELETED") (trim (exchange (delete_command key)))

  module _ (stoi : Bytes → Option ℕ) where
    -- The reply from the key on: the key, the length of the value, and the text from the value on.
    unfoldable pub value_head : Bytes → Option (Bytes × (ℕ × Bytes))
    unfolding sized_value
    value_head res =
        let (key, r1) = nibble (codes " ") res in
        let (meta, r2) = nibble (codes " ") r1 in sized_value stoi key (nibble (codes "\r\n") r2)

    unfoldable pub memcache_get : Bytes → Bytes → Option Bytes
    memcache_get key default_value =
        let (t, res) =
          nibble (codes " ") (memcache_command (codes "get " ++ memcache_escape_key key)) in
        if equal t (codes "VALUE")
        then elim (value_head res) [ none ↦ none | some (k, (n, r)) ↦ some (take n r) ]
        else some default_value

    -- `substr(length + 2)` throws past the end; every round takes a byte at least.
    unfoldable pub get_multiple_loop : ℕ → Bytes → StringMap → Option StringMap
    get_multiple_loop fuel [] result = some result
    get_multiple_loop zero (c ∷ res) result = none
    get_multiple_loop (suc fuel) (c ∷ s) result =
        let (t, res) = nibble (codes " ") (c ∷ s) in
        let skipped = get_multiple_loop fuel res result in
        if equal t (codes "VALUE")
        then elim (value_head res) [
          | none ↦ none
          | some (k, (n, r)) ↦
              let later = get_multiple_loop fuel (drop (n + 2) r) (insert k (take n r) result) in
              if ltb (length r) (n + 2) then none else later
        ]
        else skipped

    unfoldable pub memcache_get_multiple : List Bytes → Option StringMap
    memcache_get_multiple keys =
        let res = memcache_command (codes "get " ++ join (memcache_escape_keys keys) (codes " ")) in
        get_multiple_loop (length res) res []
