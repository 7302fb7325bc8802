-- ===== src/Fastcgi.antt =====
-- The FastCGI wire format in src/fastcgi/src/fcgicc.cc: `parse_pairs_fcgi`, `write_pair_fcgi` and
-- `write_data_fcgi`. Bytes of a number are added.
pub mod Pairs
pub mod Records
pub mod Request
pub mod Response
pub mod Reader
pub mod Process
use uce.Base.{
  ℕ, zero, suc, ◌+◌, ◌-◌, ◌*◌, ◌/◌, ◌%◌, ◌^◌, Bool, List, [], ◌∷◌, ◌++◌, Option, none, some, Bytes,
  length, take, drop, leb, ltb, ◌==◌, min, replicate, bit_and, if◌then◌else◌,
}
use uce.Base.Maps.{StringMap, insert_new}
use uce.WebSocket.Frame.{raw}

-- The length at the front of `u`, and what follows; `none` where the source stops.
unfoldable pub parse_length : Bytes → Option (ℕ × Bytes)
parse_length [] = none
parse_length (b ∷ u) =
    if b / 2 ^ 7 == 0
    then some (b, u)
    else if ltb (length (b ∷ u)) 4
    then none
    else some (bit_and b 0x7F * 2 ^ 24 + raw u 0 * 2 ^ 16 + raw u 1 * 2 ^ 8 + raw u 2, drop 3 u)

-- A pair of these lengths, and what follows it.
unfoldable pub pair_of : ℕ → ℕ → Bytes → Option (Bytes × Bytes × Bytes)
pair_of name_length value_length u =
    let after = drop name_length u in
    if ltb (length u) name_length
    then none
    else if ltb (length after) value_length
    then none
    else some (take name_length u, take value_length after, drop value_length after)

unfoldable pub value_behind : ℕ → Option (ℕ × Bytes) → Option (Bytes × Bytes × Bytes)
value_behind name_length none = none
value_behind name_length (some (value_length, u)) = pair_of name_length value_length u

unfoldable pub name_behind : Option (ℕ × Bytes) → Option (Bytes × Bytes × Bytes)
name_behind none = none
name_behind (some (name_length, u)) = value_behind name_length (parse_length u)

-- One pair and what follows it.
unfoldable pub parse_pair : Bytes → Option (Bytes × Bytes × Bytes)
unfolding name_behind value_behind pair_of
parse_pair u = name_behind (parse_length u)

unfoldable pub pairs_loop : ℕ → Bytes → StringMap → StringMap
pairs_loop zero u pairs = pairs
pairs_loop (suc fuel) u pairs = elim (parse_pair u) [
  | none ↦ pairs
  | some (key, value, rest) ↦ pairs_loop fuel rest (insert_new key value pairs)
]

-- Each round takes a byte at least.
unfoldable pub parse_pairs_fcgi : Bytes → StringMap
parse_pairs_fcgi data_bytes = pairs_loop (length data_bytes) data_bytes []

unfoldable pub pair_length : ℕ → Bytes
pair_length size =
    if ltb 0x7F size
    then (0x80 + size / 2 ^ 24 % 128) ∷ size / 2 ^ 16 % 256 ∷ size / 2 ^ 8 % 256 ∷ size % 256 ∷ []
    else size ∷ []

unfoldable pub write_pair_fcgi : Bytes → Bytes → Bytes → Bytes
write_pair_fcgi buffer key value =
    buffer ++ (pair_length (length key) ++ (pair_length (length value) ++ (key ++ value)))

-- `FCGI_Header`: version, type, request, content length, padding and a reserved byte.
unfoldable pub header : ℕ → ℕ → ℕ → ℕ → Bytes
header kind id written padding =
    1 ∷ kind ∷ id / 2 ^ 8 % 256 ∷ id % 256 ∷ written / 2 ^ 8 ∷ written % 256 ∷ padding ∷ 0 ∷ []

unfoldable pub padding_length : ℕ → ℕ
padding_length written = (8 - written % 8) % 8

unfoldable pub record_bytes : ℕ → ℕ → Bytes → Bytes
record_bytes kind id content =
    let padding = padding_length (length content) in
    header kind id (length content) padding ++ (content ++ replicate padding 0)

-- The rounds over what is left of the input; each but the last takes 65535 bytes.
unfoldable pub data_loop : ℕ → ℕ → ℕ → Bytes → Bytes → Bytes
data_loop zero kind id buffer input = buffer
data_loop (suc fuel) kind id buffer input =
    let written = min (length input) 0xFFFF in
    let longer = buffer ++ record_bytes kind id (take written input) in
    let later = data_loop fuel kind id longer (drop written input) in
    if written == length input then longer else later

unfoldable pub write_data_fcgi : Bytes → ℕ → Bytes → ℕ → Bytes
write_data_fcgi buffer id input kind = data_loop (length input + 1) kind id buffer input
