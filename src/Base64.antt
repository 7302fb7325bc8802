-- ===== src/Base64.antt =====
-- `base64_encode` and `base64_decode` of src/lib/uri.cpp.
mod Groups
pub mod RoundTrip
use uce.Base.{
  ℕ, zero, suc, ◌+◌, ◌-◌, ◌*◌, ◌/◌, ◌%◌, ◌^◌, Bool, true, false, List, [], ◌∷◌, ◌++◌, ◌&&◌, not,
  ◌||◌, Option, none, some, Bytes, length, leb, ltb, ◌==◌, get_or, if◌then◌else◌, codes, bit_or,
}
use uce.Base.Chars.{within, is_space}

abbrev chars : Bytes
chars = codes "ABCDEFGHIJKLMNOPQRSTUVWXYZabcdefghijklmnopqrstuvwxyz0123456789+/"

-- `chars[n]`
unfoldable pub char_at : ℕ → ℕ
char_at n = get_or chars n 0

-- The loop variables. `val` is an `int` as its bit pattern, and `bits` is kept plus 6.
pub record Encoder : Type 0 where
  pub val : ℕ
  pub bits : ℕ
  pub result : Bytes

-- `while(bits >= 0)`: a round takes six from `bits`, so `bits` rounds are enough.
pub drain : ℕ → Encoder → Encoder
drain zero e = e
drain (suc fuel) e = elim (leb 6 e.bits) [
  | false ↦ e
  | true ↦ drain fuel (record e {
    result = e.result ++ char_at (e.val / 2 ^ (e.bits - 6) % 64) ∷ [];
    bits = e.bits - 6;
  })
]

pub encode_byte : Encoder → ℕ → Encoder
encode_byte e c =
    let next = record e { val = (e.val * 2 ^ 8 + c) % 2 ^ 32; bits = e.bits + 8 } in
    drain next.bits next

pub encode_loop : Bytes → Encoder → Encoder
encode_loop [] e = e
encode_loop (c ∷ raw) e = encode_loop raw (encode_byte e c)

-- `while(result.length() % 4 != 0)`: three rounds are enough.
pub pad : ℕ → Bytes → Bytes
pad zero result = result
pad (suc fuel) result = elim (length result % 4 == 0) [
  | true ↦ result
  | false ↦ pad fuel (result ++ b'=' ∷ [])
]

pub finish : Encoder → Bytes
finish e =
    if ltb 0 e.bits
    then e.result ++ char_at (e.val * 2 ^ 8 % 2 ^ 32 / 2 ^ (e.bits + 2) % 64) ∷ []
    else e.result

unfoldable pub base64_encode : Bytes → Bytes
unfolding encode_loop encode_byte drain finish pad char_at
base64_encode raw = pad 3 (finish (encode_loop raw (record { val = 0; bits = 0; result = [] })))

-- `none` is -1.
unfoldable pub base64_decode_value : ℕ → Option ℕ
base64_decode_value c =
    if within b'A' b'Z' c
    then some (c - b'A')
    else if within b'a' b'z' c
    then some (c - b'a' + 26)
    else if within b'0' b'9' c
    then some (c - b'0' + 52)
    else if c == b'+'
    then some 62
    else if c == b'/'
    then some 63
    else none

unfoldable pub cleaned : Bytes → Bytes
cleaned [] = []
cleaned (c ∷ raw) = if not (is_space c) then c ∷ cleaned raw else cleaned raw

-- `values[j]`; a padding byte counts as 0.
unfoldable pub digit : ℕ → Option ℕ
digit c = if c == b'=' then some 0 else base64_decode_value c

unfoldable pub padding : ℕ → ℕ
padding c = if c == b'=' then 1 else 0

-- The bytes of four digits of which the last two may be padding.
unfoldable pub group_bytes : ℕ → ℕ → ℕ → ℕ → ℕ → ℕ → Bytes
group_bytes c2 c3 v0 v1 v2 v3 =
    (bit_or (v0 * 4) (v1 / 16) % 256
      ∷ (if not (c2 == b'=') then bit_or (v1 % 16 * 16) (v2 / 4) % 256 ∷ [] else []))
    ++ (if not (c3 == b'=') then bit_or (v2 % 4 * 64) v3 % 256 ∷ [] else [])

unfoldable pub group_values : ℕ → ℕ → Option ℕ → Option ℕ → Option ℕ → Option ℕ → Option Bytes
group_values c2 c3 (some v0) (some v1) (some v2) (some v3) = some (group_bytes c2 c3 v0 v1 v2 v3)
group_values c2 c3 _ _ _ _ = none

-- One round of the loop; the flag is `i + 4 != cleaned.length()`, and `none` returns the empty text.
unfoldable pub group : Bool → ℕ → ℕ → ℕ → ℕ → Option Bytes
group more c0 c1 c2 c3 =
    let count = padding c0 + padding c1 + padding c2 + padding c3 in
    if ltb 2 count || (ltb 0 count && more) || (c2 == b'=' && not (c3 == b'='))
    then none
    else group_values c2 c3 (digit c0) (digit c1) (digit c2) (digit c3)

unfoldable pub append_group : Option Bytes → Option Bytes → Option Bytes
append_group (some g) (some rest) = some (g ++ rest)
append_group _ _ = none

unfoldable pub is_nil : Bytes → Bool
is_nil [] = true
is_nil (c ∷ s) = false

-- The loop over groups of four; the length is a multiple of four.
unfoldable pub decode_loop : Bytes → Option Bytes
decode_loop (c0 ∷ c1 ∷ c2 ∷ c3 ∷ rest) =
    append_group (group (not (is_nil rest)) c0 c1 c2 c3) (decode_loop rest)
decode_loop _ = some []

pub outcome : Option Bytes → Bytes × Bool
outcome (some result) = (result, true)
outcome none = ([], false)

-- The result and `ok`.
unfoldable pub base64_decode : Bytes → Bytes × Bool
unfolding outcome
base64_decode raw =
    let text = cleaned raw in
    if length text == 0
    then ([], true)
    else if not (length text % 4 == 0)
    then ([], false)
    else outcome (decode_loop text)
