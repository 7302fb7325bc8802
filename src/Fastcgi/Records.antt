-- ===== src/Fastcgi/Records.antt =====
-- The records that `write_data_fcgi` of src/fastcgi/src/fcgicc.cc writes, as a client reads them.
use uce.Base.{
  ℕ, zero, suc, ◌+◌, ◌-◌, ◌*◌, ◌/◌, ◌%◌, ◌^◌, ◌≤◌, ◌<◌, true, false, [], ◌∷◌, ◌++◌, ◌≡◌, refl, ap,
  sym, ◌∙◌, Option, none, some, inl, inr, Bytes, length, take, drop, ltb, ◌==◌, not, min, replicate,
  if◌then◌else◌, arith, length-append, length-replicate, length-take, length-drop, take-length,
  take-drop, take-length_append, drop-length_append, append_assoc, append-nil, Bool-cases,
}
use uce.Fastcgi.{header, padding_length, record_bytes, data_loop, write_data_fcgi}

-- A client reads one record of a stream: its content and what follows. A record of another version,
-- type or request, or one that is cut off or not padded to eight bytes, is refused.
unfoldable pub record_at : ℕ → ℕ → Bytes → Option (Bytes × Bytes)
record_at kind id (version ∷ k ∷ id1 ∷ id0 ∷ len1 ∷ len0 ∷ padding ∷ reserved ∷ s) =
    let size = len1 * 256 + len0 in
    if not (version == 1)
    then none
    else if not (k == kind)
    then none
    else if not (id1 * 256 + id0 == id)
    then none
    else if not ((size + padding) % 8 == 0)
    then none
    else if ltb (length s) (size + padding)
    then none
    else some (take size s, drop padding (drop size s))
record_at kind id _ = none

abbrev pub in_front : Bytes → Option Bytes → Option Bytes
in_front content none = none
in_front content (some behind) = some (content ++ behind)

-- The contents of at most so many records, to the end of the bytes.
unfoldable pub stream : ℕ → ℕ → ℕ → Bytes → Option Bytes
stream zero kind id s = none
stream (suc fuel) kind id s = elim (record_at kind id s) [
  | none ↦ none
  | some (content, []) ↦ some content
  | some (content, c ∷ r) ↦ in_front content (stream fuel kind id (c ∷ r))
]

drop-replicate : (p : ℕ) (rest : Bytes) → drop p (replicate p 0 ++ rest) ≡ rest
drop-replicate zero rest = refl
drop-replicate (suc p) rest = drop-replicate p rest

record_at-record_bytes :
    (kind id : ℕ) (content rest : Bytes)
    → id < 2 ^ 16
    → length content < 2 ^ 16
    → record_at kind id (record_bytes kind id content ++ rest) ≡ some (content, rest)
unfolding record_at record_bytes header padding_length
record_at-record_bytes kind id content rest small fits =
    let n = length content in
    let p = (8 - n % 8) % 8 in
    let same : (kind == kind) ≡ true = ground arith in
    let whole : (id / 2 ^ 8 % 256 * 256 + id % 256 == id) ≡ true = ground arith in
    let size : n / 2 ^ 8 * 256 + n % 256 ≡ n = omega arith in
    let padded : ((n + p) % 8 == 0) ≡ true = ground arith in
    let shape : (content ++ replicate p 0) ++ rest ≡ content ++ (replicate p 0 ++ rest) =
      append_assoc content (replicate p 0) rest in
    let enough : ltb (length (content ++ (replicate p 0 ++ rest))) (n + p) ≡ false =
      rw (length-append, length-append, length-replicate) (ground arith) in
    rw (same, whole, size, padded, shape, enough, take-length_append, drop-length_append)
      (ap (λ t. some (content, t)) (drop-replicate p rest))

stream_end :
    (fuel kind id : ℕ) (s content : Bytes)
    → record_at kind id s ≡ some (content, [])
    → stream (suc fuel) kind id s ≡ some content
unfolding stream
stream_end fuel kind id s content e = rw (stream, e)

stream_more :
    (fuel kind id : ℕ) (s content : Bytes) (c : ℕ) (r : Bytes)
    → record_at kind id s ≡ some (content, c ∷ r)
    → stream (suc fuel) kind id s ≡ in_front content (stream fuel kind id (c ∷ r))
unfolding stream
stream_more fuel kind id s content c r e = rw (stream, e)

-- The records of the input, without what stood in the buffer.
records : ℕ → ℕ → ℕ → Bytes → Bytes
records zero kind id input = []
records (suc fuel) kind id input =
    let written = min (length input) 0xFFFF in
    let first = record_bytes kind id (take written input) in
    let later = records fuel kind id (drop written input) in
    if written == length input then first else first ++ later

data_loop-records :
    (fuel kind id : ℕ) (buffer input : Bytes)
    → data_loop fuel kind id buffer input ≡ buffer ++ records fuel kind id input
unfolding data_loop records
data_loop-records zero kind id buffer input = rw append-nil
data_loop-records (suc fuel) kind id buffer input =
    let written = min (length input) 0xFFFF in
    let first = record_bytes kind id (take written input) in
    elim (Bool-cases (written == length input)) [
      | inl e ↦ rw e
      | inr e ↦ rw e (
          data_loop-records fuel kind id (buffer ++ first) (drop written input)
          ∙ append_assoc buffer first (records fuel kind id (drop written input)))
    ]

-- A record is not empty.
record_bytes-cons :
    (kind id : ℕ) (content rest : Bytes)
    → (r : Bytes) × (record_bytes kind id content ++ rest ≡ 1 ∷ r)
unfolding record_bytes header
record_bytes-cons kind id content rest = (_, refl)

records-cons :
    (fuel kind id : ℕ) (input : Bytes)
    → 1 ≤ fuel
    → (r : Bytes) × (records fuel kind id input ≡ 1 ∷ r)
unfolding records
records-cons zero kind id input positive = absurd (omega arith)
records-cons (suc fuel) kind id input positive =
    let written = min (length input) 0xFFFF in
    let content = take written input in
    elim (Bool-cases (written == length input)) [
      | inl e ↦
          let (r, shape) = record_bytes-cons kind id content [] in
          (r, rw e (sym (append-nil _) ∙ shape))
      | inr e ↦
          let (r, shape) =
            record_bytes-cons kind id content (records fuel kind id (drop written input)) in
          (r, rw e shape)
    ]

records_last :
    (fuel kind id : ℕ) (input : Bytes)
    → length input ≤ 0xFFFF
    → records (suc fuel) kind id input ≡ record_bytes kind id input
unfolding records
records_last fuel kind id input few =
    let all : min (length input) 0xFFFF ≡ length input = omega arith in
    let last : (length input == length input) ≡ true = ground arith in
    rw (all, last, take-length input)

records_more :
    (fuel kind id : ℕ) (input : Bytes)
    → 0xFFFF < length input
    → records (suc fuel) kind id input
      ≡ record_bytes kind id (take 0xFFFF input) ++ records fuel kind id (drop 0xFFFF input)
unfolding records
records_more fuel kind id input many =
    let full : min (length input) 0xFFFF ≡ 0xFFFF = omega arith in
    let left : (0xFFFF == length input) ≡ false = ground arith in rw (full, left)

stream-records :
    (fuel kind id : ℕ) (input : Bytes)
    → id < 2 ^ 16
    → length input < fuel
    → stream fuel kind id (records fuel kind id input) ≡ some input
stream-records zero kind id input small enough = absurd (omega arith)
stream-records (suc fuel) kind id input small enough =
    elim (Bool-cases (ltb 0xFFFF (length input))) [
      | inr few ↦ stream_end fuel kind id _ input (
          ap (record_at kind id)
            (records_last fuel kind id input (ground arith) ∙ sym (append-nil _))
          ∙ record_at-record_bytes kind id input [] small (ground arith))
      | inl many ↦
          let more : 0xFFFF < length input = ground arith in
          let content = take 0xFFFF input in
          let left = drop 0xFFFF input in
          let taken : length content ≡ 0xFFFF = length-take 0xFFFF input (omega arith) in
          let (r, shape) = records-cons fuel kind id left (omega arith) in
          let first : record_at kind id (records (suc fuel) kind id input) ≡ some (content, 1 ∷ r) =
            ap (record_at kind id) (records_more fuel kind id input more)
            ∙ record_at-record_bytes kind id content (records fuel kind id left) small (omega arith)
            ∙ ap (λ t. some (content, t)) shape in
          stream_more fuel kind id _ content 1 r first
          ∙ ap (λ t. in_front content (stream fuel kind id t)) (sym shape)
          ∙ ap (in_front content)
              (stream-records fuel kind id left small (rw length-drop (omega arith)))
          ∙ ap some (take-drop 0xFFFF input)
    ]

-- For a request id of 16 bits: what `write_data_fcgi` adds to the buffer is a stream of whole records
-- of that type and request, padded to eight bytes, and a client that reads their contents, in at most
-- one record more than the input has bytes, gets the input.
pub stream-write_data_fcgi :
    (buffer input : Bytes) (id kind : ℕ)
    → id < 2 ^ 16
    → (bytes : Bytes) × (write_data_fcgi buffer id input kind ≡ buffer ++ bytes)
      × (stream (length input + 1) kind id bytes ≡ some input)
unfolding write_data_fcgi
stream-write_data_fcgi buffer input id kind small = (
  records (length input + 1) kind id input,
  data_loop-records (length input + 1) kind id buffer input,
  stream-records (length input + 1) kind id input small (omega arith),
)
