-- ===== src/Fastcgi/Pairs.antt =====
-- Name-value pairs of src/fastcgi/src/fcgicc.cc are read back.
use uce.Base.{
  ℕ, zero, suc, ◌+◌, ◌/◌, ◌%◌, ◌^◌, ◌≤◌, ◌<◌, true, false, [], ◌∷◌, ◌++◌, ◌≡◌, ap, ◌∙◌, some, inl,
  inr, Bytes, length, ltb, ◌==◌, bit_and, arith, All, length-append, take-length_append,
  drop-length_append, append_assoc, append-nil, Bool-cases,
}
use uce.Base.Bits.{low_7_bits}
use uce.Base.Maps.{StringMap, insert_new, insert_new_last, IsSorted, below-sorted}
use uce.Fastcgi.{
  parse_length, pair_of, value_behind, name_behind, parse_pair, pairs_loop, parse_pairs_fcgi,
  pair_length, write_pair_fcgi,
}

parse_length-pair_length :
    (size : ℕ) (rest : Bytes)
    → size < 2 ^ 31
    → parse_length (pair_length size ++ rest) ≡ some (size, rest)
unfolding parse_length pair_length
parse_length-pair_length size rest small = elim (Bool-cases (ltb 0x7F size)) [
  | inr short ↦ let one : (size / 2 ^ 7 == 0) ≡ true = ground arith in rw (short, one)
  | inl long ↦
      let four : ((0x80 + size / 2 ^ 24 % 128) / 2 ^ 7 == 0) ≡ false = ground arith in
      let low : bit_and (0x80 + size / 2 ^ 24 % 128) 0x7F ≡ size / 2 ^ 24 % 128 =
        low_7_bits (0x80 + size / 2 ^ 24 % 128) (omega arith) ∙ omega arith in
      let there : ltb (suc (suc (suc (suc (length rest))))) 4 ≡ false = ground arith in
      rw (long, four, low, there) (ap (λ n. some (n, rest)) (omega arith))
]

-- A pair whose lengths are below 2^31.
abbrev pub IsPair : Bytes × Bytes → Type 0
IsPair (key, value) = (length key < 2 ^ 31) × (length value < 2 ^ 31)

abbrev pair_bytes : Bytes → Bytes → Bytes
pair_bytes key value = pair_length (length key) ++ (pair_length (length value) ++ (key ++ value))

pair_of_lem :
    (key value rest : Bytes)
    → pair_of (length key) (length value) (key ++ (value ++ rest)) ≡ some (key, value, rest)
unfolding pair_of
pair_of_lem key value rest =
    let room : ltb (length (key ++ (value ++ rest))) (length key) ≡ false =
      rw length-append (ground arith) in
    let room_left : ltb (length (value ++ rest)) (length value) ≡ false =
      rw length-append (ground arith) in
    rw (
      room,
      drop-length_append key (value ++ rest),
      room_left,
      take-length_append key (value ++ rest),
      take-length_append value rest,
      drop-length_append value rest,
    )

pair_bytes_append :
    (key value rest : Bytes)
    → pair_bytes key value ++ rest
      ≡ pair_length (length key) ++ (pair_length (length value) ++ (key ++ (value ++ rest)))
pair_bytes_append key value rest =
    append_assoc (pair_length (length key)) (pair_length (length value) ++ (key ++ value)) rest
    ∙ ap (λ t. pair_length (length key) ++ t)
        (append_assoc (pair_length (length value)) (key ++ value) rest
          ∙ ap (λ t. pair_length (length value) ++ t) (append_assoc key value rest))

parse_pair-pair_bytes :
    (key value rest : Bytes)
    → IsPair (key, value)
    → parse_pair (pair_bytes key value ++ rest) ≡ some (key, value, rest)
unfolding parse_pair name_behind value_behind
parse_pair-pair_bytes key value rest (hk, hv) =
    ap parse_pair (pair_bytes_append key value rest)
    ∙ ap name_behind (parse_length-pair_length (length key) _ hk)
    ∙ ap (value_behind (length key))
        (parse_length-pair_length (length value) (key ++ (value ++ rest)) hv)
    ∙ pair_of_lem key value rest

-- The pairs of a map, written one behind the other.
unfoldable pub write_pairs : Bytes → StringMap → Bytes
unfolding write_pair_fcgi
write_pairs buffer [] = buffer
write_pairs buffer ((key, value) ∷ pairs) = write_pairs (write_pair_fcgi buffer key value) pairs

flat : StringMap → Bytes
flat [] = []
flat ((key, value) ∷ pairs) = pair_bytes key value ++ flat pairs

write_pairs-flat :
    (buffer : Bytes) (pairs : StringMap) → write_pairs buffer pairs ≡ buffer ++ flat pairs
unfolding write_pairs write_pair_fcgi flat
write_pairs-flat buffer [] = rw append-nil
write_pairs-flat buffer ((key, value) ∷ pairs) =
    write_pairs-flat (buffer ++ pair_bytes key value) pairs
    ∙ append_assoc buffer (pair_bytes key value) (flat pairs)

length-pair_length : (size : ℕ) → 1 ≤ length (pair_length size)
unfolding pair_length
length-pair_length size = ground arith

length-pair_bytes : (key value : Bytes) → 1 ≤ length (pair_bytes key value)
length-pair_bytes key value = rw length-append (omega (arith, length-pair_length (length key)))

parse_pair-flat :
    (key value : Bytes) (pairs : StringMap)
    → IsPair (key, value)
    → parse_pair (flat ((key, value) ∷ pairs)) ≡ some (key, value, flat pairs)
unfolding flat
parse_pair-flat key value pairs h = parse_pair-pair_bytes key value (flat pairs) h

pairs_loop-some :
    (fuel : ℕ) (u key value rest : Bytes) (pairs : StringMap)
    → parse_pair u ≡ some (key, value, rest)
    → pairs_loop (suc fuel) u pairs ≡ pairs_loop fuel rest (insert_new key value pairs)
unfolding pairs_loop
pairs_loop-some fuel u key value rest pairs e = rw (pairs_loop, e)

none_left : (p q : Bytes) → 1 ≤ length p → length (p ++ q) ≤ 0 → ⊥
none_left p q positive h = omega (arith, length-append p q)

fewer : (p q : Bytes) (n : ℕ) → 1 ≤ length p → length (p ++ q) ≤ suc n → length q ≤ n
fewer p q n positive h = omega (arith, length-append p q)

pairs_loop-flat :
    (fuel : ℕ) (before pairs : StringMap)
    → length (flat pairs) ≤ fuel
    → All IsPair pairs
    → IsSorted (before ++ pairs)
    → pairs_loop fuel (flat pairs) before ≡ before ++ pairs
pairs_loop-flat zero before [] enough h s = unfold pairs_loop in rw append-nil
pairs_loop-flat (suc fuel) before [] enough h s =
    unfold pairs_loop flat parse_pair name_behind parse_length in rw append-nil
pairs_loop-flat zero before ((key, value) ∷ pairs) enough h s = absurd (
    none_left (pair_bytes key value) (flat pairs) (length-pair_bytes key value)
      (unfold flat in enough))
pairs_loop-flat (suc fuel) before ((key, value) ∷ pairs) enough (hp, h) s =
    pairs_loop-some fuel _ key value (flat pairs) before (parse_pair-flat key value pairs hp)
    ∙ ap (pairs_loop fuel (flat pairs))
        (insert_new_last key value before (below-sorted before key value pairs s))
    ∙ pairs_loop-flat fuel (before ++ (key, value) ∷ []) pairs
        (fewer (pair_bytes key value) (flat pairs) fuel (length-pair_bytes key value)
          (unfold flat in enough))
        h (rw append_assoc s)
    ∙ append_assoc before ((key, value) ∷ []) pairs

-- The pairs of a map whose keys are in order, as the entries of a `std::map` are, and whose keys and
-- values are shorter than 2^31 bytes, are read back from what `write_pair_fcgi` writes for them.
pub parse_pairs_fcgi-write_pairs :
    (pairs : StringMap)
    → All IsPair pairs
    → IsSorted pairs
    → parse_pairs_fcgi (write_pairs [] pairs) ≡ pairs
unfolding parse_pairs_fcgi
parse_pairs_fcgi-write_pairs pairs h s =
    rw (write_pairs-flat [] pairs)
      (pairs_loop-flat (length (flat pairs)) [] pairs (omega arith) h s)
