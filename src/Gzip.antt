-- ===== src/Gzip.antt =====
-- The gzip functions of src/lib/zip.cpp. Compression, decompression and the checksum of the miniz
-- library are parameters; the bytes of a number are added.
pub mod RoundTrip
pub mod Offset
use uce.Base.{
  ℕ, zero, suc, ◌+◌, ◌-◌, ◌*◌, ◌/◌, ◌%◌, ◌^◌, Bool, true, false, List, [], ◌∷◌, ◌++◌, ◌&&◌, not,
  none, some, Option, Bytes, length, take, drop, ltb, ◌==◌, bit_and, if◌then◌else◌, codes,
}
use uce.WebSocket.Frame.{raw, is_set}

-- A value, or the text of the exception.
pub data Result {ℓ} (A : Type ℓ) : Type ℓ where
  thrown : Bytes → Result A
  value : A → Result A

infix 20 ◌>>=◌
abbrev pub ◌>>=◌ {ℓ κ} : {A : Type ℓ} → {B : Type κ} → Result A → (A → Result B) → Result B
thrown text >>= f = thrown text
value x >>= f = f x

unfoldable pub gz_append_u32_le : Bytes → ℕ → Bytes
gz_append_u32_le out n =
    out ++ (n % 256 ∷ n / 2 ^ 8 % 256 ∷ n / 2 ^ 16 % 256 ∷ n / 2 ^ 24 % 256 ∷ [])

unfoldable pub gz_read_u32_le : Bytes → ℕ → ℕ
gz_read_u32_le src offset =
    raw src offset
    + raw src (offset + 1) * 2 ^ 8
    + raw src (offset + 2) * 2 ^ 16
    + raw src (offset + 3) * 2 ^ 24

unfoldable pub skip_loop : Bytes → ℕ → Result ℕ
skip_loop [] offset = thrown (codes "gz_uncompress(): truncated gzip header")
skip_loop (c ∷ rest) offset = if c == 0 then value (offset + 1) else skip_loop rest (offset + 1)

unfoldable pub gz_skip_zero_terminated : Bytes → ℕ → Result ℕ
unfolding skip_loop
gz_skip_zero_terminated compressed offset = skip_loop (drop offset compressed) offset

-- The optional fields of the header, each behind the offset it is given.
unfoldable pub extra_field : Bytes → ℕ → Result ℕ
extra_field compressed offset =
    let behind = offset + 2 + (raw compressed offset + raw compressed (offset + 1) * 2 ^ 8) in
    if not (is_set (raw compressed 3) 0x04)
    then value offset
    else if ltb (length compressed) (offset + 2)
    then thrown (codes "gz_uncompress(): truncated gzip extra header")
    else if ltb (length compressed) behind
    then thrown (codes "gz_uncompress(): truncated gzip extra data")
    else value behind

unfoldable pub text_field : ℕ → Bytes → ℕ → Result ℕ
text_field flag compressed offset =
    if is_set (raw compressed 3) flag
    then gz_skip_zero_terminated compressed offset
    else value offset

unfoldable pub crc_field : Bytes → ℕ → Result ℕ
crc_field compressed offset =
    if not (is_set (raw compressed 3) 0x02)
    then value offset
    else if ltb (length compressed) (offset + 2)
    then thrown (codes "gz_uncompress(): truncated gzip header crc")
    else value (offset + 2)

unfoldable pub footer_room : Bytes → ℕ → Result ℕ
footer_room compressed offset =
    if ltb (length compressed) (offset + 8)
    then thrown (codes "gz_uncompress(): missing gzip footer")
    else value offset

unfoldable pub optional_fields : Bytes → Result ℕ
optional_fields compressed =
    (((extra_field compressed 10 >>= text_field 0x08 compressed) >>= text_field 0x10 compressed)
      >>= crc_field compressed)
    >>= footer_room compressed

unfoldable pub gz_deflate_offset : Bytes → Result ℕ
gz_deflate_offset compressed =
    if ltb (length compressed) 18
    then thrown (codes "gz_uncompress(): compressed data is too short")
    else if not (raw compressed 0 == 0x1F && raw compressed 1 == 0x8B)
    then thrown (codes "gz_uncompress(): missing gzip header")
    else if not (raw compressed 2 == 8)
    then thrown (codes "gz_uncompress(): unsupported gzip compression method")
    else if is_set (raw compressed 3) 0xE0
    then thrown (codes "gz_uncompress(): gzip header uses reserved flags")
    else optional_fields compressed

unfoldable pub archive_check_size : Bytes → Bytes → ℕ → ℕ → Result {0} Unit
archive_check_size api label size limit =
    if ltb 0 limit && ltb limit size
    then thrown (api ++ (codes "(): " ++ (label ++ codes " exceeds configured limit")))
    else value tt

-- `deflate` is `mz_deflate` of the whole input at once, `inflate` is `tinfl_decompress_mem_to_heap`,
-- and `crc32` is `mz_crc32`. The limits are the configured ones.
module _ (deflate inflate : Bytes → Option Bytes) (crc32 : Bytes → ℕ)
    (input_limit output_limit : ℕ) where
  unfoldable pub gzip_file : Bytes → Bytes → Bytes
  gzip_file src deflated =
      let head = gz_append_u32_le (0x1F ∷ 0x8B ∷ 8 ∷ 0 ∷ []) 0 ++ 0 ∷ 0xFF ∷ [] in
      gz_append_u32_le (gz_append_u32_le (head ++ deflated) (crc32 src)) (length src % 2 ^ 32)

  unfoldable pub gz_compress : Bytes → Result Bytes
  gz_compress src =
      archive_check_size (codes "gz_compress") (codes "input") (length src) input_limit >>= λ _.
      elim (deflate src) [
        | none ↦ thrown (codes "gz_compress(): compression failed")
        | some deflated ↦ value (gzip_file src deflated)
      ]

  -- The tests on what was decompressed.
  unfoldable pub checked : ℕ → ℕ → Bytes → Result Bytes
  checked expected_size expected_crc result =
      if ltb 0 output_limit && ltb output_limit (length result)
      then thrown (codes "gz_uncompress(): output exceeds configured limit")
      else if not (crc32 result == expected_crc)
      then thrown (codes "gz_uncompress(): crc check failed")
      else if not (length result % 2 ^ 32 == expected_size)
      then thrown (codes "gz_uncompress(): size check failed")
      else value result

  unfoldable pub decompressed : Bytes → ℕ → Result Bytes
  decompressed compressed deflate_offset =
      let footer_offset = length compressed - 8 in
      let expected_size = gz_read_u32_le compressed (footer_offset + 4) in
      let part = take (footer_offset - deflate_offset) (drop deflate_offset compressed) in
      archive_check_size (codes "gz_uncompress") (codes "declared output") expected_size
        output_limit
      >>= λ _. elim (inflate part) [
        | none ↦ thrown (codes "gz_uncompress(): decompression failed")
        | some result ↦ checked expected_size (gz_read_u32_le compressed footer_offset) result
      ]

  unfoldable pub gz_uncompress : Bytes → Result Bytes
  gz_uncompress compressed =
      archive_check_size (codes "gz_uncompress") (codes "input") (length compressed) input_limit
      >>= λ _. (gz_deflate_offset compressed >>= decompressed compressed)
