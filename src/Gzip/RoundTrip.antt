-- ===== src/Gzip/RoundTrip.antt =====
-- What `gz_compress` of src/lib/zip.cpp writes, `gz_uncompress` reads.
use uce.Base.{
  ℕ, suc, ◌+◌, ◌-◌, ◌%◌, ◌^◌, ◌≤◌, ◌<◌, true, false, [], ◌∷◌, ◌++◌, ◌≡◌, refl, ap, ap₂, ◌∙◌, sym,
  ◌⊎◌, Option, some, Bytes, length, take, drop, ltb, ◌==◌, ◌&&◌, arith, codes, append_assoc,
  append-nil, length-append, take-length_append,
}
use uce.Gzip.{
  value, extra_field, text_field, crc_field, footer_room, optional_fields, gz_deflate_offset,
  gz_append_u32_le, gz_read_u32_le, archive_check_size, gzip_file, gz_compress, checked,
  decompressed, gz_uncompress,
}
use uce.WebSocket.Frame.{raw}

raw_past : (p s : Bytes) (k : ℕ) → raw (p ++ s) (length p + k) ≡ raw s k
raw_past [] s k = let e : 0 + k ≡ k = omega arith in ap (raw s) e
raw_past (c ∷ p) s k =
    let e : suc (length p) + k ≡ suc (length p + k) = omega arith in
    ap (raw (c ∷ p ++ s)) e ∙ raw_past p s k

-- The four bytes of a number.
u32_bytes : ℕ → Bytes
unfolding gz_append_u32_le
u32_bytes n = gz_append_u32_le [] n

length-u32_bytes : (n : ℕ) → length (u32_bytes n) ≡ 4
unfolding u32_bytes gz_append_u32_le
length-u32_bytes n = refl

read_u32-past :
    (p s : Bytes) (n : ℕ) → n < 2 ^ 32 → gz_read_u32_le (p ++ (u32_bytes n ++ s)) (length p) ≡ n
unfolding gz_read_u32_le u32_bytes gz_append_u32_le
read_u32-past p s n small =
    let t = u32_bytes n ++ s in
    let at_0 : raw (p ++ t) (length p) ≡ n % 256 =
      (let e : length p ≡ length p + 0 = omega arith in ap (raw (p ++ t)) e) ∙ raw_past p t 0 in
    rw (at_0, raw_past p t 1, raw_past p t 2, raw_past p t 3) (omega arith)

-- A size that the limit lets pass; 0 is no limit.
abbrev pub IsAllowed : ℕ → ℕ → Type 0
IsAllowed size limit = (limit ≡ 0) ⊎ (size ≤ limit)

archive_check_size_passed :
    (api label : Bytes) (size limit : ℕ)
    → IsAllowed size limit
    → archive_check_size api label size limit ≡ value tt
unfolding archive_check_size
archive_check_size_passed api label size limit h = ground arith

head : Bytes
head = 0x1F ∷ 0x8B ∷ 8 ∷ 0 ∷ 0 ∷ 0 ∷ 0 ∷ 0 ∷ 0 ∷ 0xFF ∷ []

length-head : (rest : Bytes) → length (head ++ rest) ≡ 10 + length rest
unfolding head
length-head rest = omega arith

gz_deflate_offset-head :
    (rest : Bytes) → 8 ≤ length rest → gz_deflate_offset (head ++ rest) ≡ value 10
unfolding head gz_deflate_offset optional_fields extra_field text_field crc_field footer_room
gz_deflate_offset-head rest room =
    let long : ltb (length (head ++ rest)) 18 ≡ false = ground arith in rw long

module _ (deflate inflate : Bytes → Option Bytes) (crc32 : Bytes → ℕ)
    (input_limit output_limit : ℕ) where
  tail : Bytes → Bytes
  tail src = u32_bytes (crc32 src) ++ u32_bytes (length src % 2 ^ 32)

  gzip_file_shape :
      (src deflated : Bytes)
      → gzip_file deflate inflate crc32 input_limit output_limit src deflated
        ≡ head ++ (deflated ++ tail src)
  unfolding gzip_file gz_append_u32_le head tail u32_bytes
  gzip_file_shape src deflated =
      append_assoc (head ++ deflated) (u32_bytes (crc32 src)) (u32_bytes (length src % 2 ^ 32))
      ∙ append_assoc head deflated (tail src)

  length-tail : (src : Bytes) → length (tail src) ≡ 8
  unfolding tail u32_bytes gz_append_u32_le
  length-tail src = refl

  footer_offset : (src d : Bytes) → length (head ++ (d ++ tail src)) - 8 ≡ length (head ++ d)
  unfolding head
  footer_offset src d =
      let sum : length (d ++ tail src) ≡ length d + 8 =
        length-append d (tail src) ∙ ap (λ n. length d + n) (length-tail src) in
      omega (arith, sum)

  stored_crc :
      (src d : Bytes)
      → crc32 src < 2 ^ 32
      → gz_read_u32_le (head ++ (d ++ tail src)) (length (head ++ d)) ≡ crc32 src
  unfolding tail
  stored_crc src d small =
      ap (λ t. gz_read_u32_le t (length (head ++ d))) (sym (append_assoc head d (tail src)))
      ∙ read_u32-past (head ++ d) (u32_bytes (length src % 2 ^ 32)) (crc32 src) small

  stored_size :
      (src d : Bytes)
      → gz_read_u32_le (head ++ (d ++ tail src)) (length (head ++ d) + 4) ≡ length src % 2 ^ 32
  unfolding tail
  stored_size src d =
      let c = u32_bytes (crc32 src) in
      let z = u32_bytes (length src % 2 ^ 32) in
      let p = head ++ d in
      let shape : head ++ (d ++ (c ++ z)) ≡ (p ++ c) ++ (z ++ []) =
        sym (append_assoc head d (c ++ z))
        ∙ sym (append_assoc p c z)
        ∙ ap (λ t. (p ++ c) ++ t) (sym (append-nil z)) in
      let place : length p + 4 ≡ length (p ++ c) =
        sym (length-append p c ∙ ap (λ n. length p + n) (length-u32_bytes (crc32 src))) in
      ap₂ gz_read_u32_le shape place ∙ read_u32-past (p ++ c) [] (length src % 2 ^ 32) (omega arith)

  part : (src d : Bytes) → take (length (head ++ d) - 10) (drop 10 (head ++ (d ++ tail src))) ≡ d
  unfolding head
  part src d = ap (λ n. take n (d ++ tail src)) (omega arith) ∙ take-length_append d (tail src)

  checked_lem :
      (src : Bytes)
      → IsAllowed (length src) output_limit
      → checked deflate inflate crc32 input_limit output_limit (length src % 2 ^ 32) (crc32 src) src
        ≡ value src
  unfolding checked
  checked_lem src room =
      let small : (ltb 0 output_limit && ltb output_limit (length src)) ≡ false = ground arith in
      let same_crc : (crc32 src == crc32 src) ≡ true = ground arith in
      let same_size : (length src % 2 ^ 32 == length src % 2 ^ 32) ≡ true = ground arith in
      rw (small, same_crc, same_size)

  decompressed_lem :
      (src d : Bytes)
      → inflate d ≡ some src
      → crc32 src < 2 ^ 32
      → IsAllowed (length src) output_limit
      → decompressed deflate inflate crc32 input_limit output_limit (head ++ (d ++ tail src)) 10
        ≡ value src
  unfolding decompressed
  decompressed_lem src d inflated small room =
      let file = head ++ (d ++ tail src) in
      let footer = length file - 8 in
      let size : gz_read_u32_le file (footer + 4) ≡ length src % 2 ^ 32 =
        ap (λ n. gz_read_u32_le file (n + 4)) (footer_offset src d) ∙ stored_size src d in
      let crc : gz_read_u32_le file footer ≡ crc32 src =
        ap (gz_read_u32_le file) (footer_offset src d) ∙ stored_crc src d small in
      let declared : IsAllowed (gz_read_u32_le file (footer + 4)) output_limit =
        ground (arith, size) in
      let content : inflate (take (footer - 10) (drop 10 file)) ≡ some src =
        ap (λ n. inflate (take (n - 10) (drop 10 file))) (footer_offset src d)
        ∙ ap inflate (part src d)
        ∙ inflated in
      rw
        (
          archive_check_size_passed (codes "gz_uncompress") (codes "declared output")
              (gz_read_u32_le file (footer + 4)) output_limit declared,
          content,
        )
        (ap₂ (λ n m. checked deflate inflate crc32 input_limit output_limit n m src) size crc
          ∙ checked_lem src room)

  -- Where decompression undoes what compression made of `src` and the checksum is a number of 32 bits:
  -- when the limits, or 0 for none, allow the input, the file and its content, `gz_compress` writes a
  -- file, and `gz_uncompress` reads `src` back from it.
  pub gz_uncompress-gz_compress :
      (src deflated : Bytes)
      → deflate src ≡ some deflated
      → inflate deflated ≡ some src
      → crc32 src < 2 ^ 32
      → IsAllowed (length src) input_limit
      → IsAllowed (18 + length deflated) input_limit
      → IsAllowed (length src) output_limit
      → (file : Bytes) × (gz_compress deflate inflate crc32 input_limit output_limit src
          ≡ value file)
        × (gz_uncompress deflate inflate crc32 input_limit output_limit file ≡ value src)
  unfolding gz_compress gz_uncompress
  gz_uncompress-gz_compress src d compressed inflated small fits file_fits room =
      let size : length (d ++ tail src) ≡ length d + 8 =
        length-append d (tail src) ∙ ap (λ n. length d + n) (length-tail src) in
      let whole : IsAllowed (length (head ++ (d ++ tail src))) input_limit =
        ground (arith, size, length-head (d ++ tail src)) in
      (
        head ++ (d ++ tail src),
        rw
            (
              archive_check_size_passed (codes "gz_compress") (codes "input") (length src)
                  input_limit fits,
              compressed,
            )
            (ap value (gzip_file_shape src d)),
        rw
            (
              archive_check_size_passed (codes "gz_uncompress") (codes "input")
                  (length (head ++ (d ++ tail src))) input_limit whole,
              gz_deflate_offset-head (d ++ tail src) (omega (arith, size)),
            )
            (decompressed_lem src d inflated small room),
      )
