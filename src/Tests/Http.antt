-- ===== src/Tests/Http.antt =====
-- Response heads and gzip files at concrete inputs.
use uce.Base.{
  ℕ, ◌+◌, ◌%◌, List, [], ◌∷◌, ◌++◌, ◌≡◌, ◌≤◌, refl, inl, inr, Option, none, some, Bytes, length,
  codes, arith, All,
}
use uce.Gzip.Offset.{gz_deflate_offset-le}
use uce.Gzip.RoundTrip.{gz_uncompress-gz_compress}
use uce.Gzip.{
  value, gz_compress, gz_uncompress, gz_deflate_offset, optional_fields, extra_field, text_field,
  gz_skip_zero_terminated, skip_loop, crc_field, footer_room,
}
use uce.Http.Fields.{IsLine, IsHeaderLine, IsStatusLine, HeaderLines, CookieLines}
use uce.Http.Head.{lines, response_head_lem}
use uce.Http.{http_header_value_clean, crlf, response_head}

-- A value that tries to end the head.
response_head_lem_example :
    (status : Bytes) × (ls : List Bytes) × (ks : List Bytes) × IsLine status
    × IsStatusLine (codes "HTTP/1.1 200 OK") status
    × HeaderLines ((codes "X-Name", codes "a" ++ (crlf ++ codes "Set-Cookie: b")) ∷ []) ls
    × CookieLines (codes "Set-Cookie: c=d" ∷ []) ks
    × All IsHeaderLine (ls ++ ks)
    × (response_head
          (codes "HTTP/1.1 200 OK")
          ((codes "X-Name", codes "a" ++ (crlf ++ codes "Set-Cookie: b")) ∷ [])
          (codes "Set-Cookie: c=d" ∷ [])
        ≡ lines (status ∷ (ls ++ ks)) ++ crlf)
response_head_lem_example =
    response_head_lem (codes "HTTP/1.1 200 OK")
      ((codes "X-Name", codes "a" ++ (crlf ++ codes "Set-Cookie: b")) ∷ [])
      (codes "Set-Cookie: c=d" ∷ [])

cleaned_value : http_header_value_clean (codes "a" ++ (crlf ++ codes "b")) ≡ codes "a  b"
unfolding http_header_value_clean
cleaned_value = refl

-- A file with a name in its header: the compressed part starts behind it.
abbrev named_file : Bytes
named_file =
    0x1F ∷ 0x8B ∷ 8 ∷ 8 ∷ 0 ∷ 0 ∷ 0 ∷ 0 ∷ 0 ∷ 255 ∷ codes "f"
    ++ (0 ∷ 3 ∷ 0 ∷ 0 ∷ 0 ∷ 0 ∷ 0 ∷ 0 ∷ 0 ∷ 0 ∷ 0 ∷ [])

named_offset : gz_deflate_offset named_file ≡ value 12
unfolding gz_deflate_offset optional_fields extra_field text_field gz_skip_zero_terminated skip_loop
    crc_field footer_room
named_offset = refl

gz_deflate_offset-le_example : (10 ≤ 12) × (12 + 8 ≤ length named_file)
gz_deflate_offset-le_example = gz_deflate_offset-le named_file {offset = 12} named_offset

-- Compression that stores the input behind one byte.
abbrev store : Bytes → Option Bytes
store s = some (1 ∷ s)

abbrev restore : Bytes → Option Bytes
restore [] = none
restore (c ∷ s) = some s

abbrev size_sum : Bytes → ℕ
size_sum s = length s % 256

gz_uncompress-gz_compress_example :
    (file : Bytes) × (gz_compress store restore size_sum 100 0 (codes "text") ≡ value file)
    × (gz_uncompress store restore size_sum 100 0 file ≡ value (codes "text"))
gz_uncompress-gz_compress_example =
    gz_uncompress-gz_compress store restore size_sum 100 0 (codes "text") (1 ∷ codes "text") refl
      refl (omega arith) (inr (omega arith)) (inr (omega arith)) (inl refl)
