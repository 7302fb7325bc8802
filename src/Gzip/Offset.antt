-- ===== src/Gzip/Offset.antt =====
-- `gz_deflate_offset` of src/lib/zip.cpp stays inside the data.
use uce.Base.{ℕ, ◌+◌, ◌≤◌, [], ◌∷◌, ◌≡◌, Bytes, length, drop, arith}
use uce.Gzip.{
  Result, thrown, value, ◌>>=◌, skip_loop, gz_skip_zero_terminated, extra_field, text_field,
  crc_field, footer_room, optional_fields, gz_deflate_offset,
}

-- A result that, when it is an offset, is `low` at least.
abbrev AtLeast : ℕ → Result ℕ → Type 0
AtLeast low (thrown text) = Unit
AtLeast low (value offset) = low ≤ offset

skip_loop-AtLeast :
    (rest : Bytes) (low offset : ℕ) → low ≤ offset → AtLeast low (skip_loop rest offset)
unfolding skip_loop
skip_loop-AtLeast [] low offset h = tt
skip_loop-AtLeast (c ∷ rest) low offset h = ground (arith, skip_loop-AtLeast rest low (offset + 1))

text_field-AtLeast :
    (flag : ℕ) (s : Bytes) (low offset : ℕ) → low ≤ offset → AtLeast low (text_field flag s offset)
unfolding text_field gz_skip_zero_terminated
text_field-AtLeast flag s low offset h =
    ground (arith, skip_loop-AtLeast (drop offset s) low offset h)

extra_field-AtLeast :
    (s : Bytes) (low offset : ℕ) → low ≤ offset → AtLeast low (extra_field s offset)
unfolding extra_field
extra_field-AtLeast s low offset h = ground arith

crc_field-AtLeast : (s : Bytes) (low offset : ℕ) → low ≤ offset → AtLeast low (crc_field s offset)
unfolding crc_field
crc_field-AtLeast s low offset h = ground arith

bind-AtLeast :
    (low : ℕ) (r : Result ℕ) (f : ℕ → Result ℕ)
    → AtLeast low r
    → ((offset : ℕ) → low ≤ offset → AtLeast low (f offset))
    → AtLeast low (r >>= f)
bind-AtLeast low (thrown text) f h k = tt
bind-AtLeast low (value offset) f h k = k offset h

footer_room-le :
    (s : Bytes) (low : ℕ) (r : Result ℕ) {offset : ℕ}
    → AtLeast low r
    → (r >>= footer_room s) ≡ value offset
    → (low ≤ offset) × (offset + 8 ≤ length s)
unfolding footer_room
footer_room-le s low (thrown text) h e = cc
footer_room-le s low (value found) h e = ground arith

-- An offset that `gz_deflate_offset` returns, whatever the header's flags and fields are, is behind
-- the ten bytes of the fixed header and leaves the eight bytes of the footer, so that the size of the
-- compressed part, which the caller computes by subtraction, does not wrap.
pub gz_deflate_offset-le :
    (compressed : Bytes) {offset : ℕ}
    → gz_deflate_offset compressed ≡ value offset
    → (10 ≤ offset) × (offset + 8 ≤ length compressed)
unfolding gz_deflate_offset optional_fields
gz_deflate_offset-le s {offset} e =
    let names = extra_field s 10 >>= text_field 0x08 s in
    let texts = names >>= text_field 0x10 s in
    let fields = texts >>= crc_field s in
    let passed : (fields >>= footer_room s) ≡ value offset = ground arith in
    footer_room-le s 10 fields
      (bind-AtLeast 10 texts (crc_field s)
        (bind-AtLeast 10 names (text_field 0x10 s)
          (bind-AtLeast 10 (extra_field s 10) (text_field 0x08 s)
            (extra_field-AtLeast s 10 10 (omega arith)) (text_field-AtLeast 0x08 s 10))
          (text_field-AtLeast 0x10 s 10))
        (crc_field-AtLeast s 10))
      passed
