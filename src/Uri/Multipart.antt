-- ===== src/Uri/Multipart.antt =====
-- `parse_multipart` of src/lib/uri.cpp. A position of the text is the text from there on.
pub mod Alternate
use uce.Base.{
  ℕ, zero, suc, ◌+◌, ◌-◌, Bool, true, false, not, ◌&&◌, ◌||◌, List, [], ◌∷◌, ◌++◌, Option, none,
  some, Bytes, length, take, drop, equal, find, leb, ◌==◌, if◌then◌else◌, codes,
}
use uce.Base.Chars.{to_lower}
use uce.Base.Maps.{StringMap, insert}
use uce.Text.Nibble.{nibble}
use uce.Text.Split.{split}
use uce.Text.Trim.{trim}

pub record UploadedFile : Type 0 where
  pub tmp_name : Bytes
  pub file_name : Bytes
  pub size : ℕ

-- The last two bytes are the given ones.
unfoldable pub ends_with_two : ℕ → ℕ → Bytes → Bool
ends_with_two a b s = leb 2 (length s) && equal (drop (length s - 2) s) (a ∷ b ∷ [])

unfoldable pub trim_wrapping_quotes : Bytes → Bytes
trim_wrapping_quotes raw =
    if leb 2 (length raw)
      && equal (take 1 raw) (34 ∷ [])
      && equal (drop (length raw - 1) raw) (34 ∷ [])
    then take (length raw - 2) (drop 1 raw)
    else raw

-- What the header of a part says of it.
pub record Disposition : Type 0 where
  pub disposition_type : Bytes
  pub field_name : Bytes
  pub file_name : Bytes

abbrev pub no_disposition : Disposition
no_disposition = record { disposition_type = []; field_name = []; file_name = [] }

-- The parts of the line behind the first.
unfoldable pub disposition_parts : List Bytes → Disposition → Disposition
disposition_parts [] d = d
disposition_parts (raw ∷ parts) d =
    let (k, v) = nibble (codes "=") (trim raw) in
    let key = to_lower (trim k) in
    let value = trim_wrapping_quotes (trim v) in
    disposition_parts parts (
      if equal key (codes "name")
      then record d { field_name = value }
      else if equal key (codes "filename")
      then record d { file_name = value }
      else d)

unfoldable pub disposition_line : List Bytes → Disposition → Disposition
disposition_line [] d = d
disposition_line (first ∷ parts) d =
    disposition_parts parts (record d { disposition_type = to_lower (trim first) })

unfoldable pub parse_multipart_content_disposition : Bytes → Disposition → Disposition
parse_multipart_content_disposition raw d = disposition_line (split raw (codes ";")) d

unfoldable pub header_lines : List Bytes → Disposition → Disposition
header_lines [] d = d
header_lines (header_line ∷ l) d =
    let (name, value) = nibble (codes ":") header_line in
    header_lines l (
      if equal (to_lower (trim name)) (codes "content-disposition")
      then parse_multipart_content_disposition (trim value) d
      else d)

unfoldable pub part_header : Bytes → Disposition
part_header header_block = header_lines (split header_block (codes "\r\n")) no_disposition

-- The fields, the files, and the contents written so far.
pub record Form : Type 0 where
  pub result : StringMap
  pub uploaded_files : List UploadedFile
  pub contents : List (Bytes × Bytes)

abbrev pub no_form : Form
no_form = record { result = []; uploaded_files = []; contents = [] }

-- Without the line break in front of the boundary.
unfoldable pub part_body : Bytes → Bytes
part_body body = if ends_with_two 13 10 body then take (length body - 2) body else body

-- The header of a part, its body up to the boundary, and what is behind that; nothing where the loop is
-- left.
unfoldable pub part_end : Bytes → Bytes → Bytes → Option (Bytes × (Bytes × Bytes))
part_end boundary header_block after = elim (find boundary after) [
  | none ↦ none
  | some end_pos ↦ some (header_block, (take end_pos after, drop (end_pos + length boundary) after))
]

unfoldable pub part_block : Bytes → Bytes → Option (Bytes × (Bytes × Bytes))
part_block boundary s = elim (find (codes "\r\n\r\n") s) [
  | none ↦ none
  | some header_end ↦ part_end boundary (take header_end s) (drop (header_end + 4) s)
]

unfoldable pub part_start : Bytes → Bytes → Option (Bytes × (Bytes × Bytes))
part_start boundary s =
    if equal (take 2 s) (codes "--")
    then none
    else part_block boundary (if equal (take 2 s) (codes "\r\n") then drop 2 s else s)

unfoldable pub next_part : Bytes → Bytes → Option (Bytes × (Bytes × Bytes))
next_part boundary q = elim (find boundary q) [
  | none ↦ none
  | some start_pos ↦ part_start boundary (drop (start_pos + length boundary) q)
]

-- `tmp_name` is what `make_upload_tmp_name()` gives for the next file.
module _ (tmp_name : List UploadedFile → Bytes) where
  unfoldable pub add_part : Disposition → Bytes → Form → Form
  add_part d body form =
      if equal d.field_name []
      then form
      else if (equal d.disposition_type (codes "form-data")
            || equal d.disposition_type (codes "attachment"))
          && not (equal d.file_name [])
      then (let name = tmp_name form.uploaded_files in
          record {
            result = insert d.field_name d.file_name form.result;
            uploaded_files =
                form.uploaded_files
                ++ record { tmp_name = name; file_name = d.file_name; size = length body } ∷ [];
            contents = form.contents ++ (name, body) ∷ [];
          })
      else record form { result = insert d.field_name body form.result }

  -- Every round but the last takes the boundary, which is not empty.
  unfoldable pub multipart_loop : ℕ → Bytes → Bytes → Form → Form
  multipart_loop zero boundary q form = form
  multipart_loop (suc fuel) boundary q form = elim (next_part boundary q) [
    | none ↦ form
    | some (header_block, (body, rest)) ↦
        multipart_loop fuel boundary rest
          (add_part (part_header header_block) (part_body body) form)
  ]

  unfoldable pub parse_multipart : Bytes → Bytes → Form
  parse_multipart q boundary =
      if equal boundary [] then no_form else multipart_loop (length q) boundary q no_form
