-- ===== src/Tests/Form.antt =====
-- A form of two fields, of which the second is passed over, and the cookies of a request.
use uce.Base.{
  find_byte_none→Lacks, ℕ, List, [], ◌∷◌, ◌≡◌, ◌≢◌, refl, none, Bytes, equal, find, starts, codes,
}
use uce.Base.Chars.{is_space, to_lower, lower}
use uce.Text.Nibble.{nibble}
use uce.Text.Split.{split}
use uce.Text.Trim.{trim, front, back}
use uce.Uri.Cookies.{cookie_text, cookie_map, IsCookie, parse_cookies, parse_cookies-cookie_text}
use uce.Uri.Multipart.{
  UploadedFile, no_form, parse_multipart, part_header, header_lines, disposition_line,
  disposition_parts, parse_multipart_content_disposition, trim_wrapping_quotes,
}
use uce.Uri.Multipart.Alternate.{
  form_text, part_text, every_other, added, IsPart, parse_multipart-form_text,
}

abbrev fields : List (Bytes × Bytes)
fields =
    (codes "Content-Disposition: form-data; name=\"a\"", codes "1")
    ∷ (codes "Content-Disposition: form-data; name=\"b\"", codes "2")
    ∷ []

abbrev boundary : Bytes
boundary = codes "--x9"

abbrev upload : List UploadedFile → Bytes
upload files = codes "/tmp/upload"

first-IsPart : IsPart boundary (codes "Content-Disposition: form-data; name=\"a\"", codes "1")
unfolding find starts part_text
first-IsPart = ((λ r. refl), (λ r. refl), (λ r. refl))

second-IsPart : IsPart boundary (codes "Content-Disposition: form-data; name=\"b\"", codes "2")
unfolding find starts part_text
second-IsPart = ((λ r. refl), (λ r. refl), (λ r. refl))

no_dashes : find boundary (codes "--\r\n") ≡ none
unfolding find starts
no_dashes = refl

boundary_ne : (c : ℕ) (s : Bytes) → c ∷ s ≢ []
boundary_ne c s e = cc e

parse_multipart-form_text_example :
    parse_multipart upload (form_text boundary fields) boundary
    ≡ added upload boundary (every_other fields) no_form
parse_multipart-form_text_example =
    parse_multipart-form_text upload boundary fields (boundary_ne b'-' (codes "-x9")) no_dashes
      (first-IsPart, (second-IsPart, tt))

-- The header of the first part.
first_header :
    part_header (codes "Content-Disposition: form-data; name=\"a\"")
    ≡ record { disposition_type = codes "form-data"; field_name = codes "a"; file_name = [] }
unfolding part_header header_lines disposition_line disposition_parts
    parse_multipart_content_disposition trim_wrapping_quotes nibble find starts split trim front
    back equal is_space to_lower lower
first_header = refl

abbrev cookies : List (Bytes × Bytes)
cookies = (codes "user", codes "ann%20b") ∷ (codes "id", codes "7=7") ∷ []

user-IsCookie : IsCookie (codes "user", codes "ann%20b")
unfolding is_space find starts
user-IsCookie = (
  (refl, (refl, (refl, (refl, tt)))),
  find_byte_none→Lacks b'=' (codes "user") refl,
  find_byte_none→Lacks b';' (codes "ann%20b") refl,
)

id-IsCookie : IsCookie (codes "id", codes "7=7")
unfolding is_space find starts
id-IsCookie = (
  (refl, (refl, tt)),
  find_byte_none→Lacks b'=' (codes "id") refl,
  find_byte_none→Lacks b';' (codes "7=7") refl,
)

parse_cookies-cookie_text_example : parse_cookies (cookie_text cookies) ≡ cookie_map cookies []
parse_cookies-cookie_text_example =
    parse_cookies-cookie_text cookies (user-IsCookie, (id-IsCookie, tt))
