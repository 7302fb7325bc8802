-- ===== src/Zip.antt =====
-- The names of entries and `zip_create` of src/lib/zip.cpp. An archive that is being written is the list
-- of the names and contents given to the miniz library.
pub mod Names
use uce.Base.{
  ℕ, zero, suc, ◌+◌, Bool, true, false, not, ◌||◌, List, [], ◌∷◌, ◌++◌, Option, none, some, Bytes,
  length, equal, find, ltb, ◌==◌, if◌then◌else◌, codes,
}
use uce.Gzip.{Result, thrown, value, archive_check_size}
use uce.Text.Replace.{replace}
use uce.Text.Split.{split}
use uce.Tree.{DTree, key, to_string, each}

unfoldable pub zip_error : Bytes → Bytes → Bytes
zip_error api detail = api ++ (codes "(): " ++ detail)

-- `none` is a loop that is never done.
unfoldable pub single_slashes : ℕ → Bytes → Option Bytes
single_slashes zero name = elim (find (codes "//") name) [ none ↦ some name | some pos ↦ none ]
single_slashes (suc fuel) name = elim (find (codes "//") name) [
  | none ↦ some name
  | some pos ↦ elim (replace name (codes "//") (codes "/")) [
    | none ↦ none
    | some shorter ↦ single_slashes fuel shorter
  ]
]

unfoldable pub zip_normalize_entry_name : Bytes → Option Bytes
zip_normalize_entry_name name = elim (replace name (codes "\\") (codes "/")) [
  | none ↦ none
  | some slashed ↦ single_slashes (length slashed) slashed
]

unfoldable pub has_root : Bytes → Bool
has_root [] = true
has_root (c ∷ name) = c == b'/' || c == 92

unfoldable pub has_control : Bytes → Bool
has_control [] = false
has_control (c ∷ name) = ltb c 0x20 || has_control name

unfoldable pub has_parent : List Bytes → Bool
has_parent [] = false
has_parent (part ∷ parts) = equal part (codes "..") || has_parent parts

unfoldable pub found : Option ℕ → Bool
found none = false
found (some pos) = true

unfoldable pub zip_entry_name_safe : Bytes → Option Bool
zip_entry_name_safe name =
    if has_root name
    then some false
    else if found (find (codes ":") name)
    then some false
    else if has_control name
    then some false
    else elim (replace name (codes "\\") (codes "/")) [
      | none ↦ none
      | some slashed ↦ some (not (has_parent (split slashed (codes "/"))))
    ]

abbrev pub Archive : Type 0
Archive = List (Bytes × Bytes)

-- The limits of the configuration, the text of a number, the content of a file, and whether the library
-- takes an entry.
module _ (input_limit entries_limit : ℕ) (number_text : ℕ → Bytes)
    (file_get_contents : Bytes → Bytes) (add_mem : Archive → Bytes → Bytes → Bool) where
  unfoldable pub zip_entry_content : DTree → Bytes
  zip_entry_content item = elim (key item (codes "content")) [
    | some content ↦ to_string number_text content
    | none ↦ elim (key item (codes "file")) [
      | some file_name ↦ file_get_contents (to_string number_text file_name)
      | none ↦ to_string number_text item
    ]
  ]

  unfoldable pub zip_entry_name : Bytes → DTree → Bytes
  zip_entry_name k item = elim (key item (codes "name")) [
    | some name ↦ to_string number_text name
    | none ↦ k
  ]

  -- With the name normalized, and its test done.
  unfoldable pub add_named : Archive → Bytes → Bytes → Bool → Result Archive
  add_named archive name content safe =
      if not safe
      then thrown (
          zip_error (codes "zip_create")
            (codes "unsafe or empty entry name '" ++ (name ++ codes "'")))
      else if not (add_mem archive name content)
      then thrown (zip_error (codes "zip_create") (codes "could not add entry " ++ name))
      else value (archive ++ (name, content) ∷ [])

  unfoldable pub zip_add_entry : Archive → Bytes → Bytes → Option (Result Archive)
  zip_add_entry archive name content =
      elim (archive_check_size (codes "zip_create") (codes "entry content") (length content)
        input_limit) [
          | thrown text ↦ some (thrown text)
          | value _ ↦ elim (zip_normalize_entry_name name) [
            | none ↦ none
            | some n ↦ elim (zip_entry_name_safe n) [
              | none ↦ none
              | some safe ↦ some (add_named archive n content safe)
            ]
          ]
        ]

  -- The loop over the entries; `entry_count` were counted before.
  unfoldable pub add_entries : ℕ → List (Bytes × DTree) → Archive → Option (Result Archive)
  add_entries entry_count [] archive = some (value archive)
  add_entries entry_count ((k, item) ∷ m) archive =
      let later = add_entries (entry_count + 1) m in
      elim (archive_check_size (codes "zip_create") (codes "entry count") (entry_count + 1)
        entries_limit) [
          | thrown text ↦ some (thrown text)
          | value _ ↦
              elim (zip_add_entry archive (zip_entry_name k item) (zip_entry_content item)) [
                | none ↦ none
                | some (thrown text) ↦ some (thrown text)
                | some (value more) ↦ later more
              ]
        ]

  -- Whether the parent directory is there or can be made, the file can be opened, and the archive
  -- finalized; the archive that was written.
  unfoldable pub zip_create :
      Bool → Bool → (Archive → Bool) → Bytes → DTree → Option (Result Archive)
  zip_create ensured opened finalize zip_file_name entries =
      if not ensured
      then some (
          thrown (
            zip_error (codes "zip_create")
              (codes "could not create parent directory for " ++ zip_file_name)))
      else if not opened
      then some (
          thrown (
            zip_error (codes "zip_create")
              (codes "could not open " ++ (zip_file_name ++ codes " for writing"))))
      else elim (add_entries 0 (each entries) []) [
        | none ↦ none
        | some (thrown text) ↦ some (thrown text)
        | some (value archive) ↦
            if not (finalize archive)
            then some (
                thrown
                  (zip_error (codes "zip_create") (codes "could not finalize " ++ zip_file_name)))
            else some (value archive)
      ]
