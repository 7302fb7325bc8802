-- ===== src/Tests/Files.antt =====
-- Archives, paths, replacements and the memcached client at concrete inputs.
use uce.Base.{
  ℕ, Bool, true, false, List, [], ◌∷◌, ◌++◌, ◌≡◌, ◌⊎◌, ◌≢◌, All, refl, Option, some, Bytes, equal,
  find, starts, codes, Lacks, find_byte_none→Lacks,
}
use uce.Fastcgi.Response.{digits}
use uce.Base.Maps.{value_at}
use uce.Memcache.Line.{Exchanged, set_command_lem}
use uce.Memcache.Reply.{reply, stored, memcache_get_multiple-reply}
use uce.Memcache.{
  memcache_command, memcache_escape_key, set_line, set_command, memcache_get_multiple,
}
use uce.Http.Upgrade.Script.{script_found_lem}
use uce.Http.Upgrade.{Paths, script_found, strip_leading_slashes}
use uce.Fastcgi.Request.{Request, new_request}
use uce.Paths.{path_join, ends_in_slash, starts_with_slash, path_is_within}
use uce.Text.Nibble.{nibble, str_starts_with}
use uce.Text.Split.{split}
use uce.Tree.{DTree, string, map, entry, no_entries}
use uce.Zip.Names.Archives.{IsOutcome, zip_create-IsOutcome}
use uce.Zip.{Archive, zip_create}

abbrev pages : DTree
pages = map false 0 (entry (codes "a\\b.txt") (string (codes "text")) no_entries)

abbrev plain_number : ℕ → Bytes
plain_number n = digits 20 n

abbrev no_content : Bytes → Bytes
no_content file_name = []

abbrev takes_all : Archive → Bytes → Bytes → Bool
takes_all archive name content = true

zip_create-IsOutcome_example : IsOutcome 100 10 (
    zip_create 100 10 plain_number no_content takes_all true true
      (λ archive. true)
      (codes "z.zip")
      pages)
zip_create-IsOutcome_example =
    zip_create-IsOutcome 100 10 plain_number no_content takes_all true true (λ archive. true)
      (codes "z.zip") pages

abbrev unlinked : Bytes → Bytes
unlinked path = path

abbrev site : Paths
site = record { http_script_root = codes "/srv/a"; path_real = unlinked }

abbrev page : Request
page = record new_request { params = (codes "DOCUMENT_URI", codes "/x") ∷ [] }

script_found_lem_example :
    (value_at (codes "SCRIPT_FILENAME") (script_found site page).1.params ≡ codes "/srv/a")
    ⊎ ((base : Bytes) × (rest : Bytes) × ((codes "/srv/a" ≡ base)
          ⊎ (codes "/srv/a" ≡ base ++ codes "/"))
        × (split (value_at (codes "SCRIPT_FILENAME") (script_found site page).1.params) (codes "/")
            ≡ split base (codes "/") ++ split rest (codes "/")))
unfolding script_found path_is_within path_join equal starts_with_slash ends_in_slash
    str_starts_with strip_leading_slashes value_at
script_found_lem_example = script_found_lem site page refl

set_command_lem_example :
    let line = set_line (codes "a\r\nb") 60 4 in
    (set_command (codes "a\r\nb") (codes "text") 60
      ≡ line ++ (codes "\r\n" ++ (codes "text" ++ codes "\r\n")))
    × Lacks 10 line
    × Lacks 13 line
    × (nibble (codes "\r\n") (set_command (codes "a\r\nb") (codes "text") 60)
        ≡ (line, codes "text" ++ codes "\r\n"))
    × (split line (codes " ")
        ≡ codes "set"
          ∷ memcache_escape_key (codes "a\r\nb")
          ∷ codes "0"
          ∷ digits 20 60
          ∷ digits 20 4
          ∷ [])
    × Exchanged (codes "a\r\nb") (memcache_escape_key (codes "a\r\nb"))
    × All (λ word. word ≢ []) (split line (codes " "))
set_command_lem_example = set_command_lem (codes "a\r\nb") (codes "text") 60 (λ e. cc e)

abbrev two_values : List (Bytes × Bytes)
two_values = (codes "a", codes "x y") ∷ (codes "b", codes "\r\n") ∷ []

-- A server that has the two values, and a reader of the numbers 2 and 3.
abbrev answers : Bytes → Bytes
answers command = reply two_values

unfoldable read_number : Bytes → Option ℕ
read_number s = elim (equal s (codes "3")) [ true ↦ some 3 | false ↦ some 2 ]

a-Lacks : Lacks 32 (codes "a")
unfolding find starts
a-Lacks = find_byte_none→Lacks 32 (codes "a") refl

b-Lacks : Lacks 32 (codes "b")
unfolding find starts
b-Lacks = find_byte_none→Lacks 32 (codes "b") refl

memcache_get_multiple-reply_example :
    memcache_get_multiple answers read_number (codes "a" ∷ codes "b" ∷ [])
    ≡ some (stored two_values [])
unfolding read_number digits equal reply memcache_command
memcache_get_multiple-reply_example =
    memcache_get_multiple-reply answers read_number (codes "a" ∷ codes "b" ∷ []) two_values refl
      ((a-Lacks, refl), ((b-Lacks, refl), tt))
