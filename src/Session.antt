-- ===== src/Session.antt =====
-- Sessions of src/lib/uri.cpp: the test of an identifier, the file of a session, and what is read from
-- and written to it. The directory of sessions is a store of files by their names; the hash is a
-- parameter.
pub mod Files
use uce.Base.{
  ℕ, Bool, true, false, List, [], ◌∷◌, ◌++◌, ◌||◌, not, Option, none, some, Bytes, length, ltb,
  equal, if◌then◌else◌,
}
use uce.Base.Chars.{is_xdigit}
use uce.Base.Maps.{StringMap, lookup, insert, or_empty}
use uce.Uri.Query.{parse_query, encode_query}

unfoldable pub id_bytes : Bytes → Bool
id_bytes [] = true
id_bytes (c ∷ session_id) = if not (is_xdigit c) then false else id_bytes session_id

unfoldable pub is_valid_session_id : Bytes → Bool
is_valid_session_id session_id =
    if ltb (length session_id) 16 || ltb 128 (length session_id) then false else id_bytes session_id

-- `root` is the configured SESSION_PATH.
unfoldable pub session_file_path : Bytes → Bytes → Bytes
session_file_path root session_id =
    if not (is_valid_session_id session_id) then [] else root ++ (b'/' ∷ session_id)

-- The files, and `context->session_loaded_hash`.
pub record Store : Type 0 where
  pub files : StringMap
  pub session_loaded_hash : Bytes

unfoldable pub session_load_serialized : Store → Bytes → Bytes
session_load_serialized store session_path =
    if equal session_path [] then [] else or_empty (lookup session_path store.files)

unfoldable pub load_session_data : Bytes → Store → Bytes → StringMap
load_session_data root store session_id =
    let session_path = session_file_path root session_id in
    if equal session_path [] then [] else parse_query (session_load_serialized store session_path)

-- `hash` is `gen_sha1`; `write` tells whether a file can be written.
unfoldable pub save_session_data :
    (Bytes → Bytes) → (Bytes → Bool) → Bytes → Store → Bytes → StringMap → Store
save_session_data hash write root store session_id entries =
    let session_path = session_file_path root session_id in
    let encoded = encode_query entries in
    let encoded_hash = hash encoded in
    if equal session_path []
    then store
    else if equal encoded_hash store.session_loaded_hash
    then store
    else if not (write session_path)
    then store
    else record {
      files = insert session_path encoded store.files;
      session_loaded_hash = encoded_hash;
    }
