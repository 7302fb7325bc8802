-- ===== src/Session/Files.antt =====
-- Sessions of src/lib/uri.cpp: what is saved is loaded, and only session files are touched.
use uce.Base.{
  ◌≤◌, Bool, true, false, [], ◌∷◌, ◌++◌, ◌≡◌, ◌≢◌, ap, ◌⊎◌, inl, inr, Bytes, length, equal,
  equal_iff, equal_refl, equal-append_cons, All, arith, Bool-cases,
}
use uce.Base.Chars.{is_xdigit}
use uce.Base.Maps.{StringMap, lookup-insert, IsSorted}
use uce.Session.{
  id_bytes, is_valid_session_id, session_file_path, Store, session_load_serialized,
  load_session_data, save_session_data,
}
use uce.Uri.Query.RoundTrip.{IsBytesMap, parse_query-encode_query}
use uce.Uri.Query.{parse_query, encode_query}

-- Hexadecimal digits, from 16 to 128 of them.
pub IsSessionId : Bytes → Type 0
IsSessionId s = (16 ≤ length s) × (length s ≤ 128) × All (λ c. is_xdigit c ≡ true) s

id_bytes-All : (s : Bytes) → id_bytes s ≡ true → All (λ c. is_xdigit c ≡ true) s
unfolding id_bytes
id_bytes-All [] h = tt
id_bytes-All (c ∷ s) h = ground (arith, id_bytes-All s)

-- A session's path is empty, or that of the session directory with a slash and the identifier, which
-- is 16 to 128 hexadecimal digits; so no identifier leads out of the directory.
pub session_file_path-IsSessionId :
    (root session_id : Bytes)
    → (session_file_path root session_id ≡ [])
      ⊎ ((session_file_path root session_id ≡ root ++ (b'/' ∷ session_id)) × IsSessionId session_id)
unfolding session_file_path is_valid_session_id IsSessionId
session_file_path-IsSessionId root s = elim (Bool-cases (is_valid_session_id s)) [
  | inr e ↦ inl (rw e)
  | inl e ↦ inr (rw e, (ground arith, ground arith, id_bytes-All s (ground arith)))
]

module _ (hash : Bytes → Bytes) (write : Bytes → Bool) (root : Bytes) where
  parse_query-encoded :
      (m : StringMap) → IsBytesMap m → IsSorted m → parse_query (encode_query m) ≡ m
  unfolding parse_query
  parse_query-encoded m b s = ap (λ p. p.result) (parse_query-encode_query m b s)

  -- With a valid identifier, a file that can be written, and a hash that differs from the one loaded,
  -- a session of byte strings that is saved is loaded again, whatever the files held before.
  pub load_session_data-save_session_data :
      (store : Store) (session_id : Bytes) (m : StringMap)
      → IsBytesMap m
      → IsSorted m
      → is_valid_session_id session_id ≡ true
      → write (root ++ (b'/' ∷ session_id)) ≡ true
      → hash (encode_query m) ≢ store.session_loaded_hash
      → load_session_data root (save_session_data hash write root store session_id m) session_id ≡ m
  unfolding load_session_data save_session_data session_load_serialized session_file_path
  load_session_data-save_session_data store s m b sorted valid writable differs =
      let changed : equal (hash (encode_query m)) store.session_loaded_hash ≡ false =
        ground (arith, equal_iff (hash (encode_query m)) store.session_loaded_hash) in
      rw
        (
          valid,
          equal-append_cons root b'/' s,
          changed,
          writable,
          lookup-insert (root ++ (b'/' ∷ s)) (root ++ (b'/' ∷ s)) (encode_query m) store.files,
          equal_refl (root ++ (b'/' ∷ s)),
        )
        (parse_query-encoded m b sorted)
