-- ===== src/Tests/Session.antt =====
-- Sessions at concrete inputs, with the length of a text as its hash.
use uce.Base.{ℕ, true, [], ◌∷◌, ◌++◌, ◌≡◌, ◌⊎◌, refl, Bytes, codes, arith}
use uce.Base.Chars.{is_xdigit}
use uce.Base.Maps.{StringMap}
use uce.Session.Files.{
  IsSessionId, session_file_path-IsSessionId, load_session_data-save_session_data,
}
use uce.Session.{
  id_bytes, is_valid_session_id, session_file_path, Store, load_session_data, save_session_data,
}
use uce.Uri.Query.{encode_query}

abbrev visitor : Bytes
visitor = codes "0123456789abcdef"

abbrev entries : StringMap
entries = (codes "user", codes "ann") ∷ []

abbrev no_files : Store
no_files = record { files = []; session_loaded_hash = [] }

abbrev marked : Bytes → Bytes
marked s = 1 ∷ s

session_file_path-IsSessionId_example :
    (session_file_path (codes "/tmp") visitor ≡ [])
    ⊎ ((session_file_path (codes "/tmp") visitor ≡ codes "/tmp" ++ (b'/' ∷ visitor))
        × IsSessionId visitor)
session_file_path-IsSessionId_example = session_file_path-IsSessionId (codes "/tmp") visitor

visitor_valid : is_valid_session_id visitor ≡ true
unfolding is_valid_session_id id_bytes is_xdigit
visitor_valid = refl

cons_ne : (c : ℕ) (s : Bytes) → c ∷ s ≡ [] → ⊥
cons_ne c s e = cc

load_session_data-save_session_data_example :
    load_session_data
      (codes "/tmp")
      (save_session_data marked (λ path. true) (codes "/tmp") no_files visitor entries)
      visitor
    ≡ entries
load_session_data-save_session_data_example =
    load_session_data-save_session_data marked (λ path. true) (codes "/tmp") no_files visitor
      entries (omega arith) (tt, tt) visitor_valid refl (cons_ne 1 (encode_query entries))
