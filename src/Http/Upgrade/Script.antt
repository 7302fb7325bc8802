-- ===== src/Http/Upgrade/Script.antt =====
-- The file of the script that an HTTP request runs.
use uce.Base.{
  Bool, true, false, [], ◌++◌, ◌≡◌, ◌⊎◌, inl, inr, refl, ap, sym, ◌∙◌, ◌||◌, not, Bytes, equal,
  equal_refl, codes, Bool-cases, if◌then◌else◌, some,
}
use uce.Base.Maps.{value_at, insert, lookup, lookup-insert, StringMap, or_empty}
use uce.Fastcgi.Request.{Request}
use uce.Http.Upgrade.{Paths, script_found, strip_leading_slashes}
use uce.Paths.{path_join, path_is_within}
use uce.Paths.Within.{path_is_within-split}
use uce.Text.Split.{split}

value_at-insert : (k v : Bytes) (m : StringMap) → value_at k (insert k v m) ≡ v
unfolding value_at
value_at-insert k v m = ap or_empty (lookup-insert k k v m ∙ same)
  where
    same : (if equal k k then some v else lookup k m) ≡ some v
    same = rw (equal_refl k) refl

none_of_three : (a b c : Bool) → (a || b || not c) ≡ false → c ≡ true
none_of_three a b true h = refl
none_of_three true b false h = sym h
none_of_three false true false h = sym h
none_of_three false false false h = sym h

abbrev candidate : Paths → Request → Bytes
candidate paths r =
    path_join paths.http_script_root
      (strip_leading_slashes (value_at (codes "DOCUMENT_URI") r.params))

abbrev refused : Paths → Request → Bool
refused paths r =
    equal (paths.path_real paths.http_script_root) []
    || equal (paths.path_real (candidate paths r)) []
    || not (path_is_within paths.path_real (candidate paths r) paths.http_script_root)

not_refused :
    (paths : Paths) (r : Request) → (script_found paths r).0 ≡ true → refused paths r ≡ false
unfolding script_found
not_refused paths r h = elim (Bool-cases (refused paths r)) [ inr e ↦ e | inl e ↦ cc (rw e at h) ]

script_filename :
    (paths : Paths) (r : Request)
    → refused paths r ≡ false
    → value_at (codes "SCRIPT_FILENAME") (script_found paths r).1.params
      ≡ paths.path_real (candidate paths r)
unfolding script_found
script_filename paths r e =
    rw (script_found, e)
      (value_at-insert (codes "SCRIPT_FILENAME") (paths.path_real (candidate paths r)) _)

-- A script that was found is the root of the scripts, or its segments are those of the root, a last slash
-- aside, and then others, both resolved by `realpath`; whatever path the request asked for.
pub script_found_lem :
    (paths : Paths) (r : Request)
    → (script_found paths r).0 ≡ true
    → (value_at (codes "SCRIPT_FILENAME") (script_found paths r).1.params
        ≡ paths.path_real paths.http_script_root)
      ⊎ ((base : Bytes) × (rest : Bytes) × ((paths.path_real paths.http_script_root ≡ base)
            ⊎ (paths.path_real paths.http_script_root ≡ base ++ codes "/"))
          × (split (value_at (codes "SCRIPT_FILENAME") (script_found paths r).1.params) (codes "/")
              ≡ split base (codes "/") ++ split rest (codes "/")))
script_found_lem paths r h =
    let e = not_refused paths r h in
    rw (script_filename paths r e) (
      path_is_within-split paths.path_real (candidate paths r) paths.http_script_root (
        none_of_three (equal (paths.path_real paths.http_script_root) [])
          (equal (paths.path_real (candidate paths r)) []) _ e))
