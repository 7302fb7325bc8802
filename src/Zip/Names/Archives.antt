-- ===== src/Zip/Names/Archives.antt =====
-- What `zip_create` has given to the miniz library when it returns.
use uce.Base.{
  ℕ, ◌+◌, ◌≤◌, Bool, true, false, not, ◌&&◌, List, [], ◌∷◌, ◌++◌, ◌≡◌, ◌⊎◌, inl, inr, refl, ap, ◌∙◌,
  Option, none, some, Bytes, length, ltb, if◌then◌else◌, codes, All, All-append, arith, Bool-cases,
  length-append,
}
use uce.Gzip.{Result, thrown, value, archive_check_size}
use uce.Tree.{DTree, each}
use uce.Zip.Names.{
  IsName, zip_normalize_entry_name_lem, zip_entry_name_safe-IsName, zip_entry_name_safe_total,
}
use uce.Zip.{
  Archive, zip_entry_content, zip_entry_name, add_named, zip_add_entry, add_entries, zip_create,
  zip_error,
}

-- A limit of 0 is none.
abbrev pub IsWithin : ℕ → ℕ → Type 0
IsWithin limit n = (limit ≡ 0) ⊎ (n ≤ limit)

abbrev pub IsEntry : ℕ → Bytes × Bytes → Type 0
IsEntry input_limit (name, content) = IsName name × IsWithin input_limit (length content)

-- The run ends, with an exception or with so many entries as are allowed, each of them allowed.
unfoldable pub IsOutcome : ℕ → ℕ → Option (Result Archive) → Type 0
IsOutcome input_limit count none = ⊥
IsOutcome input_limit count (some (thrown text)) = Unit
IsOutcome input_limit count (some (value archive)) =
    All (IsEntry input_limit) archive × IsWithin count (length archive)

-- An entry is added at the end, or there is an exception.
unfoldable pub IsStep : ℕ → Archive → Option (Result Archive) → Type 0
IsStep input_limit archive none = ⊥
IsStep input_limit archive (some (thrown text)) = Unit
IsStep input_limit archive (some (value more)) =
    (e : Bytes × Bytes) × (more ≡ archive ++ e ∷ []) × IsEntry input_limit e

IsWithin-limit : (size limit : ℕ) → (ltb 0 limit && ltb limit size) ≡ false → IsWithin limit size
IsWithin-limit size limit h = ground arith

module _ (input_limit entries_limit : ℕ) (number_text : ℕ → Bytes)
    (file_get_contents : Bytes → Bytes) (add_mem : Archive → Bytes → Bytes → Bool) where
  add_named-IsStep :
      (archive : Archive) (name content : Bytes) (safe : Bool)
      → (safe ≡ true → IsEntry input_limit (name, content))
      → IsStep input_limit archive (
          some (
            add_named input_limit entries_limit number_text file_get_contents add_mem archive name
              content safe))
  unfolding add_named IsStep
  add_named-IsStep archive name content false h = tt
  add_named-IsStep archive name content true h = elim (Bool-cases (add_mem archive name content)) [
    | inl e ↦ rw (add_named, e) ((name, content), refl, h refl)
    | inr e ↦ rw (add_named, e) tt
  ]

  zip_add_entry-IsStep :
      (archive : Archive) (name content : Bytes)
      → IsStep input_limit archive (
          zip_add_entry input_limit entries_limit number_text file_get_contents add_mem archive name
            content)
  unfolding zip_add_entry IsStep archive_check_size
  zip_add_entry-IsStep archive name content =
      elim (Bool-cases (ltb 0 input_limit && ltb input_limit (length content))) [
        | inl e ↦ rw (IsStep, zip_add_entry, archive_check_size, e) tt
        | inr e ↦
            let (n, p, q, r) = zip_normalize_entry_name_lem name in
            rw (IsStep, zip_add_entry, archive_check_size, e, p, zip_entry_name_safe_total n)
              (add_named-IsStep archive n content _ (λ safe. (
                zip_entry_name_safe-IsName n (zip_entry_name_safe_total n ∙ ap some safe) q r,
                IsWithin-limit (length content) input_limit e,
              )))
      ]

  -- One round of the loop, if the rest of it is right.
  round-IsOutcome :
      (archive : Archive) (o : Option (Result Archive)) (later : Archive → Option (Result Archive))
      → IsStep input_limit archive o
      → ((e : Bytes × Bytes)
          → IsEntry input_limit e
          → IsOutcome input_limit entries_limit (later (archive ++ e ∷ [])))
      → IsOutcome input_limit entries_limit (elim o [
        | none ↦ none
        | some (thrown text) ↦ some (thrown text)
        | some (value more) ↦ later more
      ])
  unfolding IsStep IsOutcome
  round-IsOutcome archive none later w h = w
  round-IsOutcome archive (some (thrown text)) later w h = tt
  round-IsOutcome archive (some (value more)) later (e, p, w) h = rw (p) (h e w)

  add_entries-IsOutcome :
      (entry_count : ℕ) (m : List (Bytes × DTree)) (archive : Archive)
      → All (IsEntry input_limit) archive
      → length archive ≡ entry_count
      → IsWithin entries_limit entry_count
      → IsOutcome input_limit entries_limit (
          add_entries input_limit entries_limit number_text file_get_contents add_mem entry_count m
            archive)
  unfolding add_entries IsOutcome archive_check_size
  add_entries-IsOutcome entry_count [] archive a p w = (a, rw (p) w)
  add_entries-IsOutcome entry_count ((k, item) ∷ m) archive a p w =
      elim (Bool-cases (ltb 0 entries_limit && ltb entries_limit (entry_count + 1))) [
        | inl e ↦ rw (IsOutcome, add_entries, archive_check_size, e) tt
        | inr e ↦
            rw (IsOutcome, add_entries, archive_check_size, e)
              (round-IsOutcome archive _ _
                (zip_add_entry-IsStep archive
                  (zip_entry_name input_limit entries_limit number_text file_get_contents add_mem k
                    item)
                  (zip_entry_content input_limit entries_limit number_text file_get_contents add_mem
                    item))
                (λ x wx.
                  add_entries-IsOutcome (entry_count + 1) m (archive ++ x ∷ [])
                    (All-append (IsEntry input_limit) archive (x ∷ []) a (wx, tt))
                    (length-append archive (x ∷ []) ∙ ap (λ n. n + 1) p)
                    (IsWithin-limit (entry_count + 1) entries_limit e)))
      ]

  finalized-IsOutcome :
      (finalize : Archive → Bool) (zip_file_name : Bytes) (o : Option (Result Archive))
      → IsOutcome input_limit entries_limit o
      → IsOutcome input_limit entries_limit (elim o [
        | none ↦ none
        | some (thrown text) ↦ some (thrown text)
        | some (value archive) ↦
            if not (finalize archive)
            then some (
                thrown
                  (zip_error (codes "zip_create") (codes "could not finalize " ++ zip_file_name)))
            else some (value archive)
      ])
  unfolding IsOutcome
  finalized-IsOutcome finalize zip_file_name none w = w
  finalized-IsOutcome finalize zip_file_name (some (thrown text)) w = tt
  finalized-IsOutcome finalize zip_file_name (some (value archive)) w =
      elim (Bool-cases (finalize archive)) [ inl e ↦ rw e w | inr e ↦ rw e tt ]

  -- `zip_create` ends, whatever the names: with an exception, or with an archive of no more entries than
  -- the limit, unless it is 0. The name of each of them is a relative path without `..`, double slashes, backslashes,
  -- colons and control characters, and its content is within the limit for it.
  pub zip_create-IsOutcome :
      (ensured opened : Bool) (finalize : Archive → Bool) (zip_file_name : Bytes) (entries : DTree)
      → IsOutcome input_limit entries_limit (
          zip_create input_limit entries_limit number_text file_get_contents add_mem ensured opened
            finalize zip_file_name entries)
  unfolding zip_create
  zip_create-IsOutcome false opened finalize zip_file_name entries = unfold IsOutcome in tt
  zip_create-IsOutcome true false finalize zip_file_name entries = unfold IsOutcome in tt
  zip_create-IsOutcome true true finalize zip_file_name entries =
      finalized-IsOutcome finalize zip_file_name _
        (add_entries-IsOutcome 0 (each entries) [] tt refl (inr (omega arith)))
