-- ===== src/Memcache/Reply.antt =====
-- The replies of a server to a request for values.
use uce.Base.{
  ℕ, zero, suc, ◌+◌, ◌≤◌, false, List, [], ◌∷◌, ◌++◌, ◌≡◌, inl, refl, ap, ap₂, ◌∙◌, Option, some,
  Bytes, length, take, drop, find, starts, equal, arith, codes, All, Lacks, find_byte_none→Lacks,
  ltb, take-length_append, length-append,
}
use uce.Base.Maps.{StringMap, insert}
use uce.Fastcgi.Response.{digits}
use uce.Memcache.{
  memcache_command, memcache_escape_key, memcache_escape_keys, value_head, sized_value,
  memcache_get, get_multiple_loop, memcache_get_multiple,
}
use uce.Memcache.Line.{nibble_crlf, drop_line, figures_lack, digits-All}
use uce.Text.Nibble.{nibble, nibble_at}
use uce.Text.Split.{join}

-- A server's reply for stored values: a line with the key, flags and the length for each, and the value.
unfoldable pub reply : List (Bytes × Bytes) → Bytes
reply [] = codes "END\r\n"
reply ((key, value) ∷ items) =
    codes "VALUE "
    ++ (key
        ++ (codes " 0 "
            ++ (digits 20 (length value)
                ++ (codes "\r\n" ++ (value ++ (codes "\r\n" ++ reply items))))))

unfoldable pub stored : List (Bytes × Bytes) → StringMap → StringMap
stored [] result = result
stored ((key, value) ∷ items) result = stored items (insert key value result)

not_less : (a b : ℕ) → b ≤ a → ltb a b ≡ false
not_less a b h = ground arith

module _ (exchange : Bytes → Bytes) (stoi : Bytes → Option ℕ) where
  -- A key has no space, and `stoi` reads the length of the value.
  abbrev pub IsItem : Bytes × Bytes → Type 0
  IsItem (key, value) = Lacks 32 key × (stoi (digits 20 (length value)) ≡ some (length value))

  value_head-reply :
      (key value more : Bytes)
      → IsItem (key, value)
      → value_head exchange stoi (
          key
          ++ (codes " 0 "
              ++ (digits 20 (length value) ++ (codes "\r\n" ++ (value ++ (codes "\r\n" ++ more))))))
        ≡ some (key, (length value, value ++ (codes "\r\n" ++ more)))
  unfolding value_head sized_value find starts
  value_head-reply key value more (l, number) =
      let size : Bytes = digits 20 (length value) in
      let text : Bytes = value ++ (codes "\r\n" ++ more) in
      let lack = figures_lack 13 size (digits-All 20 (length value)) (inl (omega arith)) in
      ap (λ a. sized_value stoi a.0 (nibble (codes "\r\n") (nibble (codes " ") a.1).1))
        (nibble_at 32 key (codes "0 " ++ (size ++ (codes "\r\n" ++ text))) l)
      ∙ ap (λ b. sized_value stoi key (nibble (codes "\r\n") b.1))
          (nibble_at 32 (codes "0") (size ++ (codes "\r\n" ++ text))
            (find_byte_none→Lacks 32 (codes "0") refl))
      ∙ ap (sized_value stoi key) (nibble_crlf size text lack)
      ∙ rw (sized_value, number) refl

  value_word : (text : Bytes) → nibble (codes " ") (codes "VALUE " ++ text) ≡ (codes "VALUE", text)
  unfolding find starts
  value_word text = nibble_at 32 (codes "VALUE") text (find_byte_none→Lacks 32 (codes "VALUE") refl)

  end_word : nibble (codes " ") (codes "END\r\n") ≡ (codes "END\r\n", [])
  unfolding nibble find starts
  end_word = refl

  -- The loop, by its first word.
  loop_value :
      (fuel : ℕ) (text key r : Bytes) (n : ℕ) (result : StringMap)
      → value_head exchange stoi text ≡ some (key, (n, r))
      → ltb (length r) (n + 2) ≡ false
      → get_multiple_loop exchange stoi (suc fuel) (codes "VALUE " ++ text) result
        ≡ get_multiple_loop exchange stoi fuel (drop (n + 2) r) (insert key (take n r) result)
  unfolding get_multiple_loop equal
  loop_value fuel text key r n result h k = rw (get_multiple_loop, value_word text, h, k) refl

  loop_end :
      (fuel : ℕ) (result : StringMap)
      → get_multiple_loop exchange stoi (suc fuel) (codes "END\r\n") result ≡ some result
  unfolding get_multiple_loop equal nibble find starts
  loop_end fuel result = refl

  loop-reply :
      (items : List (Bytes × Bytes)) (fuel : ℕ) (result : StringMap)
      → length (reply items) ≤ fuel
      → All IsItem items
      → get_multiple_loop exchange stoi fuel (reply items) result ≡ some (stored items result)
  unfolding reply stored
  loop-reply [] zero result h a = absurd (omega arith)
  loop-reply ((key, value) ∷ items) zero result h a = absurd (omega arith)
  loop-reply [] (suc fuel) result h a = loop_end fuel result
  loop-reply ((key, value) ∷ items) (suc fuel) result h (i, a) =
      let size : Bytes = digits 20 (length value) in
      let r : Bytes = value ++ (codes "\r\n" ++ reply items) in
      let r_length = length-append value (codes "\r\n" ++ reply items) in
      let s1 = length-append size (codes "\r\n" ++ r) in
      let s2 = length-append key (codes " 0 " ++ (size ++ (codes "\r\n" ++ r))) in
      loop_value fuel (key ++ (codes " 0 " ++ (size ++ (codes "\r\n" ++ r)))) key r (length value)
        result (value_head-reply key value (reply items) i)
        (not_less (length r) (length value + 2) (omega arith))
      ∙ ap₂ (λ x y. get_multiple_loop exchange stoi fuel x (insert key y result))
          (drop_line value (reply items)) (take-length_append value (codes "\r\n" ++ reply items))
      ∙ loop-reply items fuel (insert key value result) (omega arith) a

  -- The values that a server sends for some keys are all in the result, each under the key it was sent
  -- with, if no key has a space and their lengths are read back; the loop ends.
  pub memcache_get_multiple-reply :
      (keys : List Bytes) (items : List (Bytes × Bytes))
      → memcache_command exchange (codes "get " ++ join (memcache_escape_keys keys) (codes " "))
        ≡ reply items
      → All IsItem items
      → memcache_get_multiple exchange stoi keys ≡ some (stored items [])
  unfolding memcache_get_multiple
  memcache_get_multiple-reply keys items h a =
      ap (λ res. get_multiple_loop exchange stoi (length res) res []) h
      ∙ loop-reply items (length (reply items)) [] (omega arith) a

  -- The value that a server sends for a key is the result, whatever bytes it has.
  pub memcache_get-reply :
      (key default_value value : Bytes)
      → memcache_command exchange (codes "get " ++ memcache_escape_key key)
        ≡ reply ((memcache_escape_key key, value) ∷ [])
      → IsItem (memcache_escape_key key, value)
      → memcache_get exchange stoi key default_value ≡ some value
  unfolding memcache_get reply equal
  memcache_get-reply key default_value value h i =
      rw
        (
          memcache_get,
          h,
          value_word _,
          value_head-reply (memcache_escape_key key) value (codes "END\r\n") i,
        )
        (ap some (take-length_append value _))
