-- ===== src/Uri/Multipart/Alternate.antt =====
-- `parse_multipart` on the text of a form, as RFC 7578 writes it.
use uce.Base.{
  ℕ, zero, suc, ◌+◌, ◌-◌, ◌≤◌, true, false, List, [], ◌∷◌, ◌++◌, ◌≡◌, ◌≢◌, refl, ap, ap₂, ◌∙◌, none,
  some, Bytes, length, drop, equal, find, append_assoc, length-append, take-length_append, arith,
  codes, leb, All, equal_refl, starts, starts_append, equal_iff,
}
use uce.Uri.Multipart.{
  UploadedFile, Form, no_form, part_header, part_body, add_part, next_part, part_start, part_block,
  part_end, multipart_loop, parse_multipart, ends_with_two,
}

-- A text between two boundaries: the first one that is found behind it stands there.
abbrev pub IsFree : Bytes → Bytes → Type 0
IsFree boundary s = (r : Bytes) → find boundary (s ++ (boundary ++ r)) ≡ some (length s)

-- A header and a body, each with the line break behind it.
unfoldable pub part_text : Bytes × Bytes → Bytes
part_text (header_block, body) =
    codes "\r\n" ++ (header_block ++ (codes "\r\n\r\n" ++ (body ++ codes "\r\n")))

-- The parts, each behind a boundary, and the last boundary with its two dashes.
unfoldable pub form_text : Bytes → List (Bytes × Bytes) → Bytes
form_text boundary [] = boundary ++ codes "--\r\n"
form_text boundary (p ∷ parts) = boundary ++ (part_text p ++ form_text boundary parts)

-- The header ends where it should, and the boundary stands neither in the part nor in its body.
abbrev pub IsPart : Bytes → Bytes × Bytes → Type 0
IsPart boundary (header_block, body) =
    IsFree (codes "\r\n\r\n") header_block
    × IsFree boundary (body ++ codes "\r\n")
    × IsFree boundary (part_text (header_block, body))

drop_whole : (s r : Bytes) → drop (length s) (s ++ r) ≡ r
drop_whole [] r = refl
drop_whole (c ∷ s) r = drop_whole s r

drop_more : (n : ℕ) (s r : Bytes) → drop (length s + n) (s ++ r) ≡ drop n r
drop_more n [] r = ap (λ i. drop i r) (omega arith)
drop_more n (c ∷ s) r =
    let e : suc (length s) + n ≡ suc (length s + n) = omega arith in
    ap (λ i. drop i (c ∷ (s ++ r))) e ∙ drop_more n s r

module _ (boundary : Bytes) where
  part_end-IsFree :
      (header_block s r : Bytes)
      → IsFree boundary s
      → part_end boundary header_block (s ++ (boundary ++ r)) ≡ some (header_block, (s, r))
  unfolding part_end
  part_end-IsFree h s r f =
      rw (part_end, f r)
        (ap₂ (λ x y. some (h, (x, y))) (take-length_append s (boundary ++ r))
          (drop_more (length boundary) s (boundary ++ r) ∙ drop_whole boundary r))

  part_block-IsFree :
      (h after : Bytes)
      → IsFree (codes "\r\n\r\n") h
      → part_block boundary (h ++ (codes "\r\n\r\n" ++ after)) ≡ part_end boundary h after
  unfolding part_block
  part_block-IsFree h after f =
      rw (part_block, f after)
        (ap₂ (part_end boundary) (take-length_append h (codes "\r\n\r\n" ++ after))
          (drop_more 4 h (codes "\r\n\r\n" ++ after)))

  part_start_lem : (s : Bytes) → part_start boundary (codes "\r\n" ++ s) ≡ part_block boundary s
  unfolding part_start equal
  part_start_lem s = refl

  next_part-IsFree :
      (x s : Bytes)
      → IsFree boundary x
      → next_part boundary (x ++ (boundary ++ s)) ≡ part_start boundary s
  unfolding next_part
  next_part-IsFree x s f =
      rw (next_part, f s)
        (ap (part_start boundary)
          (drop_more (length boundary) x (boundary ++ s) ∙ drop_whole boundary s))

  -- The next part behind a text without the boundary.
  next_part-part_text :
      (x h body r : Bytes)
      → IsFree boundary x
      → IsPart boundary (h, body)
      → next_part boundary (x ++ (boundary ++ (part_text (h, body) ++ (boundary ++ r))))
        ≡ some (h, (body ++ codes "\r\n", r))
  unfolding part_text
  next_part-part_text x h body r fx (fh, fb, fp) =
      let end : Bytes = body ++ codes "\r\n" in
      next_part-IsFree x (part_text (h, body) ++ (boundary ++ r)) fx
      ∙ part_start_lem ((h ++ (codes "\r\n\r\n" ++ end)) ++ (boundary ++ r))
      ∙ ap (part_block boundary) (append_assoc h (codes "\r\n\r\n" ++ end) (boundary ++ r))
      ∙ part_block-IsFree h (end ++ (boundary ++ r)) fh
      ∙ part_end-IsFree h end r fb

differs : (s t : Bytes) → s ≢ t → equal s t ≡ false
differs s t ne = ground (arith, equal_iff s t)

here : (d : Bytes) → d ≢ [] → (r : Bytes) → starts d (d ++ r) ≡ true → find d (d ++ r) ≡ some 0
unfolding find
here [] ne r h = absurd (ne refl)
here (c ∷ d) ne r h = rw (find, h) refl

two_behind : (s : Bytes) → length (s ++ codes "\r\n") ≡ length s + 2
two_behind s = length-append s (codes "\r\n")

part_body_lem : (body : Bytes) → part_body (body ++ codes "\r\n") ≡ body
unfolding part_body ends_with_two
part_body_lem body =
    let n : length (body ++ codes "\r\n") - 2 ≡ length body = omega (arith, two_behind body) in
    let enough : leb 2 (length (body ++ codes "\r\n")) ≡ true =
      leb_two (length (body ++ codes "\r\n")) (omega (arith, two_behind body)) in
    rw
      (
        part_body,
        ends_with_two,
        enough,
        n,
        drop_whole body (codes "\r\n"),
        equal_refl (codes "\r\n"),
      )
      (take-length_append body (codes "\r\n"))
  where
    leb_two : (k : ℕ) → 2 ≤ k → leb 2 k ≡ true
    leb_two k h = ground arith

unfoldable pub every_other : List (Bytes × Bytes) → List (Bytes × Bytes)
every_other [] = []
every_other (p ∷ []) = p ∷ []
every_other (p ∷ q ∷ parts) = p ∷ every_other parts

module _ (tmp_name : List UploadedFile → Bytes) (boundary : Bytes) where
  -- The parts one after the other.
  unfoldable pub added : List (Bytes × Bytes) → Form → Form
  added [] form = form
  added ((header_block, body) ∷ parts) form =
      added parts (add_part tmp_name (part_header header_block) body form)

  loop_done :
      (fuel : ℕ) (q : Bytes) (form : Form)
      → next_part boundary q ≡ none
      → multipart_loop tmp_name fuel boundary q form ≡ form
  unfolding multipart_loop
  loop_done zero q form h = refl
  loop_done (suc fuel) q form h = rw (multipart_loop, h) refl

  loop_part :
      (fuel : ℕ) (q h body rest : Bytes) (form : Form)
      → next_part boundary q ≡ some (h, (body ++ codes "\r\n", rest))
      → multipart_loop tmp_name (suc fuel) boundary q form
        ≡ multipart_loop tmp_name fuel boundary rest (add_part tmp_name (part_header h) body form)
  unfolding multipart_loop
  loop_part fuel q h body rest form e =
      rw (multipart_loop, e)
        (ap
          (λ b.
            multipart_loop tmp_name fuel boundary rest (add_part tmp_name (part_header h) b form))
          (part_body_lem body))

  no_more : find boundary (codes "--\r\n") ≡ none → next_part boundary (codes "--\r\n") ≡ none
  unfolding next_part
  no_more h = rw (next_part, h) refl

  last_boundary :
      (x : Bytes)
      → IsFree boundary x
      → next_part boundary (x ++ (boundary ++ codes "--\r\n")) ≡ none
  unfolding part_start equal
  last_boundary x f = next_part-IsFree boundary x (codes "--\r\n") f

  multipart_loop-every_other :
      (parts : List (Bytes × Bytes)) (fuel : ℕ) (x : Bytes) (form : Form)
      → find boundary (codes "--\r\n") ≡ none
      → All (IsPart boundary) parts
      → IsFree boundary x
      → length parts ≤ fuel
      → multipart_loop tmp_name fuel boundary (x ++ form_text boundary parts) form
        ≡ added (every_other parts) form
  unfolding form_text every_other added
  multipart_loop-every_other [] fuel x form n a f h = loop_done fuel _ form (last_boundary x f)
  multipart_loop-every_other ((hd, body) ∷ []) (suc fuel) x form n (w, a) f h =
      loop_part fuel _ hd body (codes "--\r\n") form
        (next_part-part_text boundary x hd body (codes "--\r\n") f w)
      ∙ loop_done fuel (codes "--\r\n") _ (no_more n)
  multipart_loop-every_other ((hd, body) ∷ q ∷ parts) (suc fuel) x form n (w, (wq, a)) f h =
      loop_part fuel _ hd body (part_text q ++ form_text boundary parts) form
        (next_part-part_text boundary x hd body (part_text q ++ form_text boundary parts) f w)
      ∙ multipart_loop-every_other parts fuel (part_text q) _ n a wq.2 (omega arith)
  multipart_loop-every_other ((hd, body) ∷ parts) zero x form n a f h = absurd (omega arith)

  find_here : boundary ≢ [] → IsFree boundary []
  find_here ne r = here boundary ne r (starts_append boundary r)

  long_enough : (parts : List (Bytes × Bytes)) → length parts ≤ length (form_text boundary parts)
  unfolding form_text part_text
  long_enough [] = omega arith
  long_enough ((hd, body) ∷ parts) =
      let later = long_enough parts in
      let text : Bytes = hd ++ (codes "\r\n\r\n" ++ (body ++ codes "\r\n")) in
      rw
        (
          length-append boundary (part_text (hd, body) ++ form_text boundary parts),
          length-append text (form_text boundary parts),
        )
        (omega arith)

  -- Of the parts of a form, `parse_multipart` takes the first, the third and every other one: the
  -- boundary that ends a part is not looked at again, and so the next part is passed over. The boundary
  -- is not empty, and stands neither in the parts nor in the two dashes at the end; each header ends at its first
  -- empty line.
  pub parse_multipart-form_text :
      (parts : List (Bytes × Bytes))
      → boundary ≢ []
      → find boundary (codes "--\r\n") ≡ none
      → All (IsPart boundary) parts
      → parse_multipart tmp_name (form_text boundary parts) boundary
        ≡ added (every_other parts) no_form
  unfolding parse_multipart
  parse_multipart-form_text parts ne n a =
      rw (parse_multipart, differs boundary [] ne)
        (multipart_loop-every_other parts (length (form_text boundary parts)) [] no_form n a
          (find_here ne) (long_enough parts))
