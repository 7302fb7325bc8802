-- ===== src/Fastcgi/Reader/Split.antt =====
-- How the bytes of a FastCGI connection are split into reads does not matter to
-- src/fastcgi/src/fcgicc.cc.
use uce.Base.{
  ℕ, zero, suc, ◌+◌, ◌*◌, ◌≤◌, ◌<◌, true, false, [], ◌∷◌, ◌++◌, ◌≡◌, refl, ap, sym, ◌∙◌, inl, inr,
  Bytes, length, take, drop, ltb, ◌==◌, arith, length-append, length-drop, Bool-cases,
}
use uce.Base.Slices.{take-append, drop-append}
use uce.Fastcgi.Reader.{
  Cut, short, wrong_version, whole, cut_record, handle_record, read_loop, read_fgci,
}
use uce.Fastcgi.Request
use uce.Fastcgi.Request.{Request, Connection, Handlers}

-- What is decided on a prefix stays decided.
Later : Bytes → Bytes → Cut → Type 0
Later s t short = Unit
Later s t wrong_version = cut_record (s ++ t) ≡ wrong_version
Later s t (whole kind id content rest) =
    (cut_record (s ++ t) ≡ whole kind id content (rest ++ t)) × (length rest < length s)

whole_later :
    (size padding : ℕ) (s t : Bytes)
    → ltb (length s) (size + padding) ≡ false
    → (ltb (length (s ++ t)) (size + padding) ≡ false)
      × (take size (s ++ t) ≡ take size s)
      × (drop (size + padding) (s ++ t) ≡ drop (size + padding) s ++ t)
whole_later size padding s t fits = (
  rw length-append (ground arith),
  take-append size s t (ground arith),
  drop-append (size + padding) s t (ground arith),
)

cut_record-Later : (s t : Bytes) → Later s t (cut_record s)
unfolding cut_record Later
cut_record-Later (version ∷ k ∷ id1 ∷ id0 ∷ len1 ∷ len0 ∷ padding ∷ r ∷ s) t =
    elim (Bool-cases (version == 1)) [
      | inr e ↦ rw e (rw e)
      | inl e ↦ elim (Bool-cases (ltb (length s) (len1 * 256 + len0 + padding))) [
        | inl few ↦ rw (e, few) tt
        | inr fits ↦
            let (a, b, c) = whole_later (len1 * 256 + len0) padding s t fits in
            rw (e, fits) (rw (e, a, b, c), rw length-drop (omega arith))
      ]
    ]
cut_record-Later _ t = tt

abbrev Round : Type 0
Round = Connection → Bytes → Connection × Bytes

module _ (limits : Request.Limits) (handlers : Handlers) where
  -- A round, with the later rounds as a function.
  abbrev round : Round → Cut → Connection → Bytes → Connection × Bytes
  round later short c s = (c, s)
  round later wrong_version c s = (record c { close_socket = true }, s)
  round later (whole kind id content rest) c s =
      later (handle_record limits handlers c kind id content) rest

  read_loop-round :
      (n : ℕ) (c : Connection) (s : Bytes)
      → read_loop limits handlers (suc n) c s
        ≡ round (read_loop limits handlers n) (cut_record s) c s
  unfolding read_loop
  read_loop-round n c s = by_cut (cut_record s)
    where
      by_cut :
          (u : Cut)
          → elim u [
            | short ↦ (c, s)
            | wrong_version ↦ (record c { close_socket = true }, s)
            | whole kind id content rest ↦
                read_loop limits handlers n (handle_record limits handlers c kind id content) rest
          ]
            ≡ round (read_loop limits handlers n) u c s
      by_cut short = refl
      by_cut wrong_version = refl
      by_cut (whole kind id content rest) = refl

  round_eq :
      (f g : Round) (u : Cut) (c : Connection) (s : Bytes)
      → Later s [] u
      → ((d : Connection) (rest : Bytes) → length rest < length s → f d rest ≡ g d rest)
      → round f u c s ≡ round g u c s
  unfolding Later
  round_eq f g short c s h k = refl
  round_eq f g wrong_version c s h k = refl
  round_eq f g (whole kind id content rest) c s h k = k _ rest h.1

  read_loop_nil : (n : ℕ) (c : Connection) → read_loop limits handlers n c [] ≡ (c, [])
  unfolding read_loop cut_record
  read_loop_nil zero c = refl
  read_loop_nil (suc n) c = refl

  -- Any fuel that the input fits gives the same.
  read_loop_fuel :
      (n m : ℕ) (c : Connection) (s : Bytes)
      → length s ≤ n
      → length s ≤ m
      → read_loop limits handlers n c s ≡ read_loop limits handlers m c s
  read_loop_fuel n m c [] h k = read_loop_nil n c ∙ sym (read_loop_nil m c)
  read_loop_fuel zero m c (x ∷ s) h k = absurd (omega arith)
  read_loop_fuel (suc n) zero c (x ∷ s) h k = absurd (omega arith)
  read_loop_fuel (suc n) (suc m) c (x ∷ s) h k =
      read_loop-round n c (x ∷ s)
      ∙ round_eq (read_loop limits handlers n) (read_loop limits handlers m) (cut_record (x ∷ s)) c
          (x ∷ s) (cut_record-Later (x ∷ s) [])
          (λ d rest less. read_loop_fuel n m d rest (omega arith) (omega arith))
      ∙ sym (read_loop-round m c (x ∷ s))

  read_loop_enough :
      (n : ℕ) (c : Connection) (s : Bytes)
      → length s ≤ n
      → read_loop limits handlers n c s ≡ read_fgci limits handlers c s
  unfolding read_fgci
  read_loop_enough n c s h = read_loop_fuel n (length s) c s h (omega arith)

  -- A round of the reader at the front of an input.
  read_fgci-round :
      (c : Connection) (s : Bytes)
      → read_fgci limits handlers c s ≡ round (read_fgci limits handlers) (cut_record s) c s
  read_fgci-round c s =
      sym (read_loop_enough (suc (length s)) c s (omega arith))
      ∙ read_loop-round (length s) c s
      ∙ round_eq (read_loop limits handlers (length s)) (read_fgci limits handlers) (cut_record s) c
          s (cut_record-Later s [])
          (λ d rest less. read_loop_enough (length s) d rest (omega arith))

  again : Connection × Bytes → Bytes → Connection × Bytes
  again (d, left) t = read_fgci limits handlers d (left ++ t)

  again-read_loop :
      (n : ℕ) (c : Connection) (s t : Bytes)
      → length s ≤ n
      → again (read_loop limits handlers n c s) t ≡ read_fgci limits handlers c (s ++ t)
  unfolding again Later
  again-read_loop zero c [] t h = unfold read_loop in refl
  again-read_loop zero c (x ∷ s) t h = absurd (omega arith)
  again-read_loop (suc n) c s t h =
      ap (λ r. again r t) (read_loop-round n c s)
      ∙ by_cut (cut_record s) refl (cut_record-Later s t)
          (λ d rest less. again-read_loop n d rest t (omega arith))
    where
      by_cut :
          (u : Cut)
          → cut_record s ≡ u
          → Later s t u
          → ((d : Connection) (rest : Bytes)
              → length rest < length s
              → again (read_loop limits handlers n d rest) t
                ≡ read_fgci limits handlers d (rest ++ t))
          → again (round (read_loop limits handlers n) u c s) t
            ≡ read_fgci limits handlers c (s ++ t)
      by_cut short e later ih = refl
      by_cut wrong_version e later ih =
          let closed : Connection = record c { close_socket = true } in
          read_fgci-round closed (s ++ t)
          ∙ ap (λ u. round (read_fgci limits handlers) u closed (s ++ t)) later
          ∙ sym (
              read_fgci-round c (s ++ t)
              ∙ ap (λ u. round (read_fgci limits handlers) u c (s ++ t)) later)
      by_cut (whole kind id content rest) e (later, less) ih =
          ih _ rest less
          ∙ sym (
              read_fgci-round c (s ++ t)
              ∙ ap (λ u. round (read_fgci limits handlers) u c (s ++ t)) later)

  -- Reading a part of the input, and then what was left of it with the rest, is the same as reading
  -- all of it at once: the same records are handled in the same order, and the same is left over,
  -- whatever the handlers do and wherever the input is split.
  pub read_fgci-append :
      (c : Connection) (s t : Bytes)
      → let (d, left) = read_fgci limits handlers c s in
        read_fgci limits handlers d (left ++ t) ≡ read_fgci limits handlers c (s ++ t)
  unfolding again
  read_fgci-append c s t =
      ap (λ r. again r t) (sym (read_loop_enough (length s) c s (omega arith)))
      ∙ again-read_loop (length s) c s t (omega arith)
