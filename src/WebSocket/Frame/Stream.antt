-- ===== src/WebSocket/Frame/Stream.antt =====
-- Frames are cut out of a growing buffer: what was decided on a prefix stays decided.
use uce.Base.{
  ℕ, ◌+◌, ◌*◌, ◌%◌, ◌^◌, ◌≤◌, ◌<◌, Bool, true, false, [], ◌∷◌, ◌++◌, ◌≡◌, ◌≢◌, refl, ap, ◌∙◌, Bytes,
  length, take, drop, ltb, ◌==◌, if◌then◌else◌, bit_and, arith, length-append, length-drop,
  Bool-cases, Option-cases, none, All, IsByte, All-take, All-drop, inl, inr,
}
use uce.Base.Bits.{low_7_bits}
use uce.Base.Slices.{get_or-append, get_or-lt, drop-append, take-append}
use uce.WebSocket.Frame.{
  incomplete, is_set, raw, Size, more, bad, size, frame_size, long_length, unmask, frame_error,
  frame_payload, frame_at, sized_frame, sized, parse,
}

pub unmask-append :
    (mask t payload : Bytes) (i : ℕ)
    → 4 ≤ length mask
    → unmask (mask ++ t) i payload ≡ unmask mask i payload
unfolding unmask
unmask-append mask t [] i h = refl
unmask-append mask t (p ∷ payload) i h =
    rw (get_or-append mask t (i % 4) (omega arith), unmask-append mask t payload (i + 1) h)

longer : (s t : Bytes) (n : ℕ) → ltb (length s) n ≡ false → ltb (length (s ++ t)) n ≡ false
longer s t n h = rw length-append (ground arith)

frame_size-append :
    (n : ℕ) (s t : Bytes) → frame_size n s ≢ more → frame_size n (s ++ t) ≡ frame_size n s
unfolding frame_size
frame_size-append n s t h = elim (Bool-cases (n == 126)) [
  | inl short ↦ elim (Bool-cases (ltb (length s) 4)) [
    | inl e ↦ absurd (h (rw (short, e)))
    | inr e ↦ rw (
      short,
      e,
      longer s t 4 e,
      get_or-append s t 2 (ground arith),
      get_or-append s t 3 (ground arith),
    )
  ]
  | inr wide ↦ elim (Bool-cases (n == 127)) [
    | inr e ↦ rw (wide, e)
    | inl long ↦ elim (Bool-cases (ltb (length s) 10)) [
      | inl e ↦ absurd (h (rw (wide, long, e)))
      | inr e ↦
          let bytes : take 8 (drop 2 (s ++ t)) ≡ take 8 (drop 2 s) =
            ap (take 8) (drop-append 2 s t (ground arith))
            ∙ take-append 8 (drop 2 s) t (rw length-drop (ground arith)) in
          rw (wide, long, e, longer s t 10 e, get_or-append s t 2 (ground arith), bytes)
    ]
  ]
]

frame_payload-append :
    (masked : Bool) (s t : Bytes) (n m : ℕ)
    → (if masked then m + 4 else m) + n ≤ length s
    → frame_payload masked (s ++ t) n m (if masked then m + 4 else m)
      ≡ frame_payload masked s n m (if masked then m + 4 else m)
unfolding frame_payload
frame_payload-append true s t n m fits =
    rw
      (
        drop-append (m + 4) s t (omega arith),
        drop-append m s t (omega arith),
        take-append n (drop (m + 4) s) t (rw length-drop (omega arith)),
      )
      (unmask-append (drop m s) t _ 0 (rw length-drop (omega arith)))
frame_payload-append false s t n m fits =
    rw (drop-append m s t (omega arith)) (take-append n (drop m s) t (rw length-drop (omega arith)))

-- A header length that is not greater than the frame length was not wrapped.
pub no_wrap : (b0 n h f : ℕ) → frame_error b0 n h f ≡ none → h ≤ f
unfolding frame_error
no_wrap b0 n h f e = ground arith

sized_frame-append :
    (b0 : ℕ) (masked : Bool) (s t : Bytes) (n m : ℕ)
    → n < 2 ^ 64
    → m ≤ 10
    → sized_frame b0 masked s n m ≢ incomplete
    → sized_frame b0 masked (s ++ t) n m ≡ sized_frame b0 masked s n m
unfolding sized_frame
sized_frame-append b0 masked s t n m small low h =
    let header = if masked then m + 4 else m in
    let whole = (header + n) % 2 ^ 64 in
    elim (Option-cases (frame_error b0 n header whole)) [
      | inr (e, refused) ↦ rw (refused, sized_frame)
      | inl good ↦ elim (Bool-cases (ltb (length s) whole)) [
        | inl short ↦ absurd (h (rw (good, sized_frame) (rw short)))
        | inr enough ↦
            let fits : header + n ≤ length s =
              room masked m n (length s) small low (no_wrap b0 n header whole good) enough in
            rw (good, sized_frame)
              (rw (enough, longer s t whole enough)
                (unfold frame_at in rw (frame_payload-append masked s t n m fits)))
      ]
    ]
  where
    room :
        (masked : Bool) (m n l : ℕ)
        → n < 2 ^ 64
        → m ≤ 10
        → (if masked then m + 4 else m) ≤ ((if masked then m + 4 else m) + n) % 2 ^ 64
        → ltb l (((if masked then m + 4 else m) + n) % 2 ^ 64) ≡ false
        → (if masked then m + 4 else m) + n ≤ l
    room true m n l small low a b = ground arith
    room false m n l small low a b = ground arith

long_length-lt : (bs : Bytes) (n : ℕ) → All IsByte bs → n < 2 ^ 64 → long_length bs n < 2 ^ 64
unfolding long_length
long_length-lt [] n h small = small
long_length-lt (b ∷ bs) n (hb, h) small = long_length-lt bs (n * 2 ^ 8 % 2 ^ 64 + b) h (omega arith)

-- The bounds on what `frame_size` returns.
abbrev Bounded : Size → Type 0
Bounded (size n m) = (n < 2 ^ 64) × (m ≤ 10)
Bounded _ = Unit

frame_size-Bounded : (n : ℕ) (s : Bytes) → n < 2 ^ 64 → All IsByte s → Bounded (frame_size n s)
unfolding frame_size
frame_size-Bounded n s small h = ground (
  arith,
  get_or-lt s 2 h,
  get_or-lt s 3 h,
  long_length-lt (take 8 (drop 2 s)) 0 (All-take _ 8 _ (All-drop _ 2 s h)) (omega arith),
)

sized-append :
    (s t : Bytes) (z : Size)
    → Bounded z
    → 2 ≤ length s
    → sized s z ≢ incomplete
    → sized (s ++ t) z ≡ sized s z
unfolding sized
sized-append s t more b two h = refl
sized-append s t (bad e) b two h = refl
sized-append s t (size n m) (small, low) two h =
    rw (get_or-append s t 0 (omega arith), get_or-append s t 1 (omega arith))
      (sized_frame-append (raw s 0) (is_set (raw s 1) 0x80) s t n m small low h)

sized_decided : (s : Bytes) (z : Size) → sized s z ≢ incomplete → z ≢ more
unfolding sized
sized_decided s z h e = h (rw e)

-- Once a buffer of bytes holds a whole frame, or an error, nothing that arrives later changes what
-- `parse` makes of it.
pub parse-append : (s t : Bytes) → All IsByte s → parse s ≢ incomplete → parse (s ++ t) ≡ parse s
unfolding parse
parse-append s t bytes h = elim (Bool-cases (ltb (length s) 2)) [
  | inl e ↦ absurd (h (rw e))
  | inr e ↦
      let two : 2 ≤ length s = ground arith in
      let n = bit_and (raw s 1) 0x7F in
      let decided : sized s (frame_size n s) ≢ incomplete = λ x. h (rw (e, x)) in
      rw
        (
          e,
          longer s t 2 e,
          get_or-append s t 1 (omega arith),
          frame_size-append n s t (sized_decided s (frame_size n s) decided),
        )
        (sized-append s t (frame_size n s)
          (frame_size-Bounded n s (rw (low_7_bits (raw s 1) (get_or-lt s 1 bytes)) (omega arith))
            bytes)
          two decided)
]
