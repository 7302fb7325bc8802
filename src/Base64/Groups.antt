-- ===== src/Base64/Groups.antt =====
-- The encoder's bit buffer, three bytes at a time: what it writes are the groups of the text.
use uce.Base.{
  ℕ, zero, suc, ◌+◌, ◌*◌, ◌/◌, ◌%◌, ◌^◌, ◌<◌, [], ◌∷◌, ◌++◌, ◌≡◌, ◌≢◌, refl, sym, ◌∙◌, ap, Bytes,
  length, ne→==, All, IsByte, arith, append_assoc, append-nil, length-append,
}
use uce.Base64.{Encoder, char_at, drain, encode_byte, encode_loop, pad, finish, base64_encode}

-- The base64 form, group by group.
abbrev pub encoded : Bytes → Bytes
encoded [] = []
encoded (a ∷ []) = char_at (a / 4) ∷ char_at (a % 4 * 16) ∷ b'=' ∷ b'=' ∷ []
encoded (a ∷ b ∷ []) =
    char_at (a / 4) ∷ char_at (a % 4 * 16 + b / 16) ∷ char_at (b % 16 * 4) ∷ b'=' ∷ []
encoded (a ∷ b ∷ c ∷ q) =
    char_at (a / 4)
    ∷ char_at (a % 4 * 16 + b / 16)
    ∷ char_at (b % 16 * 4 + c / 64)
    ∷ char_at (c % 64)
    ∷ encoded q

abbrev at : ℕ → ℕ → Bytes → Encoder
at v n r = record { val = v; bits = n; result = r }

abbrev shifted : ℕ → ℕ → ℕ
shifted v c = (v * 2 ^ 8 + c) % 2 ^ 32

encode_byte-0 :
    (v a : ℕ) (r : Bytes)
    → a < 256
    → encode_byte (at v 0 r) a ≡ at (shifted v a) 2 (r ++ char_at (a / 4) ∷ [])
unfolding encode_byte drain
encode_byte-0 v a r h = let e : shifted v a / 2 ^ 2 % 64 ≡ a / 4 = omega arith in rw (← e)

encode_byte-2 :
    (v b : ℕ) (r : Bytes)
    → b < 256
    → encode_byte (at v 2 r) b ≡ at (shifted v b) 4 (r ++ char_at (v % 4 * 16 + b / 16) ∷ [])
unfolding encode_byte drain
encode_byte-2 v b r h =
    let e : shifted v b / 2 ^ 4 % 64 ≡ v % 4 * 16 + b / 16 = omega arith in rw (← e)

encode_byte-4 :
    (v c : ℕ) (r : Bytes)
    → c < 256
    → encode_byte (at v 4 r) c
      ≡ at (shifted v c) 0 ((r ++ char_at (v % 16 * 4 + c / 64) ∷ []) ++ char_at (c % 64) ∷ [])
unfolding encode_byte drain
encode_byte-4 v c r h =
    let e : shifted v c / 2 ^ 6 % 64 ≡ v % 16 * 4 + c / 64 = omega arith in
    let f : shifted v c / 2 ^ 0 % 64 ≡ c % 64 = omega arith in rw (← e, ← f)

low_4 : (v a : ℕ) → shifted v a % 4 ≡ a % 4
low_4 v a = omega arith

low_16 : (v a : ℕ) → shifted v a % 16 ≡ a % 16
low_16 v a = omega arith

encode_loop-2 :
    (a b v : ℕ) (q r : Bytes)
    → a < 256
    → b < 256
    → encode_loop (a ∷ b ∷ q) (at v 0 r)
      ≡ encode_loop q (
          at
            (shifted (shifted v a) b)
            4
            (r ++ (char_at (a / 4) ∷ char_at (a % 4 * 16 + b / 16) ∷ [])))
unfolding encode_loop
encode_loop-2 a b v q r ha hb =
    rw (encode_byte-0 v a r ha, encode_byte-2 (shifted v a) b _ hb, low_4 v a, append_assoc)

encode_last :
    (v c x y : ℕ) (q r : Bytes)
    → c < 256
    → encode_loop (c ∷ q) (at v 4 (r ++ (x ∷ y ∷ [])))
      ≡ encode_loop q (
          at (shifted v c) 0 (r ++ (x ∷ y ∷ char_at (v % 16 * 4 + c / 64) ∷ char_at (c % 64) ∷ [])))
unfolding encode_loop
encode_last v c x y q r h = rw (encode_byte-4 v c (r ++ (x ∷ y ∷ [])) h) (
    ap (λ t. encode_loop q (at (shifted v c) 0 t))
      (append_assoc _ (char_at (v % 16 * 4 + c / 64) ∷ []) (char_at (c % 64) ∷ [])
        ∙ append_assoc r _ _))

encode_loop-3 :
    (a b c v : ℕ) (q r : Bytes)
    → a < 256
    → b < 256
    → c < 256
    → encode_loop (a ∷ b ∷ c ∷ q) (at v 0 r)
      ≡ encode_loop q (
          at (shifted (shifted (shifted v a) b) c) 0 (
            r
            ++ (char_at (a / 4)
                ∷ char_at (a % 4 * 16 + b / 16)
                ∷ char_at (b % 16 * 4 + c / 64)
                ∷ char_at (c % 64)
                ∷ [])))
encode_loop-3 a b c v q r ha hb hc =
    encode_loop-2 a b v (c ∷ q) r ha hb
    ∙ encode_last (shifted (shifted v a) b) c _ _ q r hc
    ∙ rw (low_16 (shifted v a) b)

-- The padding behind groups of four.
abbrev Whole : Bytes → Type 0
Whole r = length r % 4 ≡ 0

pad_more : (f : ℕ) (s : Bytes) → length s % 4 ≢ 0 → pad (suc f) s ≡ pad f (s ++ b'=' ∷ [])
unfolding pad
pad_more f s h = rw (ne→== _ _ h, pad)

pad_done : (f : ℕ) (s : Bytes) → length s % 4 ≡ 0 → pad f s ≡ s
unfolding pad
pad_done zero s h = refl
pad_done (suc f) s h = rw (h, pad)

pad_one :
    (f : ℕ) (r : Bytes) (x y z : ℕ)
    → Whole r
    → pad (suc f) (r ++ (x ∷ y ∷ z ∷ [])) ≡ r ++ (x ∷ y ∷ z ∷ b'=' ∷ [])
pad_one f r x y z h =
    pad_more f _ (rw length-append (omega arith))
    ∙ ap (pad f) (append_assoc r _ _)
    ∙ pad_done f _ (rw length-append (omega arith))

pad_two :
    (f : ℕ) (r : Bytes) (x y : ℕ)
    → Whole r
    → pad (suc (suc f)) (r ++ (x ∷ y ∷ [])) ≡ r ++ (x ∷ y ∷ b'=' ∷ b'=' ∷ [])
pad_two f r x y h =
    pad_more (suc f) _ (rw length-append (omega arith))
    ∙ ap (pad (suc f)) (append_assoc r _ _)
    ∙ pad_one f r x y b'=' h

encode_loop-encoded :
    (q : Bytes) (v : ℕ) (r : Bytes)
    → All IsByte q
    → Whole r
    → pad 3 (finish (encode_loop q (at v 0 r))) ≡ r ++ encoded q
encode_loop-encoded [] v r h w = unfold finish encode_loop in (pad_done 3 r w ∙ sym (append-nil r))
encode_loop-encoded (a ∷ []) v r (ha, h) w =
    let e : shifted v a * 2 ^ 8 % 2 ^ 32 / 2 ^ 4 % 64 ≡ a % 4 * 16 = omega arith in
    unfold encode_loop finish in rw (encode_byte-0 v a r ha, e, append_assoc) (pad_two 1 r _ _ w)
encode_loop-encoded (a ∷ b ∷ []) v r (ha, (hb, h)) w =
    let e : shifted (shifted v a) b * 2 ^ 8 % 2 ^ 32 / 2 ^ 6 % 64 ≡ b % 16 * 4 = omega arith in
    rw (encode_loop-2 a b v [] r ha hb)
      (unfold encode_loop finish in rw (e, append_assoc) (pad_one 2 r _ _ _ w))
encode_loop-encoded (a ∷ b ∷ c ∷ q) v r (ha, (hb, (hc, h))) w =
    rw (encode_loop-3 a b c v q r ha hb hc)
      (encode_loop-encoded q _ _ h (rw length-append (omega arith)) ∙ rw append_assoc)

-- The encoder gives the groups of the text.
pub base64_encode-encoded : (raw : Bytes) → All IsByte raw → base64_encode raw ≡ encoded raw
unfolding base64_encode
base64_encode-encoded raw h = encode_loop-encoded raw 0 [] h refl
