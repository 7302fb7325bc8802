-- ===== src/Noise.antt =====
-- The noise of src/lib/hash.cpp on words of 32 and 64 bits, and the numbers of a range made of it.
use native.Mathlib.Nat.{mod-lt}
use uce.Base.{
  ℕ, ◌+◌, ◌-◌, ◌*◌, ◌/◌, ◌%◌, ◌^◌, ◌≤◌, ◌<◌, ◌≡◌, refl, Option, none, some, ◌==◌, bit_xor,
  if◌then◌else◌, arith, ne→==,
}

unfoldable pub gen_noise32 : ℕ → ℕ → ℕ
gen_noise32 index seed =
    let r1 = (index * 0xB5297A4D + seed) % 2 ^ 32 in
    let r2 = (bit_xor r1 (r1 / 2 ^ 8) + 0x68E31DA4) % 2 ^ 32 in
    let r3 = bit_xor r2 (r2 * 2 ^ 8 % 2 ^ 32) * 0x1B56C4E9 % 2 ^ 32 in bit_xor r3 (r3 / 2 ^ 8)

unfoldable pub gen_noise64 : ℕ → ℕ → ℕ
gen_noise64 index seed =
    let r1 = (index * 0x5134811636f8cc8a + seed) % 2 ^ 64 in
    let r2 = (bit_xor r1 (r1 / 2 ^ 8) + 0xb8E31DA41B56C4E9) % 2 ^ 64 in
    let r3 = bit_xor r2 (r2 * 2 ^ 8 % 2 ^ 64) * 0x18cd227aaa1168c1 % 2 ^ 64 in
    bit_xor r3 (r3 / 2 ^ 8)

-- `none` is a division by zero.
unfoldable pub gen_int : ℕ → ℕ → ℕ → ℕ → Option ℕ
gen_int from to index seed =
    let b = (1 + to + (2 ^ 64 - from)) % 2 ^ 64 in
    if b == 0 then none else some ((from + gen_noise64 index seed % b) % 2 ^ 64)

remainder-lt : (n b : ℕ) → 1 ≤ b → n % b < b
remainder-lt n b h = mod-lt n h

-- For a range that is not that of all words, the number is drawn and lies in the range.
pub gen_int-within :
    (from to index seed : ℕ)
    → from ≤ to
    → to < 2 ^ 64
    → to - from < 2 ^ 64 - 1
    → (v : ℕ) × (gen_int from to index seed ≡ some v) × (from ≤ v) × (v ≤ to)
unfolding gen_int
gen_int-within from to index seed ordered word part =
    let b : (1 + to + (2 ^ 64 - from)) % 2 ^ 64 ≡ 1 + (to - from) = omega arith in
    let less = remainder-lt (gen_noise64 index seed) (1 + (to - from)) (omega arith) in
    (
      (from + gen_noise64 index seed % (1 + (to - from))) % 2 ^ 64,
      rw (b, ne→== (1 + (to - from)) 0 (λ e. omega (arith, e))) refl,
      omega (arith, less),
      omega (arith, less),
    )
