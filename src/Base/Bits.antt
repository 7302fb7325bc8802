-- ===== src/Base/Bits.antt =====
-- Masks and joins of bit fields on bytes, as arithmetic; each is a table that is checked by evaluation.
use Prim.Native.Nat.{ℕ, zero, suc, ◌+◌, ◌*◌, ◌/◌, ◌%◌, ◌<◌, bit_and, bit_or, bit_xor}
use mathlib.Core.Bool.{Bool, true, false}
use mathlib.Core.Path.{◌≡◌, refl}
use native.Mathlib.Omega.{arith}
use uce.Base.Tests.{◌==◌, ==→eq, if◌then◌else◌}

-- Every number below the bound passes the test.
unfoldable pub holds_below : (ℕ → Bool) → ℕ → Bool
holds_below test zero = true
holds_below test (suc bound) = if test bound then holds_below test bound else false

pub holds_below→eq :
    (test : ℕ → Bool) (bound n : ℕ) → n < bound → holds_below test bound ≡ true → test n ≡ true
unfolding holds_below
holds_below→eq test zero n small passed = absurd (omega arith)
holds_below→eq test (suc bound) n small passed = ground (arith, holds_below→eq test bound n)

module _ (f g : ℕ → ℕ → ℕ) where
  agree : ℕ → ℕ → Bool
  unfolding holds_below
  agree n m = holds_below (λ a. holds_below (λ b. f a b == g a b) m) n

  agree→eq : (n m : ℕ) → agree n m ≡ true → (a b : ℕ) → a < n → b < m → f a b ≡ g a b
  unfolding agree
  agree→eq n m h a b ha hb =
      ==→eq (f a b) (g a b) (
        holds_below→eq _ m b hb
          (holds_below→eq (λ a. holds_below (λ b. f a b == g a b) m) n a ha h))

pub low_4_bits : (b : ℕ) → b < 256 → bit_and b 0x0F ≡ b % 16
unfolding agree
low_4_bits b h = agree→eq (λ a b. bit_and a 0x0F) (λ a b. a % 16) 256 1 refl b 0 h (omega arith)

pub low_7_bits : (b : ℕ) → b < 256 → bit_and b 0x7F ≡ b % 128
unfolding agree
low_7_bits b h = agree→eq (λ a b. bit_and a 0x7F) (λ a b. a % 128) 256 1 refl b 0 h (omega arith)

pub top_bit : (b : ℕ) → b < 256 → bit_and b 0x80 ≡ b / 128 * 128
unfolding agree
top_bit b h = agree→eq (λ a b. bit_and a 0x80) (λ a b. a / 128 * 128) 256 1 refl b 0 h (omega arith)

-- The fields of a byte whose upper half is `0` or `8`.
pub low_half_fields :
    (b : ℕ)
    → b < 16
    → (bit_and b 0x0F ≡ b)
      × (bit_and b 0x80 ≡ 0)
      × (bit_and b 0x40 ≡ 0)
      × (bit_and b 0x20 ≡ 0)
      × (bit_and b 0x10 ≡ 0)
unfolding agree
low_half_fields b h = (
  agree→eq (λ a b. bit_and a 0x0F) (λ a b. a) 16 1 refl b 0 h (omega arith),
  agree→eq (λ a b. bit_and a 0x80) (λ a b. 0) 16 1 refl b 0 h (omega arith),
  agree→eq (λ a b. bit_and a 0x40) (λ a b. 0) 16 1 refl b 0 h (omega arith),
  agree→eq (λ a b. bit_and a 0x20) (λ a b. 0) 16 1 refl b 0 h (omega arith),
  agree→eq (λ a b. bit_and a 0x10) (λ a b. 0) 16 1 refl b 0 h (omega arith),
)

pub topped_fields :
    (b : ℕ)
    → b < 16
    → (bit_and (bit_or b 0x80) 0x0F ≡ b)
      × (bit_and (bit_or b 0x80) 0x80 ≡ 128)
      × (bit_and (bit_or b 0x80) 0x40 ≡ 0)
      × (bit_and (bit_or b 0x80) 0x20 ≡ 0)
      × (bit_and (bit_or b 0x80) 0x10 ≡ 0)
unfolding agree
topped_fields b h = (
  agree→eq (λ a b. bit_and (bit_or a 0x80) 0x0F) (λ a b. a) 16 1 refl b 0 h (omega arith),
  agree→eq (λ a b. bit_and (bit_or a 0x80) 0x80) (λ a b. 128) 16 1 refl b 0 h (omega arith),
  agree→eq (λ a b. bit_and (bit_or a 0x80) 0x40) (λ a b. 0) 16 1 refl b 0 h (omega arith),
  agree→eq (λ a b. bit_and (bit_or a 0x80) 0x20) (λ a b. 0) 16 1 refl b 0 h (omega arith),
  agree→eq (λ a b. bit_and (bit_or a 0x80) 0x10) (λ a b. 0) 16 1 refl b 0 h (omega arith),
)

pub or_add_4 : (a b : ℕ) → a < 64 → b < 4 → bit_or (a * 4) b ≡ a * 4 + b
unfolding agree
or_add_4 = agree→eq (λ a b. bit_or (a * 4) b) (λ a b. a * 4 + b) 64 4 refl

pub or_add_16 : (a b : ℕ) → a < 16 → b < 16 → bit_or (a * 16) b ≡ a * 16 + b
unfolding agree
or_add_16 = agree→eq (λ a b. bit_or (a * 16) b) (λ a b. a * 16 + b) 16 16 refl

pub or_add_64 : (a b : ℕ) → a < 4 → b < 64 → bit_or (a * 64) b ≡ a * 64 + b
unfolding agree
or_add_64 = agree→eq (λ a b. bit_or (a * 64) b) (λ a b. a * 64 + b) 4 64 refl

-- A mask that is applied twice is gone.
pub xor_twice : (a b : ℕ) → a < 256 → b < 256 → bit_xor (bit_xor a b) b ≡ a
unfolding agree
xor_twice = agree→eq (λ a b. bit_xor (bit_xor a b) b) (λ a b. a) 256 256 refl

pub xor_byte : (a b : ℕ) → a < 256 → b < 256 → bit_xor a b / 256 ≡ 0
unfolding agree
xor_byte = agree→eq (λ a b. bit_xor a b / 256) (λ a b. 0) 256 256 refl
