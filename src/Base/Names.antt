-- ===== src/Base/Names.antt =====
-- The characters of the names in routes and in the heads of responses.
use uce.Base.{ℕ, ◌≤◌, ◌≡◌, ◌⊎◌}

-- A letter, a digit, `-` or `_`.
abbrev pub IsNameByte : ℕ → Type 0
IsNameByte c =
    ((b'a' ≤ c) × (c ≤ b'z'))
    ⊎ ((b'A' ≤ c) × (c ≤ b'Z'))
    ⊎ ((b'0' ≤ c) × (c ≤ b'9'))
    ⊎ (c ≡ b'-')
    ⊎ (c ≡ b'_')
