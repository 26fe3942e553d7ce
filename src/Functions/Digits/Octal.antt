-- ===== src/Functions/Digits/Octal.antt =====
-- OCT of a 128-bit integer: OctHugeIntOperator and OctUhugeIntOperator. The size of the type is 16
-- bytes, and `idx_t` has 64 bits.
use duckdb_engine.Prelude.{ℕ, ◌+◌, ◌-◌, ◌*◌, ◌/◌, ◌%◌, ◌^◌, ◌≤◌, ◌≡◌, ◌⊎◌, arith}

-- The size of the text that is asked for: `sizeof(INPUT_TYPE) * 2` counts the digits of base 16.
unfoldable pub oct_huge_size : ℕ → ℕ
oct_huge_size num_leading_zero = (16 * 2 + 2 ^ 64 - num_leading_zero + 2) % 2 ^ 64 / 3

-- BinaryHugeIntOperator and HexHugeIntOperator
unfoldable pub bin_huge_size : ℕ → ℕ
bin_huge_size num_leading_zero = (16 * 8 + 2 ^ 64 - num_leading_zero) % 2 ^ 64

unfoldable pub hex_huge_size : ℕ → ℕ
hex_huge_size num_leading_zero = (16 * 2 + 2 ^ 64 - num_leading_zero / 4) % 2 ^ 64

-- A 128-bit number takes as many digits as its bits need, in groups of four for HEX and of one for
-- BIN. OCT never asks for that many: 32 digits are missing of a number with at most 34 leading
-- zeros, and the size of any other one wraps around to more than 2 ^ 62.
pub huge_sizes :
    (num_leading_zero : ℕ)
    → num_leading_zero ≤ 128
    → (hex_huge_size num_leading_zero ≡ (128 - num_leading_zero + 3) / 4)
      × (bin_huge_size num_leading_zero ≡ 128 - num_leading_zero)
      × ((oct_huge_size num_leading_zero + 32 ≡ (128 - num_leading_zero + 2) / 3)
          ⊎ (2 ^ 62 ≤ oct_huge_size num_leading_zero))
unfolding oct_huge_size bin_huge_size hex_huge_size
huge_sizes num_leading_zero h = ground arith
