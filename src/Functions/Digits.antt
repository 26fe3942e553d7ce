-- ===== src/Functions/Digits.antt =====
-- HEX, OCT and BIN of runtime/duckdb_mysql_compat.cc. A shift to the right is a division by a power
-- of the base, and the low bits are a remainder. What the code uses of DuckDB and of the C++
-- library is a parameter: the count of leading zeros, rounding and strtod.
pub mod Values
pub mod Octal
use duckdb_engine.Prelude.{
  ℕ, zero, suc, ◌+◌, ◌-◌, ◌*◌, ◌/◌, ◌%◌, ◌^◌, [], ◌∷◌, ◌++◌, Bytes, Option, none, some, ltb, ◌==◌,
  if◌then◌else◌,
}
use duckdb_engine.Convert.Values.{hex_digit}

-- The loop of the Write functions, which counts the offset down to 0.
unfoldable pub write_digits : ℕ → ℕ → ℕ → Bytes
unfolding hex_digit
write_digits base zero x = []
write_digits base (suc n) x = hex_digit (x / base ^ n % base) ∷ write_digits base n x

unfoldable pub write_hex_bytes : ℕ → ℕ → Bytes
unfolding write_digits
write_hex_bytes x buffer_size = write_digits 16 buffer_size x

unfoldable pub write_bin_bytes : ℕ → ℕ → Bytes
unfolding write_digits
write_bin_bytes x buffer_size = write_digits 2 buffer_size x

unfoldable pub write_oct_bytes : ℕ → ℕ → Bytes
unfolding write_digits
write_oct_bytes x buffer_size = write_digits 8 buffer_size x

-- HexStrOperator: two digits for each byte.
unfoldable pub hex_str : Bytes → Bytes
unfolding hex_digit
hex_str [] = []
hex_str (c ∷ s) = hex_digit (c / 16 % 16) ∷ hex_digit (c % 16) ∷ hex_str s

-- HexIntegralOperator and its like, on the word that the integer is cast to.
module _ (leading : ℕ → ℕ) where
  unfoldable pub hex_integral : ℕ → Bytes
  unfolding write_hex_bytes
  hex_integral input =
      let buffer_size = (64 - leading input + 3) / 4 in
      if buffer_size == 0 then 48 ∷ [] else write_hex_bytes input buffer_size

  unfoldable pub oct_integral : ℕ → Bytes
  unfolding write_oct_bytes
  oct_integral input =
      let buffer_size = (64 - leading input + 2) / 3 in
      if buffer_size == 0 then 48 ∷ [] else write_oct_bytes input buffer_size

  unfoldable pub binary_integral : ℕ → Bytes
  unfolding write_bin_bytes
  binary_integral input =
      let buffer_size = 64 - leading input in
      if buffer_size == 0 then 48 ∷ [] else write_bin_bytes input buffer_size

  -- The operators on floating point numbers and on texts. `round` is std::round with the cast, and
  -- `strtod` gives nothing where errno is set or no number is found.
  module _ {F : Type 0} (round : F → ℕ) (strtod : Bytes → Option F) where
    unfoldable pub hex_float : F → Bytes
    unfolding hex_integral
    hex_float input = hex_integral (round input)

    unfoldable pub oct_float : F → Bytes
    unfolding oct_integral
    oct_float input = oct_integral (round input)

    unfoldable pub binary_float : F → Bytes
    unfolding binary_integral
    binary_float input = binary_integral (round input)

    unfoldable pub oct_str : Bytes → Bytes
    unfolding oct_float
    oct_str input = elim (strtod input) [ none ↦ 48 ∷ [] | some d ↦ oct_float d ]

    unfoldable pub binary_str : Bytes → Bytes
    unfolding binary_float
    binary_str input = elim (strtod input) [ none ↦ 48 ∷ [] | some d ↦ binary_float d ]
