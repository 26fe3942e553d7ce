-- ===== src/Tests/Functions.antt =====
-- The functions on texts, numbers and intervals at inputs of a query.
use native.Mathlib.Nat.{pow-suc}
use native.Mathlib.Decide.{ℕ_discrete}
use duckdb_engine.Prelude.{
  some, ◌%◌, ℕ, zero, suc, ◌+◌, ◌-◌, ◌*◌, ◌/◌, ◌^◌, ◌≤◌, ◌<◌, false, ◌∷◌, ◌++◌, Bytes, codes, none,
  if◌then◌else◌, ◌==◌, ◌≡◌, ◌≢◌, refl, arith, subst, inl, inr, Bool-cases, ==_ne,
}
use duckdb_engine.Prelude.Int.{pos, negsuc, sub_ℕ, ◌+ℤ◌}
use duckdb_engine.Functions.Texts.{
  locate_2arg, locate_3arg, ltrim_substr, rtrim_substr, strip, ends_with, json_unquote,
}
use duckdb_engine.Functions.Texts.Search.{IsFirst, locate-IsFirst}
use duckdb_engine.Functions.Texts.Trim.{copies, trim-copies}
use duckdb_engine.Functions.Texts.Json.{json_quote, json_unquote-quote}
use duckdb_engine.Functions.Digits.{hex_integral, oct_integral, binary_integral}
use duckdb_engine.Functions.Digits.Values.{CountsZeros, IsNumeral, integral-IsNumeral}
use duckdb_engine.Functions.Interval.{
  day_us, unsigned_us, split_space, total_us, parse_parts, atoi, signed_number, leading_number,
  parse_usec, parse_mariadb_interval_us, addtime_ts, subtime_ts, addtime_time, subtime_time,
}
use duckdb_engine.Functions.Interval.Inverse.{subtime-addtime}
use duckdb_engine.Functions.Interval.Parse.{decimal, named_us, interval_text, parse-interval_text}

locate-IsFirst_example :
    IsFirst (codes "ab") (codes "abcab") 1 (locate_3arg (codes "ab") (codes "abcab") 2)
    × IsFirst (codes "ab") (codes "abcab") 0 (locate_2arg (codes "ab") (codes "abcab"))
locate-IsFirst_example = locate-IsFirst b'a' (codes "b") (codes "abcab") 1

located : locate_3arg (codes "ab") (codes "abcab") 2 ≡ 4
unfolding locate_3arg
located = refl

trim-copies_example :
    ((k : ℕ) × (codes "xyxyaxy"
        ≡ copies k (codes "xy") ++ ltrim_substr (codes "xyxyaxy") (codes "xy"))
      × (strip (codes "xy") (ltrim_substr (codes "xyxyaxy") (codes "xy")) ≡ none))
    × ((k : ℕ) × (codes "xyxyaxy"
          ≡ rtrim_substr (codes "xyxyaxy") (codes "xy") ++ copies k (codes "xy"))
        × (ends_with (codes "xy") (rtrim_substr (codes "xyxyaxy") (codes "xy")) ≡ false))
trim-copies_example = trim-copies b'x' (codes "y") (codes "xyxyaxy")

json_unquote-quote_example : json_unquote (json_quote (codes "a\"b\\c")) ≡ codes "a\"b\\c"
json_unquote-quote_example = json_unquote-quote (codes "a\"b\\c")

-- The bits of a number, and the zeros in front of them.
bits : ℕ → ℕ → ℕ
bits zero x = 0
bits (suc fuel) x = if x == 0 then 0 else suc (bits fuel (x / 2))

bits-le : (fuel x : ℕ) → bits fuel x ≤ fuel
unfolding bits
bits-le zero x = omega arith
bits-le (suc fuel) x = ground (arith, bits-le fuel (x / 2))

bits-zero : (fuel : ℕ) → bits fuel 0 ≡ 0
unfolding bits
bits-zero zero = refl
bits-zero (suc fuel) = refl

bits_hold : (fuel x : ℕ) → x < 2 ^ fuel → x < 2 ^ bits fuel x
unfolding bits
bits_hold zero x h = h
bits_hold (suc fuel) x h = elim (Bool-cases (x == 0)) [
  | inl e ↦ rw e (ground arith)
  | inr e ↦ rw e (
      omega (
        arith,
        pow-suc 2 (bits fuel (x / 2)),
        bits_hold fuel (x / 2) (omega (arith, pow-suc 2 fuel)),
      ))
]

bits_low : (fuel x : ℕ) → x ≢ 0 → 2 ^ bits fuel x ≤ 2 * x
unfolding bits
bits_low zero x h = ground arith
bits_low (suc fuel) x h = elim (ℕ_discrete (x / 2) 0) [
  | yes p ↦ rw (==_ne x 0 h, p, bits-zero fuel) (ground arith)
  | no p ↦ rw (==_ne x 0 h) (omega (arith, pow-suc 2 (bits fuel (x / 2)), bits_low fuel (x / 2) p))
]

bits_first : (x : ℕ) → x ≢ 0 → 1 ≤ bits 64 x
unfolding bits
bits_first x h = rw (==_ne x 0 h) (omega arith)

leading : ℕ → ℕ
leading x = 64 - bits 64 x

leading-CountsZeros : CountsZeros leading
unfolding leading
leading-CountsZeros = record {
  of_zero = rw (bits-zero 64);
  holds = λ x h. subst (λ n. x < 2 ^ n) (below x) (bits_hold 64 x h);
  first_set = λ x h. (omega (arith, bits_first x h), first x h);
}
  where
    below : (x : ℕ) → bits 64 x ≡ 64 - (64 - bits 64 x)
    below x = omega (arith, bits-le 64 x)

    first : (x : ℕ) → x ≢ 0 → 2 ^ (63 - (64 - bits 64 x)) ≤ x
    first x h =
        let e : bits 64 x ≡ suc (63 - (64 - bits 64 x)) =
          omega (arith, bits-le 64 x, bits_first x h) in
        omega
          (arith, pow-suc 2 (63 - (64 - bits 64 x)), subst (λ n. 2 ^ n ≤ 2 * x) e (bits_low 64 x h))

integral-IsNumeral_example :
    IsNumeral 16 1000 (hex_integral leading 1000)
    × IsNumeral 8 1000 (oct_integral leading 1000)
    × IsNumeral 2 1000 (binary_integral leading 1000)
integral-IsNumeral_example = integral-IsNumeral leading leading-CountsZeros 1000 (omega arith)

abbrev five_days : Bytes
five_days = interval_text (codes "5") (codes "04") (codes "03") (codes "02") (codes "5")

abbrev five_days_us : ℕ
five_days_us = named_us (codes "5") (codes "04") (codes "03") (codes "02") (codes "5")

parse-interval_text_example :
    (parse_mariadb_interval_us five_days ≡ some (pos five_days_us))
    × (parse_mariadb_interval_us (b'-' ∷ five_days) ≡ some (sub_ℕ 0 five_days_us))
unfolding decimal
parse-interval_text_example =
    parse-interval_text (codes "5") (codes "04") (codes "03") (codes "02") (codes "5") (omega arith)
      (omega arith) (omega arith) (omega arith) (omega arith) (omega arith) (omega arith)
      (omega arith) (omega arith) (omega arith)

-- The five days, four hours, three minutes, two seconds and a half in microseconds.
five_days_named : five_days_us ≡ 446582500000
unfolding decimal
five_days_named = refl

subtime-addtime_example :
    (addtime_ts (negsuc 5) five_days ≡ some (negsuc 5 +ℤ pos five_days_us))
    × (subtime_ts (negsuc 5 +ℤ pos five_days_us) five_days ≡ some (negsuc 5))
    × (subtime_ts (negsuc 5) (b'-' ∷ five_days) ≡ some (negsuc 5 +ℤ pos five_days_us))
    × (addtime_ts (negsuc 5 +ℤ pos five_days_us) (b'-' ∷ five_days) ≡ some (negsuc 5))
    × (addtime_time (pos 7) five_days ≡ some (pos ((7 + five_days_us) % day_us)))
    × (subtime_time (pos ((7 + five_days_us) % day_us)) five_days ≡ some (pos 7))
unfolding decimal ◌+ℤ◌
subtime-addtime_example =
    subtime-addtime (codes "5") (codes "04") (codes "03") (codes "02") (codes "5") (omega arith)
      (omega arith) (omega arith) (omega arith) (omega arith) (omega arith) (omega arith)
      (omega arith) (omega arith) (negsuc 5) 7 refl refl (omega arith) (omega arith)

-- A number of hours that is no `int` has no result.
too_many_hours : parse_mariadb_interval_us (codes "99999999999:00:00") ≡ none
unfolding parse_mariadb_interval_us unsigned_us split_space total_us parse_parts atoi signed_number
    leading_number parse_usec
too_many_hours = refl
