-- ===== src/Functions/Interval.antt =====
-- ADDTIME and SUBTIME of runtime/duckdb_mysql_compat.cc, with the reading of an interval. Where a
-- number leaves `int`, as that of atoi, or `int64_t`, C++ gives no result, and here there is none.
pub mod Parse
pub mod Inverse
use duckdb_engine.Prelude.{
  ℕ, zero, suc, ◌+◌, ◌-◌, ◌*◌, ◌/◌, ◌%◌, ◌^◌, Bool, true, false, ◌&&◌, ◌||◌, [], ◌∷◌, ◌++◌, List,
  Bytes, codes, Option, none, some, ltb, leb, ◌==◌, if◌then◌else◌,
}
use duckdb_engine.Prelude.Int.{ℤ, pos, negsuc, sub_ℕ, pos_part, neg_part, ◌+ℤ◌, ◌-ℤ◌, ◌%ℤ◌}
use duckdb_engine.Functions.Texts.{take}

-- The ranges of `int` and of `int64_t`.
abbrev pub in_range : ℕ → ℤ → Bool
in_range bound (pos n) = ltb n bound
in_range bound (negsuc n) = ltb n bound

abbrev pub is_int : ℤ → Bool
is_int z = in_range (2 ^ 31) z

abbrev pub int64 : ℤ → Option ℤ
int64 z = if in_range (2 ^ 63) z then some z else none

-- n * z
unfoldable pub scale : ℕ → ℤ → ℤ
scale n z = sub_ℕ (n * pos_part z) (n * neg_part z)

-- The digits at the front of a text, behind a number.
unfoldable pub leading_number : ℕ → Bytes → ℕ
leading_number n [] = n
leading_number n (c ∷ s) =
    let rest = leading_number (n * 10 + (c - 48)) s in if leb 48 c && leb c 57 then rest else n

unfoldable pub signed_number : Bytes → ℤ
unfolding leading_number
signed_number [] = pos 0
signed_number (c ∷ s) =
    if c == b'-'
    then sub_ℕ 0 (leading_number 0 s)
    else if c == b'+'
    then pos (leading_number 0 s)
    else pos (leading_number 0 (c ∷ s))

-- The number that atoi reads, of any size: white space, a sign, digits.
unfoldable pub atoi : Bytes → ℤ
unfolding signed_number
atoi [] = pos 0
atoi (c ∷ s) =
    let rest = atoi s in if (c == 32) || (leb 9 c && leb c 13) then rest else signed_number (c ∷ s)

-- What stands in front of the first space and behind it.
unfoldable pub split_space : Bytes → Option (Bytes × Bytes)
split_space [] = none
split_space (c ∷ s) =
    let rest = split_space s in
    if c == 32
    then some ([], s)
    else elim rest [ none ↦ none | some (before, after) ↦ some (c ∷ before, after) ]

-- The loop over H:M:S, with the parts that are left to read and the bytes since `num_start`. It
-- gives the parts and what stands behind them.
unfoldable pub parse_parts : ℕ → Bytes → Bytes → List ℤ × Bytes
unfolding atoi
parse_parts zero num s = ([], s)
parse_parts (suc parts) num [] = (atoi num ∷ [], [])
parse_parts (suc parts) num (c ∷ s) =
    let rest = parse_parts parts [] s in
    let after : List ℤ × Bytes = (atoi num ∷ rest.0, rest.1) in
    let longer = parse_parts (suc parts) (num ++ c ∷ []) s in
    if c == b':' then after else if c == b'.' then (atoi num ∷ [], s) else longer

abbrev pub part : ℕ → List ℤ → ℤ
part n [] = pos 0
part zero (p ∷ ps) = p
part (suc n) (p ∷ ps) = part n ps

-- The fraction, padded to six digits.
unfoldable pub parse_usec : Bytes → ℤ
unfolding atoi
parse_usec [] = pos 0
parse_usec (c ∷ s) = atoi (take 6 ((c ∷ s) ++ codes "000000"))

-- The days, the hours, the minutes, the seconds and the microseconds are of type `int`, and their
-- sum in seconds is too small to leave int64_t.
unfoldable pub total_us : ℤ → List ℤ × Bytes → Option ℤ
unfolding scale parse_usec
total_us days (parts, frac) =
    let usec = parse_usec frac in
    let us =
      scale 1000000 (
        scale 86400 days +ℤ scale 3600 (part 0 parts) +ℤ scale 60 (part 1 parts) +ℤ part 2 parts) in
    if is_int days
      && (is_int (part 0 parts)
          && (is_int (part 1 parts)
              && (is_int (part 2 parts) && (is_int usec && in_range (2 ^ 63) us))))
    then int64 (us +ℤ usec)
    else none

unfoldable pub unsigned_us : Bytes → Option ℤ
unsigned_us s = elim (split_space s) [
  | none ↦ total_us (pos 0) (parse_parts 3 [] s)
  | some (before, after) ↦ total_us (atoi before) (parse_parts 3 [] after)
]

abbrev pub negated : Option ℤ → Option ℤ
negated none = none
negated (some us) = int64 (pos 0 -ℤ us)

unfoldable pub parse_mariadb_interval_us : Bytes → Option ℤ
parse_mariadb_interval_us [] = some (pos 0)
parse_mariadb_interval_us (c ∷ s) =
    if c == b'-' then negated (unsigned_us s) else unsigned_us (c ∷ s)

abbrev pub day_us : ℕ
day_us = 86400000000

-- ((r % day_us) + day_us) % day_us
unfoldable pub wrap_day : ℤ → ℤ
unfolding ◌%ℤ◌ ◌+ℤ◌
wrap_day r = (r %ℤ day_us +ℤ pos day_us) %ℤ day_us

abbrev pub wrapped : Option ℤ → Option ℤ
wrapped none = none
wrapped (some r) = some (wrap_day r)

-- What is done with the interval, if it could be read.
abbrev pub given : (ℤ → Option ℤ) → Option ℤ → Option ℤ
given f none = none
given f (some us) = f us

-- On a TIMESTAMP, and on a TIME.
unfoldable pub addtime_ts : ℤ → Bytes → Option ℤ
addtime_ts ts s = given (λ us. int64 (ts +ℤ us)) (parse_mariadb_interval_us s)

unfoldable pub subtime_ts : ℤ → Bytes → Option ℤ
subtime_ts ts s = given (λ us. int64 (ts -ℤ us)) (parse_mariadb_interval_us s)

unfoldable pub addtime_time : ℤ → Bytes → Option ℤ
addtime_time t s = given (λ us. wrapped (int64 (t +ℤ us))) (parse_mariadb_interval_us s)

unfoldable pub subtime_time : ℤ → Bytes → Option ℤ
subtime_time t s = given (λ us. wrapped (int64 (t -ℤ us))) (parse_mariadb_interval_us s)
