-- ===== src/Functions/Week/Days.antt =====
-- TO_DAYS, DAYOFWEEK and WEEKDAY, and the entry points of WEEK and YEARWEEK: functions of DuckDB's
-- dates, which are days from 1970-01-01 on.
use duckdb_engine.Prelude.{
  ℕ, zero, suc, ◌+◌, ◌%◌, ◌≡◌, refl, ap, ◌∙◌, Bytes, Option, none, some, true, false, arith,
}
use duckdb_engine.Prelude.Int.{ℤ, pos, sub_ℕ, ◌+ℤ◌, ◌-ℤ◌}
use duckdb_engine.Functions.Week.{calc_daynr, calc_weekday, week, yearweek}
use duckdb_engine.Functions.Week.Calendar.{
  month_length, next_date, IsDateOf, daynr, daynr-next_date, next_date-IsDate,
}

-- Day 1 of the calendar, 0001-01-01, and the days that follow, as DuckDB counts them.
abbrev pub nth_day : ℕ → ℤ
nth_day n = sub_ℕ n 719162

-- What the functions use of DuckDB. `convert` is Date::Convert, `iso_weekday`
-- Date::ExtractISODayOfTheWeek, `get_date` Timestamp::GetDate, and `from_text` Date::FromCString,
-- which throws at a text that is no date.
pub record DuckdbDates : Type 0 where
  pub convert : ℤ → ℕ × ℕ × ℕ
  pub iso_weekday : ℤ → ℕ
  pub get_date : ℤ → ℤ
  pub from_text : Bytes → Option ℤ

-- Dates are those of the Gregorian calendar, and weekdays go from 1 for Monday to 7.
pub record IsGregorian (duckdb : DuckdbDates) : Type 0 where
  pub first_date : duckdb.convert (nth_day 0) ≡ (1, 1, 1)
  pub date_after :
      (n : ℕ) → duckdb.convert (nth_day (suc n)) ≡ next_date (duckdb.convert (nth_day n))
  pub first_weekday : duckdb.iso_weekday (nth_day 0) ≡ 1
  pub weekday_after :
      (n : ℕ) → duckdb.iso_weekday (nth_day (suc n)) ≡ duckdb.iso_weekday (nth_day n) % 7 + 1

unfoldable pub to_days_date : ℤ → ℤ
to_days_date d = d +ℤ pos 719528

module _ (duckdb : DuckdbDates) where
  unfoldable pub to_days_varchar : Bytes → Option ℤ
  to_days_varchar s = elim (duckdb.from_text s) [ none ↦ none | some d ↦ some (d +ℤ pos 719528) ]

  unfoldable pub dayofweek_date : ℤ → ℕ
  dayofweek_date d = duckdb.iso_weekday d % 7 + 1

  unfoldable pub dayofweek_ts : ℤ → ℕ
  dayofweek_ts ts = duckdb.iso_weekday (duckdb.get_date ts) % 7 + 1

  unfoldable pub weekday_date : ℤ → ℤ
  weekday_date d = pos (duckdb.iso_weekday d) -ℤ pos 1

  unfoldable pub weekday_ts : ℤ → ℤ
  weekday_ts ts = pos (duckdb.iso_weekday (duckdb.get_date ts)) -ℤ pos 1

  unfoldable pub week_date : ℤ → ℕ → ℕ
  week_date d mode = let (y, m, day) = duckdb.convert d in week y m day mode

  unfoldable pub week_ts : ℤ → ℕ → ℕ
  week_ts ts mode = let (y, m, day) = duckdb.convert (duckdb.get_date ts) in week y m day mode

  unfoldable pub yearweek_date : ℤ → ℕ → ℕ
  yearweek_date d mode = let (y, m, day) = duckdb.convert d in yearweek y m day mode

  unfoldable pub yearweek_ts : ℤ → ℕ → ℕ
  yearweek_ts ts mode =
      let (y, m, day) = duckdb.convert (duckdb.get_date ts) in yearweek y m day mode

module _ (duckdb : DuckdbDates) (g : IsGregorian duckdb) where
  convert-IsDate : (n : ℕ) → IsDateOf (duckdb.convert (nth_day n))
  unfolding month_length
  convert-IsDate zero = rw g.first_date (omega arith)
  convert-IsDate (suc n) = rw (g.date_after n) (next_date-IsDate _ (convert-IsDate n))

  daynr_of_nth : (n : ℕ) → daynr (duckdb.convert (nth_day n)) ≡ n + 366
  daynr_of_nth zero = rw g.first_date (unfold calc_daynr in refl)
  daynr_of_nth (suc n) =
      ap daynr (g.date_after n)
      ∙ omega (arith, daynr-next_date _ (convert-IsDate n), daynr_of_nth n)

  iso_weekday_of_nth : (n : ℕ) → duckdb.iso_weekday (nth_day n) ≡ n % 7 + 1
  iso_weekday_of_nth zero = g.first_weekday
  iso_weekday_of_nth (suc n) = g.weekday_after n ∙ omega (arith, iso_weekday_of_nth n)

  -- From 0001-01-01 on the functions agree, although they get at a date in different ways: TO_DAYS,
  -- by DuckDB's count of days, is the number that calc_week works with, from the date taken apart,
  -- and WEEKDAY and DAYOFWEEK, by DuckDB's weekday, are calc_week's weekdays from Monday and from
  -- Sunday.
  pub days-agree :
      (n : ℕ)
      → let day = daynr (duckdb.convert (nth_day n)) in
        (to_days_date (nth_day n) ≡ pos day)
        × (weekday_date duckdb (nth_day n) ≡ pos (calc_weekday day false))
        × (dayofweek_date duckdb (nth_day n) ≡ calc_weekday day true + 1)
  unfolding to_days_date weekday_date dayofweek_date calc_weekday ◌+ℤ◌ ◌-ℤ◌
  days-agree n = (
    ground (arith, daynr_of_nth n),
    ground (arith, daynr_of_nth n, iso_weekday_of_nth n),
    ground (arith, daynr_of_nth n, iso_weekday_of_nth n),
  )
