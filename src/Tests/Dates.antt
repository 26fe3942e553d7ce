-- ===== src/Tests/Dates.antt =====
-- Dates as the functions on weeks and days meet them.
use duckdb_engine.Prelude.{
  ℕ, zero, suc, ◌+◌, ◌-◌, ◌%◌, ◌<◌, true, false, none, ◌≡◌, ◌⊎◌, refl, ap, ◌∙◌, arith,
}
use duckdb_engine.Prelude.Int.{ℤ, pos, negsuc}
use duckdb_engine.Functions.Week.{WeekBehaviour, calc_week, calc_daynr, calc_weekday}
use duckdb_engine.Functions.Week.Calendar.{IsDate, month_length, next_date, daynr}
use duckdb_engine.Functions.Week.One.{week_one, InWeek, IsWeek}
use duckdb_engine.Functions.Week.Numbers.{calc_week-IsWeek, calc_week-InWeek}
use duckdb_engine.Functions.Week.Days.{
  DuckdbDates, IsGregorian, nth_day, to_days_date, weekday_date, dayofweek_date, days-agree,
}

-- The modes 3, of ISO 8601, and 0.
abbrev iso : WeekBehaviour
iso = record { monday_first = true; week_year = true; first_weekday = false }

abbrev sundays : WeekBehaviour
sundays = record { monday_first = false; week_year = false; first_weekday = true }

new_year : IsDate 2027 1 1
unfolding month_length
new_year = record {
  year_in = omega arith;
  month_from = omega arith;
  month_to = omega arith;
  day_from = omega arith;
  day_to = omega arith;
}

new_year_week : calc_week 2027 1 1 iso ≡ (53, 2026)
unfolding calc_week
new_year_week = refl

calc_week-IsWeek_example : IsWeek iso (calc_daynr 2027 1 1) (calc_week 2027 1 1 iso)
calc_week-IsWeek_example = calc_week-IsWeek iso 2027 1 1 new_year (omega arith) (omega arith) refl

calc_week-InWeek_example :
    ((calc_week 2027 1 1 sundays).1 ≡ 2027)
    × ((((calc_week 2027 1 1 sundays).0 ≡ 0) × (calc_daynr 2027 1 1 < week_one sundays 2027))
        ⊎ InWeek sundays 2027 (calc_week 2027 1 1 sundays).0 (calc_daynr 2027 1 1))
calc_week-InWeek_example =
    calc_week-InWeek sundays 2027 1 1 new_year (omega arith) (omega arith) refl

-- DuckDB's dates, counted out.
nth_date : ℕ → ℕ × ℕ × ℕ
nth_date zero = (1, 1, 1)
nth_date (suc n) = next_date (nth_date n)

abbrev day_index : ℤ → ℕ
day_index (pos n) = n + 719162
day_index (negsuc n) = 719161 - n

day_index-nth_day : (n : ℕ) → day_index (nth_day n) ≡ n
day_index-nth_day n = ground arith

abbrev calendar : DuckdbDates
calendar = record {
  convert = λ d. nth_date (day_index d);
  iso_weekday = λ d. day_index d % 7 + 1;
  get_date = λ ts. ts;
  from_text = λ s. none;
}

calendar-IsGregorian : IsGregorian calendar
unfolding nth_date
calendar-IsGregorian = record {
  first_date = refl;
  date_after =
      λ n. ap nth_date (day_index-nth_day (suc n)) ∙ ap (λ k. next_date (nth_date k)) (back n);
  first_weekday = refl;
  weekday_after = λ n. omega (arith, day_index-nth_day (suc n), day_index-nth_day n);
}
  where
    back : (n : ℕ) → n ≡ day_index (nth_day n)
    back n = omega (arith, day_index-nth_day n)

days-agree_example :
    (to_days_date (nth_day 40) ≡ pos (daynr (calendar.convert (nth_day 40))))
    × (weekday_date calendar (nth_day 40)
        ≡ pos (calc_weekday (daynr (calendar.convert (nth_day 40))) false))
    × (dayofweek_date calendar (nth_day 40)
        ≡ calc_weekday (daynr (calendar.convert (nth_day 40))) true + 1)
days-agree_example = days-agree calendar calendar-IsGregorian 40
