-- ===== src/Functions/Week.antt =====
-- WEEK, YEARWEEK, TO_DAYS, DAYOFWEEK and WEEKDAY of runtime/duckdb_mysql_compat.cc. The bits of
-- `week_behaviour` are three Booleans. Years are from 0 on, and months from 1.
pub mod Calendar
pub mod One
pub mod Count
pub mod Numbers
pub mod Days
use duckdb_engine.Prelude.{
  ℕ, ◌+◌, ◌-◌, ◌*◌, ◌/◌, ◌%◌, ◌^◌, Bool, true, false, not, ◌&&◌, ◌||◌, ◌==◌, ltb, leb,
  if◌then◌else◌,
}

-- MC_WEEK_MONDAY_FIRST, MC_WEEK_YEAR and MC_WEEK_FIRST_WEEKDAY
pub record WeekBehaviour : Type 0 where
  pub monday_first : Bool
  pub week_year : Bool
  pub first_weekday : Bool

unfoldable pub week_mode : ℕ → WeekBehaviour
week_mode mode = record {
  monday_first = mode % 2 == 1;
  week_year = mode / 2 % 2 == 1;
  first_weekday = if mode % 2 == 1 then mode / 4 % 2 == 1 else not (mode / 4 % 2 == 1);
}

unfoldable pub calc_days_in_year : ℕ → ℕ
calc_days_in_year year =
    if (year % 4 == 0) && (not (year % 100 == 0) || (year % 400 == 0) && not (year == 0))
    then 366
    else 365

-- The sums of a year from 0 and a month from 1 on are not below 0 anywhere.
unfoldable pub calc_daynr : ℕ → ℕ → ℕ → ℕ
calc_daynr year month day =
    let delsum = 365 * year + 31 * month + day - 31 in
    if (year == 0) && (month == 0)
    then 0
    else if leb month 2
    then delsum + (year - 1) / 4 - ((year - 1) / 100 + 1) * 3 / 4
    else delsum - (month * 4 + 23) / 10 + year / 4 - (year / 100 + 1) * 3 / 4

unfoldable pub calc_weekday : ℕ → Bool → ℕ
calc_weekday daynr sunday_first = (daynr + 5 + (if sunday_first then 1 else 0)) % 7

-- The first days of the year belong to the year before: the test that calc_week makes twice.
unfoldable pub starts_late : WeekBehaviour → ℕ → Bool
starts_late b weekday =
    (b.first_weekday && not (weekday == 0)) || (not b.first_weekday && leb 4 weekday)

-- From `days` on. `uint32_t days` is a difference of two longs.
unfoldable pub count_weeks : WeekBehaviour → Bool → ℕ → ℕ → ℕ → ℕ → ℕ × ℕ
unfolding starts_late calc_days_in_year
count_weeks b week_year daynr first_daynr weekday year =
    let days =
      (daynr + weekday + 2 ^ 32 - (if starts_late b weekday then first_daynr + 7 else first_daynr))
      % 2 ^ 32 in
    let weekday' = (weekday + calc_days_in_year year) % 7 in
    if week_year
      && (leb 364 days
          && ((not b.first_weekday && ltb weekday' 4) || (b.first_weekday && (weekday' == 0))))
    then (1, year + 1)
    else (days / 7 + 1, year)

-- The week, and the year that it is of.
unfoldable pub calc_week : ℕ → ℕ → ℕ → WeekBehaviour → ℕ × ℕ
unfolding calc_daynr calc_weekday starts_late count_weeks calc_days_in_year
calc_week l_year l_month l_day b =
    let daynr = calc_daynr l_year l_month l_day in
    let first_daynr = calc_daynr l_year 1 1 in
    let weekday = calc_weekday first_daynr (not b.monday_first) in
    let days = calc_days_in_year (l_year - 1) in
    if (l_month == 1) && leb l_day (7 - weekday)
    then (if not b.week_year && starts_late b weekday
        then (0, l_year)
        else count_weeks b true daynr (first_daynr - days) ((weekday + 371 - days) % 7)
            (l_year - 1))
    else count_weeks b b.week_year daynr first_daynr weekday l_year

-- WEEK(date, mode) of a date that DuckDB has taken apart.
unfoldable pub week : ℕ → ℕ → ℕ → ℕ → ℕ
unfolding calc_week week_mode
week y m day mode = (calc_week y m day (week_mode mode)).0

-- YEARWEEK(date, mode)
unfoldable pub yearweek : ℕ → ℕ → ℕ → ℕ → ℕ
unfolding calc_week week_mode
yearweek y m day mode =
    let (w, year) = calc_week y m day (record (week_mode mode) { week_year = true }) in
    w + year * 100
