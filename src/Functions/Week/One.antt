-- ===== src/Functions/Week/One.antt =====
-- Week 1 of a year, and the weeks that are counted from it.
use duckdb_engine.Prelude.{
  ℕ, ◌+◌, ◌-◌, ◌*◌, ◌%◌, ◌≤◌, ◌<◌, ◌≡◌, Bool, not, ◌&&◌, ◌||◌, ◌==◌, leb, if◌then◌else◌, arith,
}
use duckdb_engine.Functions.Week.{WeekBehaviour, calc_days_in_year, calc_daynr, calc_weekday}
use duckdb_engine.Functions.Week.Calendar.{year_start}

-- The weekday of 1 January, counted from the day that weeks begin with.
unfoldable pub january_weekday : WeekBehaviour → ℕ → ℕ
unfolding calc_weekday
january_weekday b y = calc_weekday (calc_daynr y 1 1) (not b.monday_first)

-- The day that week 1 of a year begins with, by the day number of 1 January and its weekday: the
-- first day of the year that weeks begin with, or else the one of the week that has four days of
-- the year or more.
unfoldable pub start_of_one : Bool → ℕ → ℕ → ℕ
start_of_one first_weekday first weekday =
    if (first_weekday && not (weekday == 0)) || (not first_weekday && leb 4 weekday)
    then first + 7 - weekday
    else first - weekday

unfoldable pub week_one : WeekBehaviour → ℕ → ℕ
week_one b y = start_of_one b.first_weekday (calc_daynr y 1 1) (january_weekday b y)

-- A day lies in the n-th week of a year.
abbrev pub InWeek : WeekBehaviour → ℕ → ℕ → ℕ → Type 0
InWeek b y n day = (1 ≤ n) × (week_one b y + 7 * n ≤ day + 7) × (day < week_one b y + 7 * n)

pub january_weekday_next :
    (b : WeekBehaviour) (y : ℕ)
    → january_weekday b (y + 1) ≡ (january_weekday b y + calc_days_in_year y) % 7
unfolding january_weekday
january_weekday_next b y = omega (arith, year_start y)

pub january_weekday-lt : (b : WeekBehaviour) (y : ℕ) → january_weekday b y < 7
unfolding january_weekday
january_weekday-lt b y = omega arith

-- The week is of the year where the day lies behind the start of week 1, and not of the next year.
abbrev pub IsWeek : WeekBehaviour → ℕ → ℕ × ℕ → Type 0
IsWeek b day (n, y) = InWeek b y n day × (day < week_one b (y + 1))

pub year_starts_late : (y : ℕ) → 1 ≤ y → 366 ≤ calc_daynr y 1 1
unfolding calc_daynr
year_starts_late y h = ground arith

pub week_one_near :
    (b : WeekBehaviour) (y : ℕ)
    → 1 ≤ y
    → (calc_daynr y 1 1 ≤ week_one b y + 6) × (week_one b y ≤ calc_daynr y 1 1 + 6)
unfolding week_one start_of_one
week_one_near b y h = ground (arith, january_weekday-lt b y, year_starts_late y)
