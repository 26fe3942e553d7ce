-- ===== src/Functions/Week/Count.antt =====
-- count_weeks, from the start of week 1 of a year.
use duckdb_engine.Prelude.{
  ℕ, ◌+◌, ◌-◌, ◌/◌, ◌%◌, ◌^◌, ◌≤◌, ◌<◌, ◌≡◌, ◌⊎◌, inl, inr, Bool, true, false, not, ◌&&◌, ◌||◌,
  ◌==◌, ltb, leb, if◌then◌else◌, arith, if-keeps, refl,
}
use duckdb_engine.Functions.Week.{WeekBehaviour, calc_daynr, starts_late, count_weeks}
use duckdb_engine.Functions.Week.Calendar.{year_lengths, year_start, year_start_small}
use duckdb_engine.Functions.Week.One.{
  january_weekday, january_weekday_next, january_weekday-lt, start_of_one, week_one, InWeek, IsWeek,
  year_starts_late, week_one_near,
}

-- The test by which count_weeks goes on to the next year.
turns : Bool → ℕ → ℕ → Bool
turns first_weekday days weekday =
    leb 364 days && ((not first_weekday && ltb weekday 4) || (first_weekday && (weekday == 0)))

module _ (first length next weekday weekday' day : ℕ) (ends : next ≡ first + length)
    (w : weekday < 7) (w' : weekday' ≡ (weekday + length) % 7) (f : 7 ≤ first)
    (before : day + weekday' < next + 7) where
  turns-next :
      (fw : Bool)
      → (length ≡ 365) ⊎ (length ≡ 366)
      → start_of_one fw first weekday ≤ day
      → turns fw (day - start_of_one fw first weekday) weekday' ≡ true
      → (start_of_one fw next weekday' ≤ day) × (day < start_of_one fw next weekday' + 7)
  unfolding turns start_of_one
  turns-next false (inl l) h t = ground arith
  turns-next false (inr l) h t = ground arith
  turns-next true (inl l) h t = ground arith
  turns-next true (inr l) h t = ground arith

  turns-not :
      (fw : Bool)
      → (length ≡ 365) ⊎ (length ≡ 366)
      → start_of_one fw first weekday ≤ day
      → turns fw (day - start_of_one fw first weekday) weekday' ≡ false
      → day < start_of_one fw next weekday'
  unfolding turns start_of_one
  turns-not false (inl l) h t = ground arith
  turns-not false (inr l) h t = ground arith
  turns-not true (inl l) h t = ground arith
  turns-not true (inr l) h t = ground arith

-- The two answers of the test, for the years that calc_week compares.
module _ (b : WeekBehaviour) (y day : ℕ) (from_one : 1 ≤ y) (behind : week_one b y ≤ day)
    (before : day + january_weekday b (y + 1) < calc_daynr (y + 1) 1 1 + 7) where
  week_one-turns :
      turns b.first_weekday (day - week_one b y) (january_weekday b (y + 1)) ≡ true
      → (week_one b (y + 1) ≤ day) × (day < week_one b (y + 1) + 7)
  unfolding week_one
  week_one-turns e =
      turns-next _ _ _ _ _ day (year_start y) (january_weekday-lt b y) (january_weekday_next b y)
        (omega (arith, year_starts_late y from_one)) before b.first_weekday (year_lengths y) behind
        e

  week_one_stays :
      turns b.first_weekday (day - week_one b y) (january_weekday b (y + 1)) ≡ false
      → day < week_one b (y + 1)
  unfolding week_one
  week_one_stays e =
      turns-not _ _ _ _ _ day (year_start y) (january_weekday-lt b y) (january_weekday_next b y)
        (omega (arith, year_starts_late y from_one)) before b.first_weekday (year_lengths y) behind
        e

module _ (b : WeekBehaviour) (y day : ℕ) (from_one : 1 ≤ y) (no_overflow : y ≤ 5881580)
    (behind : week_one b y ≤ day) (near : day < calc_daynr y 1 1 + 400) where
  days_counted :
      (day
          + january_weekday b y
          + 2 ^ 32
          - (if starts_late b (january_weekday b y)
              then calc_daynr y 1 1 + 7
              else calc_daynr y 1 1))
        % 2 ^ 32
      ≡ day - week_one b y
  unfolding week_one start_of_one starts_late january_weekday
  days_counted = ground (arith, year_start_small y)

  count_weeks-eq :
      (week_year : Bool)
      → count_weeks b week_year day (calc_daynr y 1 1) (january_weekday b y) y ≡ (
          if week_year && turns b.first_weekday (day - week_one b y) (january_weekday b (y + 1))
          then (1, y + 1)
          else ((day - week_one b y) / 7 + 1, y))
  unfolding count_weeks turns
  count_weeks-eq week_year = rw (january_weekday_next b y, days_counted)

  pub count_weeks-InWeek :
      (InWeek b y (count_weeks b false day (calc_daynr y 1 1) (january_weekday b y) y).0 day)
      × ((count_weeks b false day (calc_daynr y 1 1) (january_weekday b y) y).1 ≡ y)
  count_weeks-InWeek = rw (count_weeks-eq false) (omega arith)

  pub count_weeks-year :
      (week_year : Bool)
      → let counted = count_weeks b week_year day (calc_daynr y 1 1) (january_weekday b y) y in
        (counted.1 ≡ y) ⊎ (counted.1 ≡ y + 1)
  count_weeks-year week_year = rw (count_weeks-eq week_year) (
      if-keeps (λ (r : ℕ × ℕ). (r.1 ≡ y) ⊎ (r.1 ≡ y + 1))
        (week_year && turns b.first_weekday (day - week_one b y) (january_weekday b (y + 1)))
        (λ _. inr refl) (λ _. inl refl))

  pub count_weeks-IsWeek :
      day + january_weekday b (y + 1) < calc_daynr (y + 1) 1 1 + 7
      → IsWeek b day (count_weeks b true day (calc_daynr y 1 1) (january_weekday b y) y)
  count_weeks-IsWeek before = rw (count_weeks-eq true) (
      if-keeps (IsWeek b day)
        (turns b.first_weekday (day - week_one b y) (january_weekday b (y + 1)))
        (λ e. omega (
          arith,
          week_one-turns b y day from_one behind before e,
          week_one_near b (y + 1 + 1) (omega arith),
          year_start (y + 1),
          year_lengths (y + 1),
        ))
        (λ e. omega (arith, week_one_stays b y day from_one behind before e)))
