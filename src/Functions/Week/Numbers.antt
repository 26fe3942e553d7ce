-- ===== src/Functions/Week/Numbers.antt =====
-- The week that calc_week gives is the one that the date lies in.
use duckdb_engine.Prelude.{
  ℕ, ◌+◌, ◌-◌, ◌%◌, ◌≤◌, ◌<◌, ◌≡◌, ◌⊎◌, inl, inr, true, false, not, ◌&&◌, ◌==◌, leb, arith,
  if-keeps, ap, subst, refl, sym,
}
use native.Mathlib.Decide.{ℕ_discrete}
use duckdb_engine.Functions.Week.{
  WeekBehaviour, calc_days_in_year, calc_daynr, starts_late, count_weeks, calc_week,
}
use duckdb_engine.Functions.Week.Calendar.{
  IsDate, year_lengths, year_start, day_in_year, day_in_january, day_behind_january,
}
use duckdb_engine.Functions.Week.One.{
  january_weekday, january_weekday_next, january_weekday-lt, start_of_one, week_one, InWeek, IsWeek,
  week_one_near,
}
use duckdb_engine.Functions.Week.Count.{count_weeks-IsWeek, count_weeks-InWeek, count_weeks-year}

-- The weekday that calc_week finds for 1 January of the year before.
weekday_before :
    (b : WeekBehaviour) (y : ℕ)
    → 1 ≤ y
    → (january_weekday b y + 371 - calc_days_in_year (y - 1)) % 7 ≡ january_weekday b (y - 1)
weekday_before b y h =
    let e : y - 1 + 1 ≡ y = omega arith in
    let next = january_weekday_next b (y - 1) in
    omega (
      arith,
      subst (λ z. january_weekday b z ≡ (january_weekday b (y - 1) + calc_days_in_year (y - 1)) % 7)
          e next,
      year_lengths (y - 1),
      january_weekday-lt b (y - 1),
    )

year_before :
    (y : ℕ) → 1 ≤ y → calc_daynr y 1 1 ≡ calc_daynr (y - 1) 1 1 + calc_days_in_year (y - 1)
year_before y h =
    subst (λ z. calc_daynr z 1 1 ≡ calc_daynr (y - 1) 1 1 + calc_days_in_year (y - 1)) (omega arith)
      (year_start (y - 1))

-- A day has a week of its own year, or lies before the first one.
abbrev IsNumbered : WeekBehaviour → ℕ → ℕ → ℕ × ℕ → Type 0
IsNumbered b y day (n, y') = (y' ≡ y) × (((n ≡ 0) × (day < week_one b y)) ⊎ InWeek b y n day)

numbered :
    (b : WeekBehaviour) (y day : ℕ) (r : ℕ × ℕ)
    → 1 ≤ y
    → IsWeek b day r × ((r.1 ≡ y - 1) ⊎ (r.1 ≡ y - 1 + 1))
    → week_one b y ≤ day
    → IsNumbered b y day r
numbered b y day (n, y') h (w, inl p) k =
    let e : y' + 1 ≡ y = omega arith in
    absurd (omega (arith, subst (λ z. day < week_one b z) e w.1))
numbered b y day (n, y') h (w, inr p) k =
    let e : y' ≡ y = omega arith in (e, inr (subst (λ z. InWeek b z n day) e w.0))

module _ (b : WeekBehaviour) (y m d : ℕ) (v : IsDate y m d) (from_two : 2 ≤ y)
    (no_overflow : y ≤ 5881580) where
  -- A date that the test of the first lines lets pass lies behind the start of week 1.
  behind_first_week :
      ((m == 1) && leb d (7 - january_weekday b y)) ≡ false → week_one b y ≤ calc_daynr y m d
  unfolding week_one start_of_one
  behind_first_week e = elim (ℕ_discrete m 1) [
    | yes p ↦
        ground (
          arith,
          day_in_january y d v.day_from,
          ap (λ k. calc_daynr y k d) p,
          january_weekday-lt b y,
        )
    | no p ↦ ground (arith, day_behind_january y m d v p, january_weekday-lt b y)
  ]

  -- The first days of January, counted in the year before.
  in_january :
      ((m == 1) && leb d (7 - january_weekday b y)) ≡ true
      → (calc_daynr y 1 1 ≤ calc_daynr y m d)
        × (calc_daynr y m d + january_weekday b y < calc_daynr y 1 1 + 7)
  in_january e = ground (
    arith,
    day_in_january y d v.day_from,
    λ (p : m ≡ 1). ap (λ k. calc_daynr y k d) p,
    january_weekday-lt b y,
    v.day_from,
  )

  -- The first days of January, counted in the year before.
  in_year_before :
      ((m == 1) && leb d (7 - january_weekday b y)) ≡ true
      → let counted =
          count_weeks b true
            (calc_daynr y m d)
            (calc_daynr y 1 1 - calc_days_in_year (y - 1))
            ((january_weekday b y + 371 - calc_days_in_year (y - 1)) % 7)
            (y - 1) in
        IsWeek b (calc_daynr y m d) counted × ((counted.1 ≡ y - 1) ⊎ (counted.1 ≡ y - 1 + 1))
  in_year_before e =
      let start : calc_daynr y 1 1 - calc_days_in_year (y - 1) ≡ calc_daynr (y - 1) 1 1 =
        omega (arith, year_before y v.year_in) in
      let behind : week_one b (y - 1) ≤ calc_daynr y m d = omega (
        arith,
        year_before y v.year_in,
        week_one_near b (y - 1) (omega arith),
        year_lengths (y - 1),
        in_january e,
      ) in
      let near : calc_daynr y m d < calc_daynr (y - 1) 1 1 + 400 =
        omega (arith, year_before y v.year_in, year_lengths (y - 1), in_january e) in
      let ends : y ≡ y - 1 + 1 = omega arith in
      rw (start, weekday_before b y v.year_in)
        (
          count_weeks-IsWeek b (y - 1) (calc_daynr y m d) (omega arith) (omega (arith, no_overflow))
              behind near
              (subst (λ z. calc_daynr y m d + january_weekday b z < calc_daynr z 1 1 + 7) ends
                (in_january e).1),
          count_weeks-year b (y - 1) (calc_daynr y m d) (omega arith) (omega (arith, no_overflow))
              behind near true,
        )

  in_own_year :
      ((m == 1) && leb d (7 - january_weekday b y)) ≡ false
      → IsWeek b
          (calc_daynr y m d)
          (count_weeks b true (calc_daynr y m d) (calc_daynr y 1 1) (january_weekday b y) y)
  in_own_year e =
      count_weeks-IsWeek b y (calc_daynr y m d) v.year_in no_overflow (behind_first_week e)
        (omega (arith, day_in_year y m d v, year_lengths y))
        (omega (arith, day_in_year y m d v, year_start y, january_weekday-lt b (y + 1)))

  -- In the modes that number a week by its year, as YEARWEEK does, the date lies in the week that
  -- calc_week gives, of the year that it gives, counted from the first day of that year's week 1,
  -- and before the week 1 of the next year.
  pub calc_week-IsWeek : b.week_year ≡ true → IsWeek b (calc_daynr y m d) (calc_week y m d b)
  unfolding calc_week january_weekday week_one
  calc_week-IsWeek e =
      if-keeps (IsWeek b (calc_daynr y m d)) ((m == 1) && leb d (7 - january_weekday b y))
        (λ t. rw e (in_year_before t).0) (λ t. rw e (in_own_year t))

  -- The first days of January, where the year starts late and where it does not.
  january_late :
      ((m == 1) && leb d (7 - january_weekday b y)) ≡ true
      → starts_late b (january_weekday b y) ≡ true
      → calc_daynr y m d < week_one b y
  unfolding week_one start_of_one starts_late
  january_late e late = rw late (omega (arith, in_january e))

  january_early :
      ((m == 1) && leb d (7 - january_weekday b y)) ≡ true
      → starts_late b (january_weekday b y) ≡ false
      → week_one b y ≤ calc_daynr y m d
  unfolding week_one start_of_one starts_late
  january_early e early = rw early (omega (arith, in_january e))

  -- In the other modes it is numbered in its own year: the week is 0 where the date lies before
  -- week 1, and else the date lies in that week.
  pub calc_week-InWeek :
      b.week_year ≡ false
      → let found = calc_week y m d b in
        (found.1 ≡ y)
        × (((found.0 ≡ 0) × (calc_daynr y m d < week_one b y))
            ⊎ InWeek b y found.0 (calc_daynr y m d))
  unfolding calc_week january_weekday
  calc_week-InWeek e =
      if-keeps (IsNumbered b y (calc_daynr y m d)) ((m == 1) && leb d (7 - january_weekday b y))
        (λ t.
          if-keeps (IsNumbered b y (calc_daynr y m d))
            (not b.week_year && starts_late b (january_weekday b y))
            (λ late. (refl, inl (refl, january_late t (ground arith))))
            (λ early.
              numbered b y (calc_daynr y m d) _ v.year_in (in_year_before t)
                (january_early t (ground arith))))
        (λ t.
          subst
            (λ k.
              IsNumbered b y (calc_daynr y m d)
                (count_weeks b k (calc_daynr y m d) (calc_daynr y 1 1) (january_weekday b y) y))
            (sym e)
            (own (
              count_weeks-InWeek b y (calc_daynr y m d) v.year_in no_overflow (behind_first_week t)
                (omega (arith, day_in_year y m d v, year_lengths y)))))
    where
      own :
          {r : ℕ × ℕ}
          → InWeek b y r.0 (calc_daynr y m d) × (r.1 ≡ y)
          → IsNumbered b y (calc_daynr y m d) r
      own h = (h.1, inr h.0)
